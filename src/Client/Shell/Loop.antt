-- ===== src/Client/Shell/Loop.antt =====
-- lib/support/client/cli.go: the loop of RunCLI.
use dropbox_for_ctf.Base.{Option, none, some, List, [], ◌∷◌, ◌++◌, if◌then◌else◌, ◌||◌}
use dropbox_for_ctf.Text.{Bytes, lit, str_eq}
use dropbox_for_ctf.Go.{◌>>=◌, ◌>>◌, pure, return}
use dropbox_for_ctf.Client.{Attempt, done, failed, text_of, plain}
use dropbox_for_ctf.Client.Shell.{Api, Local, Statement, say, complain, ask, abort_if, fields}
use dropbox_for_ctf.Client.Shell.Lines.{
  quit_line, cd_line, pwd_line, ls_line, upload_line, mkdir_line, download_line, cat_line, rm_line,
  help_line, chperm_line, share_line, unshare_line,
}

module _ {X D : Type 0} where
  -- `pwd, err := c.PWD()` and the prompt; the path is empty after an error that is not fatal.
  unfoldable pub show_prompt : Attempt Bytes → Statement X D
  unfolding say complain abort_if
  show_prompt (done path) = say (path ++ lit "> ")
  show_prompt (failed e) = do
    complain (lit "error retrieving pwd: " ++ text_of e ++ lit "\n")
    abort_if (lit "fatal error; aborting\n") e
    say (lit "> ")

  -- What follows the last line: the scanner's error, if it has one.
  unfoldable pub finish : Option Bytes → Statement X D
  unfolding say complain
  finish none = say (lit "\n") >> return none
  finish (some e) = do
    say (lit "\n")
    complain (lit "error scanning stdin: " ++ e ++ lit "\n")
    return (some (plain e))

module _ {X D : Type 0} (api : Api X) (files : Local D) where
  -- The `switch` over the first word of a line.
  unfoldable pub obey : Bytes → List Bytes → Statement X D
  unfolding quit_line cd_line pwd_line ls_line upload_line mkdir_line download_line cat_line rm_line
      help_line chperm_line share_line unshare_line say
  obey name args =
      if str_eq name (lit "quit") || str_eq name (lit "exit")
      then quit_line name args
      else (if str_eq name (lit "cd")
          then cd_line api name args
          else (if str_eq name (lit "pwd")
              then pwd_line api name args
              else (if str_eq name (lit "ls")
                  then ls_line api name args
                  else (if str_eq name (lit "upload")
                      then upload_line api files name args
                      else (if str_eq name (lit "mkdir")
                          then mkdir_line api name args
                          else (if str_eq name (lit "download")
                              then download_line api files name args
                              else (if str_eq name (lit "cat")
                                  then cat_line api name args
                                  else (if str_eq name (lit "rm")
                                      then rm_line api args
                                      else (if str_eq name (lit "help")
                                          then help_line name args
                                          else (if str_eq name (lit "chperm")
                                              then chperm_line api name args
                                              else (if str_eq name (lit "share")
                                                  then share_line api name args
                                                  else (if str_eq name (lit "unshare")
                                                      then unshare_line api name args
                                                      else say (
                                                          lit
                                                            "Unknown command; try \"help\"\n")))))))))))))

  -- A line that the scanner has read; a line without fields is passed over.
  unfoldable pub obey_line : List Bytes → Statement X D
  unfolding obey
  obey_line [] = pure tt
  obey_line (name ∷ args) = obey name args

  -- `RunCLI`, for the lines that the scanner will read and the error that it then ends with.
  unfoldable pub run_cli : Option Bytes → List Bytes → Statement X D
  unfolding ask show_prompt obey_line finish fields
  run_cli end [] = do r ← ask api.pwd; show_prompt r; finish end
  run_cli end (line ∷ lines) = do
    r ← ask api.pwd
    show_prompt r
    obey_line (fields line)
    run_cli end lines

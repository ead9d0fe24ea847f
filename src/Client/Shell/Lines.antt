-- ===== src/Client/Shell/Lines.antt =====
-- lib/support/client/cli.go: the cases of the `switch` in RunCLI, each from the name and the arguments.
use dropbox_for_ctf.Base.{List, [], ◌∷◌, ◌++◌, none}
use dropbox_for_ctf.Text.{Bytes, lit}
use dropbox_for_ctf.FilePath.{ok, err}
use dropbox_for_ctf.Go.{◌>>=◌, ◌>>◌, pure, return, gets}
use dropbox_for_ctf.Client.Shell.{
  Api, Local, Statement, say, complain, usage, say_entries, say_commands, attempt, nothing, on_disk,
}

-- The list that `help` prints.
abbrev pub commands : List Bytes
commands =
    lit "cd [<path>]"
    ∷ lit "pwd"
    ∷ lit "ls [<path>]"
    ∷ lit "mkdir <path>"
    ∷ lit "upload <localpath> <remotepath>"
    ∷ lit "download <remotepath> <localpath>"
    ∷ lit "cat <remotepath>"
    ∷ lit "rm <path>"
    ∷ lit "share <filepath> <user> <permissions(r/rw)>"
    ∷ lit "unshare <filepath> <user>"
    ∷ lit "<filepath> <user> <permissions(r/rw)>"
    ∷ lit "quit"
    ∷ lit "exit"
    ∷ lit "help"
    ∷ []

module _ {X D : Type 0} where
  unfoldable pub quit_line : Bytes → List Bytes → Statement X D
  unfolding usage say
  quit_line name [] = return none
  quit_line name args = usage name []

  unfoldable pub help_line : Bytes → List Bytes → Statement X D
  unfolding usage say say_commands
  help_line name [] = say (lit "Available commands:\n") >> say_commands commands
  help_line name args = usage name []

module _ {X D : Type 0} (api : Api X) where
  unfoldable pub cd_line : Bytes → List Bytes → Statement X D
  unfolding usage say attempt
  cd_line name [] = attempt (api.cd (lit "/")) (lit "error cd'ing: ") [] nothing
  cd_line name (path ∷ []) = attempt (api.cd path) (lit "error cd'ing: ") [] nothing
  cd_line name args = usage name (lit " [<path>]")

  unfoldable pub pwd_line : Bytes → List Bytes → Statement X D
  unfolding usage say attempt
  pwd_line name [] = attempt api.pwd (lit "error getting pwd: ") [] λ path. say (path ++ lit "\n")
  pwd_line name args = usage name []

  unfoldable pub ls_line : Bytes → List Bytes → Statement X D
  unfolding usage say attempt say_entries
  ls_line name [] =
      attempt (api.list (lit ".")) (lit "error listing: ") (lit "fatal error; aborting\n")
        say_entries
  ls_line name (path ∷ []) =
      attempt (api.list path) (lit "error listing: ") (lit "fatal error; aborting\n") say_entries
  ls_line name args = usage name (lit " [<path>]")

  unfoldable pub mkdir_line : Bytes → List Bytes → Statement X D
  unfolding usage say attempt
  mkdir_line name (path ∷ []) = attempt (api.mkdir path) (lit "error making directory: ") [] nothing
  mkdir_line name args = usage name (lit " <path>")

  unfoldable pub cat_line : Bytes → List Bytes → Statement X D
  unfolding usage say attempt
  cat_line name (remotepath ∷ []) =
      attempt (api.download remotepath) (lit "error downloading: ") [] λ body. say body
  cat_line name args = usage name (lit " <remotepath>")

  -- The usage is printed by a format whose argument is missing.
  unfoldable pub rm_line : List Bytes → Statement X D
  unfolding usage say attempt
  rm_line (path ∷ []) = attempt (api.remove path) (lit "error removing: ") [] nothing
  rm_line args = usage (lit "%!v(MISSING)") (lit " <path>")

  unfoldable pub chperm_line : Bytes → List Bytes → Statement X D
  unfolding usage say attempt
  chperm_line name (path ∷ sharee ∷ perm ∷ []) =
      attempt (api.chperm path sharee perm) (lit "error chperm: ") [] nothing
  chperm_line name args = usage name (lit " <filepath> <user> <permissions(r/rw)>")

  unfoldable pub share_line : Bytes → List Bytes → Statement X D
  unfolding usage say attempt
  share_line name (path ∷ sharee ∷ perm ∷ []) =
      attempt (api.share path sharee perm) (lit "error share: ") [] nothing
  share_line name args = usage name (lit " <filepath> <user> <permissions(r/rw)>")

  unfoldable pub unshare_line : Bytes → List Bytes → Statement X D
  unfolding usage say attempt
  unshare_line name (path ∷ sharee ∷ []) =
      attempt (api.unshare path sharee) (lit "error unshare: ") [] nothing
  unshare_line name args = usage name (lit " <filepath> <user>")

module _ {X D : Type 0} (files : Local D) where
  -- `ioutil.WriteFile(args[1], body, 0664)` and its error
  unfoldable pub save : Bytes → Bytes → Statement X D
  unfolding complain on_disk
  save path body = do
    r ← on_disk (files.write_file path body)
    elim r [ ok u ↦ pure tt | err e ↦ complain (lit "error writing file: " ++ e ++ lit "\n") ]

module _ {X D : Type 0} (api : Api X) (files : Local D) where
  unfoldable pub upload_line : Bytes → List Bytes → Statement X D
  unfolding usage say complain attempt
  upload_line name (localpath ∷ remotepath ∷ []) = do
    body ← gets (λ s. files.read_file localpath s.disk)
    elim body [
      | err e ↦ complain (lit "error reading file: " ++ e ++ lit "\n")
      | ok b ↦ attempt (api.upload remotepath b) (lit "error uploading: ") [] nothing
    ]
  upload_line name args = usage name (lit " <localpath> <remotepath>")

  unfoldable pub download_line : Bytes → List Bytes → Statement X D
  unfolding usage say attempt save
  download_line name (remotepath ∷ localpath ∷ []) =
      attempt (api.download remotepath) (lit "error downloading: ") []
        λ body. save files localpath body
  download_line name args = usage name (lit " <remotepath> <localpath>")

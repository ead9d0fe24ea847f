-- ===== src/Client/Quit.antt =====
-- client/client.go: main of a user who quits at the first prompt, or whose connection is gone there.
use dropbox_for_ctf.Base.{
  ℕ, ◌≡◌, arith, ◌||◌, refl, true, none, some, Option, List, [], ◌∷◌, ◌++◌, if◌then◌else◌,
}
use dropbox_for_ctf.Text.{Bytes, lit, str_eq}
use dropbox_for_ctf.Go.{Outcome, next, ret, exit, ◌>>=◌, call, return}
use dropbox_for_ctf.Rpc.Dispatch.{Codec, count_of}
use dropbox_for_ctf.Rpc.Remote.{Network}
use dropbox_for_ctf.Server.Methods.{GoType, Value}
use dropbox_for_ctf.Client.{Failure, Attempt, done, failed, text_of, is_fatal, Client}
use dropbox_for_ctf.Client.Methods.{pwd_remote}
use dropbox_for_ctf.Client.Copy.{client_api, ask-call}
use dropbox_for_ctf.Client.Shell.{Api, Local, Shell, fields, say, complain, ask, abort_if}
use dropbox_for_ctf.Client.Shell.Lines.{quit_line}
use dropbox_for_ctf.Client.Shell.Loop.{run_cli, show_prompt, obey, obey_line}
use dropbox_for_ctf.Client.Main.{main, welcome, command_line, new_server_remote, server_address}

module _ {W D : Type 0} where
  -- The end of the program, by what the call for the prompt has given.
  abbrev pub stopped :
      Shell (Client W) D
      → Client W
      → Attempt Bytes
      → Outcome (Shell (Client W) D) (Unit {0}) (Unit {0})
  stopped s d (done path) =
      next tt (record s { client = d; stdout = s.stdout ++ (path ++ lit "> ") })
  stopped s d (failed e) =
      let told = s.stderr ++ (lit "error retrieving pwd: " ++ text_of e ++ lit "\n") in
      if is_fatal e
      then exit (record s { client = d; stderr = told ++ lit "fatal error; aborting\n" })
      else next tt (record s { client = d; stderr = told; stdout = s.stdout ++ lit "> " })

module _ {W D : Type 0} (networks : Bytes → Network W) (codec : Codec GoType Value)
    (errorf : Bytes → Bytes) (files : Local D) (scan : List Bytes → List Bytes × Option Bytes) where
  abbrev api : Bytes → Api (Client W)
  api addr = client_api (networks addr) codec errorf

  obey-quits :
      (addr word : Bytes) (t : Shell (Client W) D)
      → (str_eq word (lit "quit") || str_eq word (lit "exit")) ≡ true
      → obey (api addr) files word [] t ≡ ret none t
  unfolding obey quit_line return
  obey-quits addr word t quits = rw quits refl

  -- The first round of the loop, up to the end that the line or the prompt has made of it.
  abbrev first_round :
      Shell (Client W) D → Attempt Bytes → Outcome (Shell (Client W) D) (Option Failure) (Unit {0})
  first_round s (done path) = ret none (record s { stdout = s.stdout ++ (path ++ lit "> ") })
  first_round s (failed e) =
      let told = s.stderr ++ (lit "error retrieving pwd: " ++ text_of e ++ lit "\n") in
      if is_fatal e
      then ret (some e) (record s { stderr = told ++ lit "fatal error; aborting\n" })
      else ret none (record s { stderr = told; stdout = s.stdout ++ lit "> " })

  run_cli-quits :
      (addr : Bytes) (s : Shell (Client W) D) (d : Client W) (r : Attempt Bytes) (line word : Bytes)
      (rest : List Bytes) (end : Option Bytes)
      → fields line ≡ word ∷ []
      → (str_eq word (lit "quit") || str_eq word (lit "exit")) ≡ true
      → ask {R = Option Failure} (api addr).pwd s ≡ next r (record s { client = d })
      → run_cli (api addr) files end (line ∷ rest) s ≡ first_round (record s { client = d }) r
  unfolding run_cli show_prompt obey_line say complain abort_if ◌>>=◌
  run_cli-quits addr s d (done path) line word rest end parts quits asked =
      ground (arith, parts, obey-quits addr word _ quits, asked)
  run_cli-quits addr s d (failed e) line word rest end parts quits asked =
      ground (arith, parts, obey-quits addr word _ quits, asked)

  -- What `RunCLI` returns after that round.
  abbrev returned :
      Shell (Client W) D → Attempt Bytes → Outcome (Shell (Client W) D) (Unit {0}) (Option Failure)
  returned s (done path) = next none (record s { stdout = s.stdout ++ (path ++ lit "> ") })
  returned s (failed e) =
      let told = s.stderr ++ (lit "error retrieving pwd: " ++ text_of e ++ lit "\n") in
      if is_fatal e
      then next (some e) (record s { stderr = told ++ lit "fatal error; aborting\n" })
      else next none (record s { stderr = told; stdout = s.stdout ++ lit "> " })

  command_line-quits :
      (addr : Bytes) (s : Shell (Client W) D) (d : Client W) (r : Attempt Bytes) (line word : Bytes)
      (rest : List Bytes) (end : Option Bytes)
      → scan s.client.stdin ≡ (line ∷ rest, end)
      → run_cli (api addr) files end (line ∷ rest) s ≡ first_round (record s { client = d }) r
      → call (command_line networks codec errorf files scan (networks addr)) s
        ≡ returned (record s { client = d }) r
  unfolding command_line ◌>>=◌
  command_line-quits addr s d (done path) line word rest end scanned over =
      ground (arith, scanned, over)
  command_line-quits addr s d (failed e) line word rest end scanned over =
      ground (arith, scanned, over)

  ends_so :
      (n : ℕ) (args : List Bytes) (s : Shell (Client W) D) (c d : Client W) (r : Attempt Bytes)
      → count_of args ≡ 2
      → welcome
          (networks (server_address args))
          codec
          n
          (record (s.client) { link = new_server_remote (s.client.link.world) })
        ≡ next tt c
      → call
          (command_line networks codec errorf files scan (networks (server_address args)))
          (record s { client = c })
        ≡ returned (record s { client = d }) r
      → main networks codec errorf files scan n args s ≡ stopped s d r
  unfolding main ask ◌>>=◌
  ends_so n args s c d (done path) two logged_in over = ground (arith, two, logged_in, over)
  ends_so n args s c d (failed e) two logged_in over = ground (arith, two, logged_in, over)

  -- A user has logged in and types `quit` or `exit` alone at the first prompt: the program reads no line
  -- behind that one and returns. Where the call for the prompt has failed, it shows the error first; and if
  -- the error is a fatal one, it does not come to the line but exits.
  pub program_stops :
      (n : ℕ) (args : List Bytes) (s : Shell (Client W) D) (c d : Client W) (r : Attempt Bytes)
      (line word : Bytes) (rest : List Bytes) (end : Option Bytes)
      → count_of args ≡ 2
      → welcome
          (networks (server_address args))
          codec
          n
          (record (s.client) { link = new_server_remote (s.client.link.world) })
        ≡ next tt c
      → scan c.stdin ≡ (line ∷ rest, end)
      → fields line ≡ word ∷ []
      → (str_eq word (lit "quit") || str_eq word (lit "exit")) ≡ true
      → call {R = Attempt Bytes} (pwd_remote (networks (server_address args)) codec errorf) c
        ≡ next r d
      → main networks codec errorf files scan n args s ≡ stopped s d r
  unfolding main ◌>>=◌
  program_stops n args s c d r line word rest end two logged_in scanned parts quits asked =
      let t = record s { client = c } in
      let over = command_line-quits (server_address args) t d r line word rest end scanned (
        run_cli-quits (server_address args) t d r line word rest end parts quits
          (ask-call (api (server_address args)).pwd t asked)) in
      ends_so n args s c d r two logged_in over

-- ===== src/Client/Main.antt =====
-- client/client.go: main.
use dropbox_for_ctf.Base.{ℕ, not, false, Option, none, List, [], ◌∷◌, ◌++◌, ◌==◌, if◌then◌else◌}
use dropbox_for_ctf.Text.{Bytes, lit}
use dropbox_for_ctf.Go.{Body, Func, ◌>>=◌, ◌>>◌, pure, exit_process, modify, call}
use dropbox_for_ctf.Rpc.Dispatch.{Codec, count_of, is_some}
use dropbox_for_ctf.Rpc.Remote.{Network, Link}
use dropbox_for_ctf.Server.Methods.{GoType, Value}
use dropbox_for_ctf.Client.{Failure, Client, print}
use dropbox_for_ctf.Client.Login.{until_logged_in}
use dropbox_for_ctf.Client.Copy.{client_api}
use dropbox_for_ctf.Client.Shell.{Local, Shell, ask, complain}
use dropbox_for_ctf.Client.Shell.Loop.{run_cli}

-- `os.Args[0]` and `os.Args[1]`
abbrev program : List Bytes → Bytes
program [] = []
program (name ∷ rest) = name

abbrev pub server_address : List Bytes → Bytes
server_address [] = []
server_address (name ∷ []) = []
server_address (name ∷ addr ∷ rest) = addr

-- `NewServerRemote`
abbrev pub new_server_remote : {W : Type 0} → W → Link W
new_server_remote w = record { connected = false; world = w }

module _ {W : Type 0} (network : Network W) (codec : Codec GoType Value) where
  -- The dialogue before `RunCLI`.
  unfoldable pub welcome : ℕ → Func (Client W) (Unit {0})
  welcome n = do print (lit "Welcome to CS166 Dropbox!"); until_logged_in network codec n

-- `networks` is the network to each address; `scan` is what a bufio.Scanner makes of the reads that are
-- left: its lines, and its error.
module _ {W D : Type 0} (networks : Bytes → Network W) (codec : Codec GoType Value)
    (errorf : Bytes → Bytes) (files : Local D) (scan : List Bytes → List Bytes × Option Bytes) where
  -- `client.RunCLI(&c)`
  unfoldable pub command_line : Network W → Func (Shell (Client W) D) (Option Failure)
  command_line network s =
      let (lines, end) = scan s.client.stdin in
      (run_cli (client_api network codec errorf) files end lines >> pure none) s

  unfoldable pub main : ℕ → List Bytes → Body (Shell (Client W) D) (Unit {0}) (Unit {0})
  unfolding welcome command_line
  main n args =
      if not (count_of args == 2)
      then complain (lit "Usage: " ++ program args ++ lit " <server>\n") >> exit_process
      else (do
        modify λ s. record s {
          client = record (s.client) { link = new_server_remote (s.client.link.world) };
        }
        ask (welcome (networks (server_address args)) codec n)
        failure ← call (command_line (networks (server_address args)))
        if is_some failure then exit_process else pure tt)

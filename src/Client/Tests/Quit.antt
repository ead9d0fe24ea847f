-- ===== src/Client/Tests/Quit.antt =====
-- The theorem on main of the client, at a server that is gone after the login.
use dropbox_for_ctf.Base.{ℕ, zero, suc, ◌≡◌, refl, true, false, Option, none, some, List, [], ◌∷◌}
use dropbox_for_ctf.Text.{Bytes, lit, str_eq}
use dropbox_for_ctf.FilePath.{Result, ok, err}
use dropbox_for_ctf.Go.{next, ◌>>=◌, call}
use dropbox_for_ctf.Rpc.Remote.{Network, remote_call}
use dropbox_for_ctf.Client.{Client, Attempt, failed, make_fatal_error}
use dropbox_for_ctf.Client.Methods.{pwd_remote}
use dropbox_for_ctf.Client.Login.{until_logged_in}
use dropbox_for_ctf.Client.Main.{welcome, main}
use dropbox_for_ctf.Client.Quit.{stopped, program_stops}
use dropbox_for_ctf.Client.Shell.{Local, Shell, fields}
use dropbox_for_ctf.Sample.Wire.{wire, read}

abbrev reply : ℕ → Option (Result Bytes × ℕ)
reply zero = some (ok (1 ∷ 7 ∷ []), 1)
reply (suc n) = some (err (lit "unexpected EOF"), suc n)

-- The first exchange brings the reply to a login, and then the connection is lost.
abbrev lost : Bytes → Network ℕ
lost addr = record { dial = λ w. (ok tt, w); exchange = λ req w. reply w }

abbrev no_files : Local ℕ
no_files = record { read_file = λ p d. ok []; write_file = λ p b d. (ok tt, d) }

-- The lines that are left are the reads, and the input ends.
abbrev as_lines : List Bytes → List Bytes × Option Bytes
as_lines reads = (reads, none)

abbrev args : List Bytes
args = lit "client" ∷ lit "localhost:80" ∷ []

abbrev typed : Shell (Client ℕ) ℕ
typed = record {
  client = record {
    link = record { connected = false; world = 0 };
    sessionid = [];
    user = [];
    currdir = [];
    stdin = lit "1\n" ∷ lit "bob\n" ∷ lit "password\n" ∷ lit "exit" ∷ lit "ls" ∷ [];
    stdout = [];
    stderr = [];
  };
  disk = 0;
  stdout = [];
  stderr = [];
}

abbrev logged_in : Client ℕ
logged_in = record {
  link = record { connected = true; world = 1 };
  sessionid = 7 ∷ [];
  user = lit "bob";
  currdir = lit "./userfs/bob/";
  stdin = lit "exit" ∷ lit "ls" ∷ [];
  stdout =
      lit
        "Welcome to CS166 Dropbox!Please select an option...\n1...Log in to an existing account\n2...Create a new account\nEnter username: Enter Password: ";
  stderr = [];
}

logs_in : welcome (lost []) wire 2 typed.client ≡ next tt logged_in
unfolding welcome until_logged_in ◌>>=◌ lit str_eq remote_call read
logs_in = refl

abbrev cut_off : Client ℕ
cut_off = record logged_in { link = record { connected = false; world = 1 } }

abbrev gone : Attempt Bytes
gone = failed (make_fatal_error (lit "remote: unexpected EOF"))

prompt_fails :
    call {R = Attempt Bytes} (pwd_remote (lost []) wire (λ text. text)) logged_in
    ≡ next gone cut_off
unfolding pwd_remote ◌>>=◌ lit remote_call
prompt_fails = refl

program_stops_example :
    main lost wire (λ text. text) no_files as_lines 2 args typed ≡ stopped typed cut_off gone
unfolding fields lit str_eq
program_stops_example =
    program_stops lost wire (λ text. text) no_files as_lines 2 args typed logged_in cut_off gone
      (lit "exit") (lit "exit") (lit "ls" ∷ []) none refl logs_in refl refl refl prompt_fails

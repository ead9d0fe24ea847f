-- ===== src/Client/Tests/Dialogue.antt =====
-- The log-in of a user from two lines of the terminal, at a small server.
use dropbox_for_ctf.Base.{◌≡◌, refl, Bool, true, false, [], ◌∷◌, ◌++◌}
use dropbox_for_ctf.Text.{Bytes, lit, str_eq}
use dropbox_for_ctf.Go.{next, ◌>>=◌, call}
use dropbox_for_ctf.Store.{World, quiet, query_row, found, count, execute, system}
use dropbox_for_ctf.Server.Account.{check_user, authenticate_handler}
use dropbox_for_ctf.Server.Handlers.{authenticate, login, serve}
use dropbox_for_ctf.Sample.{Disk, world, memory}
use dropbox_for_ctf.Sample.Wire.{wire, wire-IsFaithful, near, near-IsServing, client}
use dropbox_for_ctf.Client.{Client}
use dropbox_for_ctf.Client.Login.{ask_creds}
use dropbox_for_ctf.Client.Dialogue.{ask_creds_answers}

abbrev alice : Bytes
alice = lit "alice"

-- alice before she has logged in, with a wrong password on the terminal.
abbrev typing : Client (World Disk)
typing = record client {
  currdir = [];
  user = [];
  sessionid = [];
  stdin = (alice ++ b'\n' ∷ []) ∷ (lit "wrong" ++ b'\n' ∷ []) ∷ [];
}

refused :
    serve memory 3 (authenticate alice (lit "wrong")) (quiet world)
    ≡ next (login (record { auth = false; session = [] })) (quiet world)
unfolding serve authenticate_handler check_user memory lit str_eq query_row found count execute
    system ◌>>=◌
refused = refl

ask_creds_answers_example :
    call {R = Bool} (ask_creds (near memory 3) wire) typing
    ≡ next false (record typing {
      link = record { connected = true; world = quiet world };
      user = alice;
      currdir = lit "./userfs/" ++ alice ++ lit "/";
      stdin = [];
      stdout = lit "Enter username: " ++ lit "Enter Password: ";
    })
unfolding lit
ask_creds_answers_example =
    ask_creds_answers memory 3 wire wire-IsFaithful (near memory 3) (near-IsServing memory 3) alice
      (lit "wrong") [] typing (record { auth = false; session = [] }) {v = quiet world} refl
      (λ e. cc e, (λ e. cc e, (λ e. cc e, (λ e. cc e, (λ e. cc e, tt)))))
      (λ e. cc e, (λ e. cc e, (λ e. cc e, (λ e. cc e, (λ e. cc e, tt))))) refused

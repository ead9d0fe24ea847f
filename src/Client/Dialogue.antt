-- ===== src/Client/Dialogue.antt =====
-- The log-in dialogue: a log-in from the terminal, and the end of the input.
use dropbox_for_ctf.Base.{
  ℕ, zero, suc, ◌≡◌, refl, ap, ◌∙◌, arith, ◌≢◌, All, true, false, some, List, [], ◌∷◌, ◌++◌,
  if◌then◌else◌,
}
use dropbox_for_ctf.Text.{Bytes, lit}
use dropbox_for_ctf.FilePath.{ok}
use dropbox_for_ctf.Go.{next, hang, ◌>>=◌, ◌>>◌, call, pure}
use dropbox_for_ctf.Go.Step.{bind-next}
use dropbox_for_ctf.Store.{Host, World}
use dropbox_for_ctf.Rpc.Dispatch.{Codec}
use dropbox_for_ctf.Rpc.Remote.{Network}
use dropbox_for_ctf.Server.Account.{AuthReturn}
use dropbox_for_ctf.Server.Handlers.{authenticate, login, serve}
use dropbox_for_ctf.Server.Methods.{GoType, Value}
use dropbox_for_ctf.Server.Methods.Table.{method_of, arguments_of, value_of}
use dropbox_for_ctf.Server.Methods.Call.{IsFaithful, IsServing, remote_call_serves}
use dropbox_for_ctf.Client.{Client, print, log, over_link}
use dropbox_for_ctf.Client.Login.{
  cut_line, read_line, trim_right, read_string, or_log, ask_creds, log_in,
}

-- The client after a log-in for which there is no input.
abbrev unanswered : {W : Type 0} → Client W → Client W
unanswered c = record c {
  stdin = [];
  stdout = c.stdout ++ lit "Enter username: ";
  stderr = c.stderr ++ (lit "error reading username: " ++ lit "EOF" ++ lit "\n");
}

module _ {W : Type 0} (network : Network W) (codec : Codec GoType Value) where
  ask_creds-eof :
      {R : Type 0} (c : Client W)
      → c.stdin ≡ []
      → call {R = R} (ask_creds network codec) c ≡ next false (unanswered c)
  unfolding ask_creds print log read_string or_log ◌>>=◌
  ask_creds-eof {R} c e =
      ap (λ lines. call {R = R} (ask_creds network codec) (record c { stdin = lines })) e

  -- At the end of the input the log-in loop never ends: however often it may go round, it is still asking.
  pub log_in_hangs :
      {R : Type 0} (n : ℕ) (c : Client W)
      → c.stdin ≡ []
      → (d : Client W) × (log_in network codec {R = R} n c ≡ hang d)
  unfolding log_in log ◌>>=◌
  log_in_hangs zero c e = (c, refl)
  log_in_hangs {R} (suc n) c e =
      let again = record (unanswered c) {
        stderr = (unanswered c).stderr ++ lit "Wrong credentials!\n";
      } in
      let (d, h) = log_in_hangs {R = R} n again refl in
      (
        d,
        bind-next (call (ask_creds network codec))
              (λ found.
                if found
                then pure tt
                else log (lit "Wrong credentials!\n") >> log_in network codec n)
              {w = c} (ask_creds-eof c e)
            ∙ h,
      )

cut_line-line :
    (s : Bytes) → All (λ b. b ≢ b'\n') s → cut_line (s ++ b'\n' ∷ []) ≡ some (s ++ b'\n' ∷ [], [])
cut_line-line [] h = refl
cut_line-line (x ∷ s) h = ground (arith, h.0, cut_line-line s h.1)

-- A read with an empty buffer takes one line from the terminal.
read_line-line :
    (s : Bytes) (rest : List Bytes)
    → All (λ b. b ≢ b'\n') s
    → read_line [] ((s ++ b'\n' ∷ []) ∷ rest) ≡ (ok (s ++ b'\n' ∷ [], []), rest)
read_line-line s [] h = ground (arith, cut_line-line s h)
read_line-line s (x ∷ rest) h = ground (arith, cut_line-line s h)

module _ {S : Type 0} (host : Host S) (fuel : ℕ) (codec : Codec GoType Value)
    (faithful : IsFaithful codec) (network : Network (World S))
    (serving : IsServing host fuel codec network) where
  -- A user who enters a name and a password is logged in as the server decides: the client takes the name,
  -- without what blanks and line ends stand behind it, as its user, the user's root as its directory and
  -- the cookie of the reply as its session, and asks for no more than the two lines.
  pub ask_creds_answers :
      {R : Type 0} (name password : Bytes) (lines : List Bytes) (c : Client (World S))
      (r : AuthReturn) {v : World S}
      → c.stdin ≡ (name ++ b'\n' ∷ []) ∷ (password ++ b'\n' ∷ []) ∷ lines
      → All (λ b. b ≢ b'\n') name
      → All (λ b. b ≢ b'\n') password
      → serve host fuel
          (authenticate (trim_right (name ++ b'\n' ∷ [])) (trim_right (password ++ b'\n' ∷ [])))
          c.link.world
        ≡ next (login r) v
      → call {R = R} (ask_creds network codec) c
        ≡ next r.auth (record c {
          link = record { connected = true; world = v };
          sessionid = r.session;
          user = trim_right (name ++ b'\n' ∷ []);
          currdir = lit "./userfs/" ++ trim_right (name ++ b'\n' ∷ []) ++ lit "/";
          stdin = lines;
          stdout = (c.stdout ++ lit "Enter username: ") ++ lit "Enter Password: ";
        })
  unfolding ask_creds print read_string or_log over_link method_of arguments_of value_of ◌>>=◌
  ask_creds_answers name password lines c r e f g served = ground (
    arith,
    e,
    read_line-line name ((password ++ b'\n' ∷ []) ∷ lines) f,
    read_line-line password lines g,
    remote_call_serves host fuel codec faithful network serving
        (authenticate (trim_right (name ++ b'\n' ∷ [])) (trim_right (password ++ b'\n' ∷ [])))
        (login r) c.link served,
  )

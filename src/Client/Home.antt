-- ===== src/Client/Home.antt =====
-- The client's current directory.
pub mod Refused
use dropbox_for_ctf.Base.{
  ℕ, ◌≡◌, refl, ◌∙◌, arith, not, ◌||◌, count_by, Bool, true, false, [], ◌∷◌, ◌++◌, if◌then◌else◌,
}
use native.Mathlib.Decide.{ℕ_discrete, dec_lt}
use dropbox_for_ctf.Store.Reports.{Reports}
use dropbox_for_ctf.Server.Session.{HasSession, run_command_refused}
use dropbox_for_ctf.Server.Confine.{run_command_confined}
use dropbox_for_ctf.Text.Laws.{str_eq_refl, eq_of_str_eq}
use dropbox_for_ctf.Text.{Bytes, lit, slash, str_eq, has_prefix, trim_prefix}
use dropbox_for_ctf.FilePath.{clean}
use dropbox_for_ctf.Go.{
  Outcome, next, ret, exit, hang, Body, Func, ◌>>=◌, ◌>>◌, call, pure, return_if, gets,
}
use dropbox_for_ctf.Go.Step.{call-bind_next}
use dropbox_for_ctf.Store.{Host, World, UserRow, find_cookie, is_not_exist}
use dropbox_for_ctf.Rpc.Dispatch.{Codec}
use dropbox_for_ctf.Rpc.Remote.{Network}
use dropbox_for_ctf.Server.Account.{check_path}
use dropbox_for_ctf.Server.Files.{abs_or}
use dropbox_for_ctf.Server.Handlers.{cd, in_session, Reply, message, serve}
use dropbox_for_ctf.Server.Methods.{GoType, Value, string_type}
use dropbox_for_ctf.Server.Methods.Table.{method_of, arguments_of, value_of}
use dropbox_for_ctf.Server.Methods.Call.{IsFaithful, IsServing}
use dropbox_for_ctf.Client.{Attempt, done, Client, call_server, check_session, print, string_of}
use dropbox_for_ctf.Client.Methods.{move, cd_remote}
use dropbox_for_ctf.Client.Report.{after, call_server-serves}

-- What a function's result satisfies, if it has one.
abbrev Gives : {W R : Type 0} → (R → Type 0) → Outcome W R R → Type 0
Gives Q (next r w) = Q r
Gives Q (ret r w) = Q r
Gives Q (exit w) = Unit
Gives Q (hang w) = Unit

-- A text that is no relative path, or one below `./userfs`.
abbrev IsHomeward : Bytes → Type 0
IsHomeward m = (has_prefix m (lit "./userfs") || not (has_prefix m (lit "./"))) ≡ true

module _ {S : Type 0} (host : Host S) (path username : Bytes) where
  cd_after_cookie : Bool → Func (World S) Bytes
  cd_after_cookie valid = do
    return_if (not valid) (lit "reauth")
    allow ← gets (λ w. check_path host path username w.os)
    return_if (not allow) (lit "You can't go outside of your directory!\n")
    desiredpath ← abs_or host (clean path) (λ _. [])
    missing ← gets (λ w. is_not_exist (host.stat desiredpath w.os))
    return_if missing (lit "That resource doesn't exist!\n")
    totrim ← abs_or host (lit "./userfs") (λ _. [])
    pure ((lit "./userfs" ++ trim_prefix desiredpath totrim) ++ slash ∷ [])

IsHomewardReply : Reply → Type 0
IsHomewardReply (message m) = IsHomeward m
IsHomewardReply r = Unit

-- What `CD` does with a reply: none of its three texts is an error of the method.
abbrev landed : {W R : Type 0} → Bytes → Client W → Outcome (Client W) R (Attempt (Unit {0}))
landed [] c = next (done tt) c
landed (b ∷ bs) c =
    if str_eq (b ∷ bs) (lit "reauth")
    then exit
        (record c { stdout = c.stdout ++ lit "Your session has expired. Please log in again.\n" })
    else (if has_prefix (b ∷ bs) (lit "./")
        then next (done tt) (record c { currdir = b ∷ bs })
        else next (done tt) (record c { stdout = c.stdout ++ b ∷ bs }))

module _ {W R : Type 0} (errorf : Bytes → Bytes) where
  move-landed :
      (m : Bytes) (c : Client W) → call {R = R} (move errorf m >> pure (done tt)) c ≡ landed m c
  unfolding move check_session print ◌>>=◌
  move-landed [] c = refl
  move-landed (b ∷ bs) c = ground arith

  asked_move :
      {V : Type 0} (m : Body (Client W) (Attempt (Unit {0})) V) (text : V → Bytes) (c d : Client W)
      {a : V}
      → m c ≡ next a d
      → call {R = R} (m >>= λ v. move errorf (text v) >> pure (done tt)) c ≡ landed (text a) d
  asked_move m text c d {a} e =
      call-bind_next m (λ v. move errorf (text v) >> pure (done tt)) e ∙ move-landed (text a) d

module _ {S : Type 0} (host : Host S) (fuel : ℕ) (codec : Codec GoType Value)
    (faithful : IsFaithful codec) (network : Network (World S))
    (serving : IsServing host fuel codec network) (errorf : Bytes → Bytes) where
  -- `CD` never fails: where the server replies with a text, the client ends if it is `reauth`, makes it its
  -- directory if it is a path that begins with `./`, and otherwise shows it.
  pub cd-landed :
      {R : Type 0} (p m : Bytes) (c : Client (World S)) {v : World S}
      → serve host fuel (in_session c.user c.sessionid (cd (c.currdir ++ p))) c.link.world
        ≡ next (message m) v
      → call {R = R} (cd_remote network codec errorf p) c ≡ landed m (after c v)
  unfolding cd_remote value_of method_of arguments_of ◌>>=◌
  cd-landed p m c {v} served =
      let r = in_session c.user c.sessionid (cd (c.currdir ++ p)) in
      asked_move errorf (call_server network codec (method_of r) string_type (arguments_of r))
        string_of c (after c v)
        (call_server-serves host fuel codec faithful network serving r (message m) (arguments_of r)
          c refl served)

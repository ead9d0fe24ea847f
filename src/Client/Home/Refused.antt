-- ===== src/Client/Home/Refused.antt =====
-- What the server replies to a cd that it refuses.
use dropbox_for_ctf.Base.{ℕ, ◌≡◌, ◌⊎◌, inl, inr, ap, count_by, Bool-cases, false}
use mathlib.Core.Path.{subst}
use native.Mathlib.Decide.{ℕ_discrete, dec_lt}
use dropbox_for_ctf.Store.Reports.{Reports}
use dropbox_for_ctf.Server.Session.{HasSession, run_command_refused}
use dropbox_for_ctf.Server.Confine.{run_command_confined}
use dropbox_for_ctf.Text.Laws.{str_eq_refl, eq_of_str_eq}
use dropbox_for_ctf.Text.{Bytes, lit, str_eq}
use dropbox_for_ctf.Go.{Outcome, next}
use dropbox_for_ctf.Store.{Host, World, UserRow, find_cookie}
use dropbox_for_ctf.Server.Account.{check_path}
use dropbox_for_ctf.Server.Handlers.{cd, in_session, Reply, message, serve}

-- What `cd` replies without a session, and on a path that is refused.
abbrev pub IsRefusal : Bytes → Type 0
IsRefusal m = (m ≡ lit "reauth") ⊎ (m ≡ lit "You can't go outside of your directory!\n")

module _ {S : Type 0} (host : Host S) where
  session_or_none : (u c : Bytes) (w : World S) → HasSession host u c w ⊎ ¬ HasSession host u c w
  session_or_none u c w =
      elim (ℕ_discrete (count_by (λ (r : UserRow). str_eq r.username u) w.users) 1) [
        | no other ↦ inr (λ h. other h.0)
        | yes one ↦ elim (dec_lt (host.now w.os) (find_cookie u w.cookiemap).expiretime) [
          | no late ↦ inr (λ h. late h.1)
          | yes early ↦ elim (Bool-cases (str_eq (find_cookie u w.cookiemap).sessionid c)) [
            | inl same ↦ inl (one, early, eq_of_str_eq (find_cookie u w.cookiemap).sessionid c same)
            | inr differ ↦ inr (λ h. cc (str_eq_refl c, differ, ap (λ x. str_eq x c) h.2))
          ]
        ]
      ]

  told :
      (w : World S) {v : World S} {o : Outcome (World S) Reply Reply} {m : Bytes} (text : Bytes)
      → Reports w (λ x. x ≡ message text) o
      → o ≡ next (message m) v
      → m ≡ text
  told w text h e = cc (subst (Reports w (λ x. x ≡ message text)) e h).0

  -- A `cd` to a path that `checkpath` does not accept is answered by one of the two texts.
  pub refusal :
      (fuel : ℕ) (path u c m : Bytes) (w v : World S)
      → check_path host path u w.os ≡ false
      → serve host fuel (in_session u c (cd path)) w ≡ next (message m) v
      → IsRefusal m
  unfolding serve
  refusal fuel path u c m w v outside served = elim (session_or_none u c w) [
    | inl session ↦
        inr (told w _ (run_command_confined host u w fuel c (cd path) session outside) served)
    | inr none ↦ inl (told w _ (run_command_refused host w fuel u c (cd path) none) served)
  ]

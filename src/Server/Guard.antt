-- ===== src/Server/Guard.antt =====
-- Commands over runs of the server: what a client can do as a user without a login as that user.
use dropbox_for_ctf.Base.{
  ℕ, ◌≡◌, ◌≢◌, refl, sym, ap, ◌∙◌, ◌⊎◌, inl, inr, Bool, false, List, [], ◌∷◌, arith, none, some,
  Option,
}
use dropbox_for_ctf.Text.{Bytes, str_eq}
use dropbox_for_ctf.Text.Laws.{eq_of_str_eq}
use dropbox_for_ctf.Go.{Outcome, next, ret, exit, hang}
use dropbox_for_ctf.Go.Keeps.{After}
use dropbox_for_ctf.Store.{Host, World, Cookie, zero_cookie, find_cookie}
use dropbox_for_ctf.Store.Reports.{Reports}
use dropbox_for_ctf.Server.Handlers.{
  chperm, share, unshare, upload, download, list, mkdir, remove_file, pwd, cd, Command, Request,
  in_session, authenticate, signup, run_command, serve,
}
use dropbox_for_ctf.Server.Session.{HasSession, reauth, run_command_refused}
use dropbox_for_ctf.Server.Frame.{IsWithin, SessionsKept, others}
use dropbox_for_ctf.Server.Frame.Requests.{scope_of, serve-IsWithin}
use dropbox_for_ctf.Server.Run.{
  end_state, served, system_moves, database_fails, restarted, Reach, here, after,
}

-- The request is a login with the user's name.
abbrev pub names : Bytes → Request → Bool
names u (in_session v c command) = false
names u (authenticate v p) = str_eq v u
names u (signup v p) = false

find_cookie-others :
    (u v : Bytes) (m : List (Bytes × Cookie))
    → str_eq v u ≡ false
    → find_cookie u (others v m) ≡ find_cookie u m
unfolding find_cookie
find_cookie-others u v [] e = refl
find_cookie-others u v ((k, c) ∷ m) e =
    ground (arith, e, eq_of_str_eq k v, find_cookie-others u v m e)

SessionsKept-find :
    (o : Option Bytes) (u : Bytes) (old new : List (Bytes × Cookie))
    → ((v : Bytes) → o ≡ some v → str_eq v u ≡ false)
    → SessionsKept o old new
    → find_cookie u new ≡ find_cookie u old
SessionsKept-find none u old new differ h = ap (find_cookie u) h
SessionsKept-find (some v) u old new differ h =
    sym (find_cookie-others u v new (differ v refl))
    ∙ ap (find_cookie u) h
    ∙ find_cookie-others u v old (differ v refl)

scope-differs :
    (u : Bytes) (r : Request)
    → names u r ≡ false
    → (v : Bytes) → (scope_of r).sessions ≡ some v
    → str_eq v u ≡ false
scope-differs u (in_session x c (chperm p y n)) e v f = cc f
scope-differs u (in_session x c (share p y n)) e v f = cc f
scope-differs u (in_session x c (unshare p y)) e v f = cc f
scope-differs u (in_session x c (upload p b)) e v f = cc f
scope-differs u (in_session x c (download p)) e v f = cc f
scope-differs u (in_session x c (list p)) e v f = cc f
scope-differs u (in_session x c (mkdir p)) e v f = cc f
scope-differs u (in_session x c (remove_file p)) e v f = cc f
scope-differs u (in_session x c pwd) e v f = cc f
scope-differs u (in_session x c (cd p)) e v f = cc f
scope-differs u (authenticate x p) e v f = ground (arith, e, f)
scope-differs u (signup x p) e v f = cc f

module _ {S : Type 0} (host : Host S) (fuel : ℕ) (u : Bytes) where
  -- Nobody logs in with the user's name in the run.
  abbrev pub IsQuiet : {w v : World S} → Reach host fuel w v → Type 0
  IsQuiet here = Unit
  IsQuiet (after reached (served r)) = IsQuiet reached × (names u r ≡ false)
  IsQuiet (after reached (system_moves s)) = IsQuiet reached
  IsQuiet (after reached (database_fails fs)) = IsQuiet reached
  IsQuiet (after reached restarted) = IsQuiet reached

  -- The user's session in the state is the one of `w`, or none.
  abbrev IsOld : World S → World S → Type 0
  IsOld w v =
      (find_cookie u v.cookiemap ≡ find_cookie u w.cookiemap)
      ⊎ (find_cookie u v.cookiemap ≡ zero_cookie)

  end-cookie :
      {A : Type 0} (r : Request) (w : World S) (o : Outcome (World S) A A)
      → names u r ≡ false
      → After (IsWithin (scope_of r) w) o
      → find_cookie u (end_state host fuel o).cookiemap ≡ find_cookie u w.cookiemap
  end-cookie r w (next a v) e h = SessionsKept-find _ u _ _ (scope-differs u r e) h.sessions
  end-cookie r w (ret a v) e h = SessionsKept-find _ u _ _ (scope-differs u r e) h.sessions
  end-cookie r w (exit v) e h = SessionsKept-find _ u _ _ (scope-differs u r e) h.sessions
  end-cookie r w (hang v) e h = SessionsKept-find _ u _ _ (scope-differs u r e) h.sessions

  Reach-IsOld : (w v : World S) (reached : Reach host fuel w v) → IsQuiet reached → IsOld w v
  unfolding find_cookie
  Reach-IsOld w v here q = inl refl
  Reach-IsOld w _ (after {v} reached (served r)) q =
      let kept = end-cookie r v (serve host fuel r v) q.1 (serve-IsWithin host fuel r v) in
      elim (Reach-IsOld w v reached q.0) [
        | inl same ↦ inl (kept ∙ same)
        | inr gone ↦ inr (kept ∙ gone)
      ]
  Reach-IsOld w v (after reached (system_moves s)) q = Reach-IsOld w _ reached q
  Reach-IsOld w v (after reached (database_fails fs)) q = Reach-IsOld w _ reached q
  Reach-IsOld w v (after reached restarted) q = inr refl

  expired :
      (c : Bytes) (v : World S) → find_cookie u v.cookiemap ≡ zero_cookie → ¬ HasSession host u c v
  expired c v gone h = omega (arith, h.1, ap (λ (k : Cookie). k.expiretime) gone)

  strange :
      (c : Bytes) (w v : World S)
      → find_cookie u v.cookiemap ≡ find_cookie u w.cookiemap
      → (find_cookie u w.cookiemap).sessionid ≢ c
      → ¬ HasSession host u c v
  strange c w v same other h = other (ap (λ (k : Cookie). k.sessionid) (sym same) ∙ h.2)

  -- Who does not know a user's session cannot act as the user: in every run in which nobody logs in with the
  -- user's name, over requests of all kinds, failures and orderly restarts, each command in the user's name
  -- with another cookie than the one that the user held at the start, or with any if the user had none, is
  -- answered by "reauth" or ends the process with the database, and changes nothing.
  pub stranger_refused :
      (w v : World S) (c : Bytes) (command : Command)
      → (find_cookie u w.cookiemap ≡ zero_cookie) ⊎ ((find_cookie u w.cookiemap).sessionid ≢ c)
      → (reached : Reach host fuel w v) → IsQuiet reached
      → Reports v (λ x. x ≡ reauth command) (run_command host fuel u c command v)
  stranger_refused w v c command held reached quiet =
      run_command_refused host v fuel u c command (elim (Reach-IsOld w v reached quiet) [
        | inl same ↦ (elim held [
          | inl no_session ↦ expired c v (same ∙ no_session)
          | inr other ↦ strange c w v same other
        ])
        | inr gone ↦ expired c v gone
      ])

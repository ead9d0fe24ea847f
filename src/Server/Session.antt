-- ===== src/Server/Session.antt =====
-- Sessions: checkCookie, and the commands that begin with it.
use dropbox_for_ctf.Base.{
  ℕ, ◌<◌, ◌≡◌, refl, ap, ◌↔◌, Bool, true, false, not, ◌&&◌, List, [], arith, ltb, count_by,
}
use dropbox_for_ctf.Text.{Bytes, lit, str_eq}
use dropbox_for_ctf.Text.Laws.{str_eq_iff}
use dropbox_for_ctf.Go.{ret, Body, Func, ◌>>=◌, ◌>>◌, pure, return_if, call, gets}
use dropbox_for_ctf.Store.{Host, World, UserRow, find_cookie, count, quiet}
use dropbox_for_ctf.Store.Reports.{Reports, Reports-count, Reports-call}
use dropbox_for_ctf.Server.Account.{check_user, check_cookie}
use dropbox_for_ctf.Server.Files.{upload_handler, download_handler}
use dropbox_for_ctf.Server.Sharing.{chperm_handler, share_handler, unshare_handler}
use dropbox_for_ctf.Server.Handlers.{
  list_handler, mkdir_handler, remove_handler, pwd_handler, cd_handler, Command, chperm, share,
  unshare, upload, download, list, mkdir, remove_file, pwd, cd, Reply, message, contents, listing,
  directory, run_command,
}

-- The user is in the database, and the stored session is the one shown and has not expired.
abbrev pub HasSession : {S : Type 0} → Host S → Bytes → Bytes → World S → Type 0
HasSession host u c w =
    (count_by (λ (r : UserRow). str_eq r.username u) w.users ≡ 1)
    × (host.now w.os < (find_cookie u w.cookiemap).expiretime)
    × ((find_cookie u w.cookiemap).sessionid ≡ c)

-- The reply to a command outside a session.
abbrev pub reauth : Command → Reply
reauth (download p) = contents (record { body = []; err_text = lit "reauth" })
reauth (list p) = listing (record { entries = []; err_text = lit "reauth" })
reauth pwd = directory (record { path = []; err_text = lit "reauth" })
reauth (chperm p v n) = message (lit "reauth")
reauth (share p v n) = message (lit "reauth")
reauth (unshare p v) = message (lit "reauth")
reauth (upload p b) = message (lit "reauth")
reauth (mkdir p) = message (lit "reauth")
reauth (remove_file p) = message (lit "reauth")
reauth (cd p) = message (lit "reauth")

module _ {S : Type 0} (host : Host S) (w : World S) where
  check_user-Reports :
      (u : Bytes)
      → Reports w
          (λ b. (b ≡ true) ↔ (count_by (λ (r : UserRow). str_eq r.username u) w.users ≡ 1))
          (check_user host u w)
  unfolding check_user
  check_user-Reports u = Reports-count w _ _ _ λ fs. unfold pure in (ground arith, (fs, refl))

  -- the comparison of the stored cookie
  abbrev fits : Bytes → Bytes → Bool
  fits u c =
      let cookie = find_cookie u w.cookiemap in
      ltb (host.now w.os) cookie.expiretime && str_eq cookie.sessionid c

  answer :
      (u c : Bytes) (fs : List Bool) (t : Bool)
      → t ≡ fits u c
      → count_by (λ (r : UserRow). str_eq r.username u) w.users ≡ 1
      → Reports {A = Bool} w
          (λ b. (b ≡ true) ↔ HasSession host u c w)
          ((return_if t true >> pure false) (record w { faults = fs }))
  unfolding ◌>>=◌
  answer u c fs true e one =
      (ground (arith, str_eq_iff (find_cookie u w.cookiemap).sessionid c), (fs, refl))
  answer u c fs false e one =
      (ground (arith, str_eq_iff (find_cookie u w.cookiemap).sessionid c), (fs, refl))

  decide_session :
      (u c : Bytes) (fs : List Bool) (known : Bool)
      → (known ≡ true) ↔ (count_by (λ (r : UserRow). str_eq r.username u) w.users ≡ 1)
      → Reports {A = Bool} w
          (λ b. (b ≡ true) ↔ HasSession host u c w)
          ((do
            return_if (not known) false
            cookie ← gets (λ w. find_cookie u w.cookiemap)
            now ← gets (λ w. host.now w.os)
            return_if (ltb now cookie.expiretime && str_eq cookie.sessionid c) true
            pure false)
            (record w { faults = fs }))
  unfolding ◌>>=◌
  decide_session u c fs true tells = answer u c fs (fits u c) refl (tells.0 refl)
  decide_session u c fs false tells = ((λ h. cc h, λ h. tells.1 h.0), (fs, refl))

  -- `checkCookie` tells true exactly for the session that the user holds, or the database fails and the
  -- process ends. It changes nothing.
  pub check_cookie-Reports :
      (u c : Bytes) → Reports w (λ b. (b ≡ true) ↔ HasSession host u c w) (check_cookie host u c w)
  unfolding check_cookie
  check_cookie-Reports u c =
      Reports-call w _ _ _ _ (check_user-Reports u)
        λ known fs tells. decide_session u c fs known tells

  -- A function that begins with the test of the session returns at once where there is none.
  refused :
      {R : Type 0} (u c : Bytes) (r : R) (k : Body (World S) R R)
      → ¬ HasSession host u c w
      → Reports w
          (λ x. x ≡ r)
          ((call (check_cookie host u c) >>= λ valid. return_if (not valid) r >> k) w)
  refused u c r k none =
      Reports-call w _ _ _ _ (check_cookie-Reports u c) λ valid fs tells. stop valid fs tells
    where
      stop :
          (valid : Bool) (fs : List Bool)
          → (valid ≡ true) ↔ HasSession host u c w
          → Reports w (λ x. x ≡ r) ((return_if (not valid) r >> k) (record w { faults = fs }))
      stop true fs tells = absurd (none (tells.0 refl))
      stop false fs tells = unfold ◌>>=◌ in (refl, (fs, refl))

  pub wrapped :
      {A : Type 0} (m : Func (World S) A) (wrap : A → Reply) (a : A)
      → Reports w (λ x. x ≡ a) (m w)
      → Reports w (λ x. x ≡ wrap a) ((call m >>= λ r. pure (wrap r)) w)
  wrapped m wrap a h = Reports-call w _ _ _ _ h λ r fs e. unfold pure in (ap wrap e, (fs, refl))

  -- Without a session a command is refused with "reauth", whichever it is, or the database fails and
  -- the process ends. Nothing changes.
  pub run_command_refused :
      (fuel : ℕ) (u c : Bytes) (command : Command)
      → ¬ HasSession host u c w
      → Reports w (λ x. x ≡ reauth command) (run_command host fuel u c command w)
  unfolding run_command chperm_handler share_handler unshare_handler upload_handler download_handler
      list_handler mkdir_handler remove_handler pwd_handler cd_handler
  run_command_refused fuel u c (chperm p v n) h = wrapped _ message _ (refused u c _ _ h)
  run_command_refused fuel u c (share p v n) h = wrapped _ message _ (refused u c _ _ h)
  run_command_refused fuel u c (unshare p v) h = wrapped _ message _ (refused u c _ _ h)
  run_command_refused fuel u c (upload p b) h = wrapped _ message _ (refused u c _ _ h)
  run_command_refused fuel u c (download p) h = wrapped _ contents _ (refused u c _ _ h)
  run_command_refused fuel u c (list p) h = wrapped _ listing _ (refused u c _ _ h)
  run_command_refused fuel u c (mkdir p) h = wrapped _ message _ (refused u c _ _ h)
  run_command_refused fuel u c (remove_file p) h = wrapped _ message _ (refused u c _ _ h)
  run_command_refused fuel u c pwd h = wrapped _ directory _ (refused u c _ _ h)
  run_command_refused fuel u c (cd p) h = wrapped _ message _ (refused u c _ _ h)

  -- With a database that does not fail, `checkCookie` accepts the user's session.
  pub check_cookie-accepts :
      (u c : Bytes) → HasSession host u c w → check_cookie host u c (quiet w) ≡ ret true (quiet w)
  unfolding check_cookie check_user ◌>>=◌ count
  check_cookie-accepts u c h =
      ground (arith, h.0, h.1, (str_eq_iff (find_cookie u w.cookiemap).sessionid c).1 h.2)

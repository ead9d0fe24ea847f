-- ===== src/Server/Frame/Requests.antt =====
-- What each of the twelve methods may change of the state.
use dropbox_for_ctf.Base.{ℕ, ◌≡◌, refl, true, some}
use dropbox_for_ctf.FilePath.{ok, err}
use dropbox_for_ctf.Text.{Bytes}
use dropbox_for_ctf.Go.{Body, ◌>>=◌, call, pure}
use dropbox_for_ctf.Go.Keeps.{After, Keeps, Keeps-bind, Keeps-modify, Keeps-call, Keeps-pure}
use dropbox_for_ctf.Go.Triple.{Triple-After, Triple-bind, Triple-call, Triple-pure}
use dropbox_for_ctf.Store.{Host, World}
use dropbox_for_ctf.Server.Account.{random_bytes, authenticate_handler, must_mkdir, signup_handler}
use dropbox_for_ctf.Server.Files.{upload_handler}
use dropbox_for_ctf.Server.Handlers.{
  list_handler, mkdir_handler, pwd_handler, cd_handler, chperm, share, unshare, upload, download,
  list, mkdir, remove_file, pwd, cd, Request, in_session, authenticate, signup, message,
  run_command, serve,
}
use dropbox_for_ctf.Server.Frame.{
  Scope, nothing, IsWithin, IsWithin-refl, within_rules, IsWithin-inner,
}
use dropbox_for_ctf.Server.Frame.Files.{
  check_cookie-IsWithin, abs_or-IsWithin, download_handler-IsWithin, uploading,
  upload_handler-Triple, storing,
}
use dropbox_for_ctf.Server.Frame.Shares.{
  chperm_handler-IsWithin, share_handler-IsWithin, unshare_handler-IsWithin,
  remove_handler-IsWithin,
}

module _ {S : Type 0} (host : Host S) (scope : Scope) (w : World S) where
  list_handler-IsWithin : (p u c : Bytes) → Keeps (IsWithin scope w) (list_handler host p u c)
  unfolding list_handler
  list_handler-IsWithin p u c = search (within_rules, check_cookie-IsWithin) depth 20

  mkdir_handler-IsWithin : (p u c : Bytes) → Keeps (IsWithin scope w) (mkdir_handler host p u c)
  unfolding mkdir_handler
  mkdir_handler-IsWithin p u c = search (within_rules, check_cookie-IsWithin) depth 20

  pwd_handler-IsWithin : (u c : Bytes) → Keeps (IsWithin scope w) (pwd_handler host u c)
  unfolding pwd_handler
  pwd_handler-IsWithin u c = search (within_rules, check_cookie-IsWithin) depth 20

  cd_handler-IsWithin : (p u c : Bytes) → Keeps (IsWithin scope w) (cd_handler host p u c)
  unfolding cd_handler
  cd_handler-IsWithin p u c = search (within_rules, check_cookie-IsWithin, abs_or-IsWithin) depth 30

  random-IsWithin : {R : Type 0} → Keeps {R = R} (IsWithin scope w) (random_bytes host)
  unfolding random_bytes
  random-IsWithin = record { at = λ v h. (IsWithin-inner scope w).os v _ h }

  authenticate_handler-IsWithin :
      (u p : Bytes)
      → scope.sessions ≡ some u
      → Keeps (IsWithin scope w) (authenticate_handler host u p)
  unfolding authenticate_handler
  authenticate_handler-IsWithin u p mine =
      search (within_rules, random-IsWithin, Keeps-modify) depth 20

  must_mkdir-IsWithin :
      {R : Type 0} (p : Bytes) → Keeps {R = R} (IsWithin scope w) (must_mkdir host p)
  unfolding must_mkdir
  must_mkdir-IsWithin p =
      Keeps-bind _ _ (search within_rules)
        (elim [ ok _ ↦ search within_rules | err _ ↦ search within_rules ])

  signup_handler-IsWithin :
      (u p : Bytes) → scope.users ≡ true → Keeps (IsWithin scope w) (signup_handler host u p)
  unfolding signup_handler
  signup_handler-IsWithin u p free = search (within_rules, must_mkdir-IsWithin) depth 20

-- An upload may write stored files and count one; a removal may write stored files, and the rows
-- of the user's shares, as the methods of sharing may; a login may write the user's session, and
-- a signup adds rows of users.
abbrev pub scope_of : Request → Scope
scope_of (in_session u c (chperm p v n)) = record nothing { shares = some u }
scope_of (in_session u c (share p v n)) = record nothing { shares = some u }
scope_of (in_session u c (unshare p v)) = record nothing { shares = some u }
scope_of (in_session u c (upload p b)) = uploading
scope_of (in_session u c (download p)) = nothing
scope_of (in_session u c (list p)) = nothing
scope_of (in_session u c (mkdir p)) = nothing
scope_of (in_session u c (remove_file p)) = record nothing { files = true; shares = some u }
scope_of (in_session u c pwd) = nothing
scope_of (in_session u c (cd p)) = nothing
scope_of (authenticate u p) = record nothing { sessions = some u }
scope_of (signup u p) = record nothing { users = true }

module _ {S : Type 0} (host : Host S) (fuel : ℕ) where
  within :
      {A B : Type 0} (scope : Scope) (w : World S) (m : Body (World S) A A) (f : A → B)
      → Keeps (IsWithin scope w) m
      → After {R = B} (IsWithin scope w) ((call m >>= λ a. pure (f a)) w)
  within scope w m f keeps =
      (Keeps-bind (call m) _ (Keeps-call m keeps) (λ a. Keeps-pure (f a))).at w
        (IsWithin-refl scope w)

  -- However a request ends, it changes of the tables, the sessions and the counter no more than this: chperm,
  -- share, unshare and remove change rows of shares in which the user is the sharer or the sharee; upload and
  -- remove change stored files, and an upload adds one at most to the counter; a login changes the session of
  -- its user; a signup adds rows of users.
  pub serve-IsWithin :
      (r : Request) (w : World S) → After (IsWithin (scope_of r) w) (serve host fuel r w)
  unfolding serve run_command
  serve-IsWithin (in_session u c (chperm p v n)) w =
      within _ w _ _ (chperm_handler-IsWithin host _ w u refl p v n c)
  serve-IsWithin (in_session u c (share p v n)) w =
      within _ w _ _ (share_handler-IsWithin host _ w u refl fuel p v n c)
  serve-IsWithin (in_session u c (unshare p v)) w =
      within _ w _ _ (unshare_handler-IsWithin host _ w u refl p v c)
  serve-IsWithin (in_session u c (upload p b)) w =
      Triple-After (call (upload_handler host p u b c) >>= λ a. pure (message a)) w
        (Triple-bind _ _ (Triple-call _ (upload_handler-Triple host w p u b c))
          λ a. Triple-pure (message a) (λ v h. h))
        (IsWithin-refl storing w)
  serve-IsWithin (in_session u c (download p)) w =
      within _ w _ _ (download_handler-IsWithin host _ w p u c)
  serve-IsWithin (in_session u c (list p)) w = within _ w _ _ (list_handler-IsWithin host _ w p u c)
  serve-IsWithin (in_session u c (mkdir p)) w =
      within _ w _ _ (mkdir_handler-IsWithin host _ w p u c)
  serve-IsWithin (in_session u c (remove_file p)) w =
      within _ w _ _ (remove_handler-IsWithin host _ w u refl refl p c)
  serve-IsWithin (in_session u c pwd) w = within _ w _ _ (pwd_handler-IsWithin host _ w u c)
  serve-IsWithin (in_session u c (cd p)) w = within _ w _ _ (cd_handler-IsWithin host _ w p u c)
  serve-IsWithin (authenticate u p) w =
      within _ w _ _ (authenticate_handler-IsWithin host _ w u p refl)
  serve-IsWithin (signup u p) w = within _ w _ _ (signup_handler-IsWithin host _ w u p refl)

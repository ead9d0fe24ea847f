-- ===== src/Server/Account.antt =====
-- Users and sessions: checkUser, checkCookie, authenticateHandler, signupHandler, checkpath.
use dropbox_for_ctf.Base.{
  ℕ, ◌+◌, ◌*◌, Bool, true, false, not, ◌&&◌, [], ◌∷◌, ◌++◌, ltb, ◌==◌, count_by,
}
use dropbox_for_ctf.Text.{Bytes, lit, length, str_eq, has_prefix, contains_slash}
use dropbox_for_ctf.FilePath.{Result, ok, err, clean, abs}
use dropbox_for_ctf.Go.{
  Body, Func, next, ◌>>=◌, ◌>>◌, pure, exit_process, gets, modify, return_if, call,
}
use dropbox_for_ctf.Store.{Host, World, find_cookie, put_cookie, execute, system, count}

-- What the client gets from a login.
pub record AuthReturn : Type 0 where
  pub auth : Bool
  pub session : Bytes

-- `time.Second * 1000`, in nanoseconds
abbrev pub session_length : ℕ
session_length = 1000 * 1000000000

-- The path that `filepath.Abs` gives, empty after an error.
abbrev abs_or_empty : Result Bytes → Bytes
abs_or_empty (ok p) = p
abs_or_empty (err e) = []

-- "./userfs/" + username, the user's root
abbrev pub user_root : Bytes → Bytes
user_root username = lit "./userfs/" ++ username

module _ {S : Type 0} (host : Host S) where
  -- `filepath.Abs` in the process's directory
  unfoldable pub abspath : Bytes → S → Result Bytes
  abspath path s = abs (host.getwd s) path

  -- `checkpath`: its messages about a failing `Abs` go to stderr only.
  unfoldable pub check_path : Bytes → Bytes → S → Bool
  unfolding abspath
  check_path path username s =
      has_prefix (abs_or_empty (abspath (clean path) s))
        (abs_or_empty (abspath (clean (user_root username)) s))

  unfoldable pub check_user : Bytes → Func (World S) Bool
  check_user username = do
    found ← count (λ w. count_by (λ r. str_eq r.username username) w.users)
    pure (found == 1)

  unfoldable pub check_cookie : Bytes → Bytes → Func (World S) Bool
  unfolding check_user
  check_cookie username session = do
    known ← call (check_user username)
    return_if (not known) false
    cookie ← gets (λ w. find_cookie username w.cookiemap)
    now ← gets (λ w. host.now w.os)
    return_if (ltb now cookie.expiretime && str_eq cookie.sessionid session) true
    pure false

  unfoldable pub random_bytes : {R : Type 0} → Body (World S) R Bytes
  random_bytes w = let (rb, s) = host.random w.os in next rb (record w { os = s })

  unfoldable pub authenticate_handler : Bytes → Bytes → Func (World S) AuthReturn
  unfolding random_bytes
  authenticate_handler username password = do
    let hash = host.digest password
    found ←
        count (λ w. count_by (λ r. str_eq r.username username && str_eq r.passhash hash) w.users)
    return_if (not (found == 1)) (record { auth = false; session = [] })
    rb ← random_bytes
    let newsession = host.encode rb
    now ← gets (λ w. host.now w.os)
    modify λ w. record w {
      cookiemap =
          put_cookie username (record { sessionid = newsession; expiretime = now + session_length })
            w.cookiemap;
    }
    pure (record { auth = true; session = newsession })

  -- A directory that has to be made, or the process ends.
  unfoldable pub must_mkdir : {R : Type 0} → Bytes → Body (World S) R (Unit {0})
  must_mkdir path = do
    made ← system (host.mkdir path)
    elim made [ ok _ ↦ pure tt | err _ ↦ exit_process ]

  unfoldable pub signup_handler : Bytes → Bytes → Func (World S) Bool
  unfolding must_mkdir
  signup_handler username password = do
    found ← count (λ w. count_by (λ r. str_eq r.username username) w.users)
    return_if (found == 1) false
    return_if (ltb (length username) 5 && ltb 16 (length username)) false
    return_if (ltb (length password) 6) false
    return_if (contains_slash username) false
    let hash = host.digest password
    execute
        λ w. record w { users = w.users ++ record { username = username; passhash = hash } ∷ [] }
    let path = user_root username
    must_mkdir path
    must_mkdir (path ++ lit "/Shared_with_me")
    pure true

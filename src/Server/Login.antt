-- ===== src/Server/Login.antt =====
-- Logins: the session that `authenticateHandler` opens.
use dropbox_for_ctf.Base.{
  ℕ, ◌+◌, ◌<◌, ◌≤◌, ◌≡◌, ◌≢◌, refl, sym, ◌∙◌, true, false, ◌&&◌, List, [], ◌∷◌, arith, count_by,
  if◌then◌else◌, Bool-cases, inl, inr,
}
use dropbox_for_ctf.Text.{Bytes, str_eq}
use dropbox_for_ctf.Text.Laws.{eq_of_str_eq, str_eq_refl, str_eq_iff}
use dropbox_for_ctf.Go.{next, ret, ◌>>=◌}
use dropbox_for_ctf.Store.{Host, World, UserRow, Cookie, find_cookie, put_cookie, count, quiet}
use dropbox_for_ctf.Server.Account.{authenticate_handler, session_length}
use dropbox_for_ctf.Server.Invariant.Users.{IsUsers, IsUsers-count-le}
use dropbox_for_ctf.Server.Session.{HasSession}

find_cookie-put_cookie :
    (v u : Bytes) (c : Cookie) (m : List (Bytes × Cookie))
    → find_cookie v (put_cookie u c m) ≡ (if str_eq u v then c else find_cookie v m)
unfolding find_cookie put_cookie
find_cookie-put_cookie v u c [] = refl
find_cookie-put_cookie v u c ((k, d) ∷ m) =
    ground (arith, str_eq_iff k u, str_eq_iff k v, str_eq_iff u v, find_cookie-put_cookie v u c m)

-- `username=? AND passhash=?`
abbrev pub credentials : {S : Type 0} → Host S → Bytes → Bytes → World S → ℕ
credentials host u p w =
    count_by (λ (r : UserRow). str_eq r.username u && str_eq r.passhash (host.digest p)) w.users

pub credentials-le :
    (u h : Bytes) (us : List UserRow)
    → count_by (λ (r : UserRow). str_eq r.username u && str_eq r.passhash h) us
      ≤ count_by (λ (r : UserRow). str_eq r.username u) us
credentials-le u h [] = omega arith
credentials-le u h (r ∷ us) = ground (arith, credentials-le u h us)

module _ {S : Type 0} (host : Host S) (u p : Bytes) (w : World S) where
  abbrev pub new_session : Bytes
  new_session = host.encode (host.random w.os).0

  abbrev pub after_login : World S
  after_login = record w {
    os = (host.random w.os).1;
    cookiemap =
        put_cookie u
          (record {
            sessionid = new_session;
            expiretime = host.now (host.random w.os).1 + session_length;
          })
          w.cookiemap;
    faults = [];
  }

  pub authenticate-accepted :
      credentials host u p w ≡ 1
      → authenticate_handler host u p (quiet w)
        ≡ next (record { auth = true; session = new_session }) after_login
  unfolding authenticate_handler ◌>>=◌ count
  authenticate-accepted known = rw known

  -- A login whose name and password do not match exactly one row is told so, and nothing changes.
  pub authenticate_refuses :
      credentials host u p w ≢ 1
      → authenticate_handler host u p (quiet w)
        ≡ ret (record { auth = false; session = [] }) (quiet w)
  unfolding authenticate_handler ◌>>=◌ count
  authenticate_refuses unknown = ground arith

  user_once :
      IsUsers w.users
      → credentials host u p w ≡ 1
      → count_by (λ (r : UserRow). str_eq r.username u) w.users ≡ 1
  user_once valid known =
      omega
        (arith, known, credentials-le u (host.digest p) w.users, IsUsers-count-le u w.users valid)

  -- In a database of distinct names, a login with the right password succeeds, with the encoded
  -- random bytes as its session. The session holds until 1000 seconds later, whatever happens to the
  -- file system, no other session of the user holds, and the other users keep theirs.
  pub authenticate_opens :
      IsUsers w.users
      → credentials host u p w ≡ 1
      → (authenticate_handler host u p (quiet w)
          ≡ next (record { auth = true; session = new_session }) after_login)
        × ((s : S)
            → host.now s < host.now (host.random w.os).1 + session_length
            → HasSession host u new_session (record after_login { os = s }))
        × ((s : S) (c : Bytes)
            → c ≢ new_session
            → ¬ HasSession host u c (record after_login { os = s }))
        × ((v : Bytes) → v ≢ u → find_cookie v after_login.cookiemap ≡ find_cookie v w.cookiemap)
  authenticate_opens valid known = (
    authenticate-accepted known,
    (λ s early. (user_once valid known, rw own (early), rw own)),
    (λ s c other h. other (sym h.2 ∙ rw own)),
    (λ v other. find_cookie-put_cookie v u _ w.cookiemap ∙ rw (differs v other)),
  )
    where
      own : find_cookie u after_login.cookiemap ≡ record {
        sessionid = new_session;
        expiretime = host.now (host.random w.os).1 + session_length;
      }
      own = find_cookie-put_cookie u u _ w.cookiemap ∙ rw (str_eq_refl u)

      differs : (v : Bytes) → v ≢ u → str_eq u v ≡ false
      differs v other = elim (Bool-cases (str_eq u v)) [
        | inl same ↦ absurd (other (sym (eq_of_str_eq u v same)))
        | inr different ↦ different
      ]

-- ===== src/Server/Enrol.antt =====
-- A new user's first login: signupHandler, then authenticateHandler.
use dropbox_for_ctf.Base.{◌≡◌, ◌≢◌, inl, true, false, [], ◌∷◌, ◌++◌, ◌&&◌, arith, count_by}
use dropbox_for_ctf.Base.{count_by-append}
use dropbox_for_ctf.Text.{Bytes, lit, str_eq}
use dropbox_for_ctf.Text.Laws.{str_eq_refl, eq_of_str_eq}
use dropbox_for_ctf.FilePath.{ok}
use dropbox_for_ctf.Go.{next, ret}
use dropbox_for_ctf.Store.{Host, World, UserRow, quiet}
use dropbox_for_ctf.Server.Account.{user_root, authenticate_handler, signup_handler}
use dropbox_for_ctf.Server.Invariant.Users.{IsUsers, IsUsers-count-le}
use dropbox_for_ctf.Server.Login.{
  credentials, credentials-le, new_session, after_login, authenticate-accepted,
  authenticate_refuses,
}
use dropbox_for_ctf.Server.Signup.{IsAcceptable, signed_up_at, signup_creates, signup_refuses}

module _ {S : Type 0} (host : Host S) (u p : Bytes) (w : World S) (users : IsUsers w.users)
    (asked : IsAcceptable host u p w) where
  absent : count_by (λ (r : UserRow). str_eq r.username u) w.users ≡ 0
  absent = ground (arith, IsUsers-count-le u w.users users, asked.fresh)

  -- The row that the signup adds.
  row : UserRow
  row = record { username = u; passhash = host.digest p }

  named_once :
      (t : S)
      → count_by (λ (r : UserRow). str_eq r.username u) (signed_up_at host u p w t).users ≡ 1
  unfolding row
  named_once t = ground (
    arith,
    count_by-append (λ (r : UserRow). str_eq r.username u) w.users (row ∷ []),
    absent,
    str_eq_refl u,
  )

  unseen : (q : Bytes) → credentials host u q w ≡ 0
  unseen q = omega (arith, absent, credentials-le u (host.digest q) w.users)

  known : (t : S) → credentials host u p (signed_up_at host u p w t) ≡ 1
  unfolding row
  known t = ground (
    arith,
    count_by-append (λ (r : UserRow). str_eq r.username u && str_eq r.passhash (host.digest p))
        w.users (row ∷ []),
    unseen p,
    str_eq_refl u,
    str_eq_refl (host.digest p),
  )

  unknown :
      (q : Bytes) (t : S)
      → host.digest q ≢ host.digest p
      → credentials host u q (signed_up_at host u p w t) ≢ 1
  unfolding row
  unknown q t differs = ground (
    arith,
    count_by-append (λ (r : UserRow). str_eq r.username u && str_eq r.passhash (host.digest q))
        w.users (row ∷ []),
    unseen q,
    eq_of_str_eq (host.digest p) (host.digest q),
    differs,
  )

  -- A user who has signed up can log in with the same password, whatever has become of the file system in
  -- the meantime, and gets a session. A password of another digest does not log the user in, and the name
  -- cannot be signed up again, with any password.
  pub authenticate-signup :
      (q other : Bytes) {s t : S} (later : S)
      → host.mkdir (user_root u) w.os ≡ (ok tt, s)
      → host.mkdir (user_root u ++ lit "/Shared_with_me") s ≡ (ok tt, t)
      → host.digest q ≢ host.digest p
      → let v : World S = record (signed_up_at host u p w t) { os = later } in
        (signup_handler host u p (quiet w) ≡ next true (signed_up_at host u p w t))
        × (authenticate_handler host u p v
            ≡ next
                (record { auth = true; session = new_session host u p v })
                (after_login host u p v))
        × (authenticate_handler host u q v ≡ ret (record { auth = false; session = [] }) v)
        × (signup_handler host u other v ≡ ret false v)
  authenticate-signup q other {s} {t} later e f differs =
      let v : World S = record (signed_up_at host u p w t) { os = later } in
      (
        signup_creates host u p w asked e f,
        authenticate-accepted host u p v (known later),
        authenticate_refuses host u q v (unknown q later differs),
        signup_refuses host u other v (inl (named_once later)),
      )

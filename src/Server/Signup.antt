-- ===== src/Server/Signup.antt =====
-- `signupHandler` on each of its branches.
use dropbox_for_ctf.Base.{
  ℕ, ◌<◌, ◌≤◌, ◌≡◌, ◌≢◌, ◌⊎◌, inl, inr, true, false, [], ◌∷◌, ◌++◌, arith, count_by,
}
use dropbox_for_ctf.Text.{Bytes, lit, length, str_eq, contains_slash}
use dropbox_for_ctf.FilePath.{ok, err}
use dropbox_for_ctf.Go.{next, ret, exit, ◌>>=◌}
use dropbox_for_ctf.Store.{Host, World, UserRow, count, execute, system, quiet}
use dropbox_for_ctf.Server.Account.{user_root, signup_handler}

module _ {S : Type 0} (host : Host S) (u p : Bytes) (w : World S) where
  -- how many users have the name
  abbrev pub namesakes : ℕ
  namesakes = count_by (λ (r : UserRow). str_eq r.username u) w.users

  -- What `signupHandler` asks of its arguments; the length of the name is not among it.
  pub record IsAcceptable : Type 0 where
    pub fresh : namesakes ≢ 1
    pub long : 6 ≤ length p
    pub plain : contains_slash u ≡ false

  -- The state with the new row, and the operating system in the state `s`.
  abbrev pub signed_up_at : S → World S
  signed_up_at s = record w {
    os = s;
    users = w.users ++ record { username = u; passhash = host.digest p } ∷ [];
    faults = [];
  }

  -- A name that is free and has no slash is signed up with a password of six letters or more, however
  -- short or long the name is: the table has one row more, and the user's two directories are made.
  pub signup_creates :
      {s t : S}
      → IsAcceptable
      → host.mkdir (user_root u) w.os ≡ (ok tt, s)
      → host.mkdir (user_root u ++ lit "/Shared_with_me") s ≡ (ok tt, t)
      → signup_handler host u p (quiet w) ≡ next true (signed_up_at t)
  unfolding signup_handler ◌>>=◌ count execute system
  signup_creates a e f = ground (arith, a.fresh, a.long, a.plain)

  -- A directory that cannot be made ends the process, with the new row already in the table.
  pub signup_strands :
      {s : S} {e : Bytes}
      → IsAcceptable
      → host.mkdir (user_root u) w.os ≡ (err e, s)
      → signup_handler host u p (quiet w) ≡ exit (signed_up_at s)
  unfolding signup_handler ◌>>=◌ count execute system
  signup_strands a f = ground (arith, a.fresh, a.long, a.plain)

  -- A taken name, a short password and a slash in the name are refused, and nothing changes.
  pub signup_refuses :
      (namesakes ≡ 1) ⊎ ((length p < 6) ⊎ (contains_slash u ≡ true))
      → signup_handler host u p (quiet w) ≡ ret false (quiet w)
  unfolding signup_handler ◌>>=◌ count
  signup_refuses (inl taken) = ground arith
  signup_refuses (inr (inl short)) = ground arith
  signup_refuses (inr (inr slashed)) = ground arith

-- ===== src/Server/Invariant/Accounts.antt =====
-- The invariant in authenticateHandler and signupHandler.
use dropbox_for_ctf.Base.{ℕ, ◌≡◌, false, [], ◌∷◌, ◌++◌, arith, ◌==◌, count_by}
use dropbox_for_ctf.FilePath.{ok, err}
use dropbox_for_ctf.Text.{Bytes, str_eq, contains_slash}
use dropbox_for_ctf.Go.Keeps.{Keeps, Keeps-bind, Keeps-modify}
use dropbox_for_ctf.Go.Triple.{
  Keeps-Triple, Triple-Keeps, Triple-bind, Triple-return_if, Triple-weaken,
}
use dropbox_for_ctf.Store.{Host, World, UserRow}
use dropbox_for_ctf.Store.Rules.{IsInner, IsCalm}
use dropbox_for_ctf.Store.Triples.{Triple-count, Triple-execute}
use dropbox_for_ctf.Server.Account.{random_bytes, authenticate_handler, must_mkdir, signup_handler}
use dropbox_for_ctf.Server.Invariant.Users.{IsUsers-append, IsUsers-count-le}
use dropbox_for_ctf.Server.Invariant.Sound.{IsSound, IsSound-inner, IsSound-calm, sound_rules}

-- A sound state without the user, whose name has no slash.
record IsFree {S : Type 0} (username : Bytes) (w : World S) : Type 0 where
  sound : IsSound w
  absent : count_by (λ (r : UserRow). str_eq r.username username) w.users ≡ 0
  plain : contains_slash username ≡ false

module _ {S : Type 0} where
  IsFree-inner : (u : Bytes) → IsInner {S = S} (IsFree u)
  IsFree-inner u = record {
    os = λ w s h. record {
      sound = IsSound-inner.os w s h.sound;
      absent = h.absent;
      plain = h.plain;
    };
  }

  IsFree-calm : (u : Bytes) → IsCalm {S = S} (IsFree u)
  IsFree-calm u = record {
    faults = λ w fs h. record {
      sound = IsSound-calm.faults w fs h.sound;
      absent = h.absent;
      plain = h.plain;
    };
  }

  insert_user-IsSound :
      (u p : Bytes) (w : World S)
      → IsFree u w
      → IsSound (record w { users = w.users ++ record { username = u; passhash = p } ∷ [] })
  insert_user-IsSound u p w h = record {
    users = IsUsers-append w.users u p h.sound.users h.absent h.plain;
    files = h.sound.files;
    shares = h.sound.shares;
  }

module _ {S : Type 0} (host : Host S) where
  random-IsSound : {R : Type 0} → Keeps {W = World S} {R = R} IsSound (random_bytes host)
  unfolding random_bytes
  random-IsSound = record { at = λ w h. IsSound-inner.os w _ h }

  pub authenticate_handler-IsSound :
      (u p : Bytes) → Keeps {W = World S} IsSound (authenticate_handler host u p)
  unfolding authenticate_handler
  authenticate_handler-IsSound u p = search (sound_rules, random-IsSound, Keeps-modify) depth 20

  must_mkdir-IsSound :
      {R : Type 0} (p : Bytes) → Keeps {W = World S} {R = R} IsSound (must_mkdir host p)
  unfolding must_mkdir
  must_mkdir-IsSound p =
      Keeps-bind _ _ (search sound_rules)
        (elim [ ok _ ↦ search sound_rules | err _ ↦ search sound_rules ])

  -- `signupHandler` from its count on: the name is new where it gets to the insertion.
  pub signup_handler-IsSound : (u p : Bytes) → Keeps {W = World S} IsSound (signup_handler host u p)
  unfolding signup_handler
  signup_handler-IsSound u p = Keeps-Triple _ (
      Triple-bind _ _ (Triple-count _ IsSound-calm (λ w h. h)) λ n.
        Triple-bind _ _ (Triple-return_if (n == 1) _ (λ w h. h.0)) λ _.
          Triple-bind _ _ (Triple-return_if _ _ (λ w h. h.0.0)) λ _.
            Triple-bind _ _ (Triple-return_if _ _ (λ w h. h.0.0.0)) λ _.
              Triple-bind _ _ (Triple-return_if (contains_slash u) _ (λ w h. h.0.0.0.0)) λ _.
                Triple-weaken _ (λ w h. free w n h.0.0.0.0.0 h.0.0.0.0.1 h.0.0.0.1 h.1)
                  (Triple-bind {M = λ _. IsSound} _ _
                    (Triple-execute _ (IsFree-calm u) (λ w h. h.sound) (insert_user-IsSound u _))
                    λ _.
                      Triple-Keeps _ (λ w h. h) (search (sound_rules, must_mkdir-IsSound) depth 8)))
    where
      free :
          (w : World S) (n : ℕ)
          → IsSound w
          → count_by (λ (r : UserRow). str_eq r.username u) w.users ≡ n
          → (n == 1) ≡ false
          → contains_slash u ≡ false
          → IsFree u w
      free w n h e other plain = record {
        sound = h;
        absent = ground (arith, IsUsers-count-le u w.users h.users);
        plain = plain;
      }

-- ===== src/Server/Invariant/Grants.antt =====
-- The invariant in chpermHandler, shareHandler and unshareHandler.
use dropbox_for_ctf.Base.{
  ℕ, zero, suc, ◌≤◌, ◌≡◌, Bool, false, not, [], ◌∷◌, ◌++◌, arith, ◌==◌, count_by, update_by,
  Bool-cases, inl, inr,
}
use dropbox_for_ctf.Text.{Bytes, lit, str_eq}
use dropbox_for_ctf.Go.Keeps.{Keeps}
use dropbox_for_ctf.Go.Triple.{
  Triple, Keeps-Triple, Triple-Keeps, Triple-bind, Triple-gets, Triple-or_return, Triple-return_if,
  Triple-weaken,
}
use dropbox_for_ctf.Store.{Host, World, ShareRow}
use dropbox_for_ctf.Store.Rules.{IsInner, IsCalm}
use dropbox_for_ctf.Store.Triples.{Triple-count, Triple-execute, Triple-system}
use dropbox_for_ctf.Server.Files.{abs_or}
use dropbox_for_ctf.Server.Sharing.{
  is_share, perm_of, free_name, grant, share_handler, chperm_handler, unshare_handler,
}
use dropbox_for_ctf.Server.Invariant.Shares.{
  IsShares-append, IsShares-set_perm, IsShares-count-le, set_perm,
}
use dropbox_for_ctf.Server.Invariant.Sound.{
  IsSound, IsSound-inner, IsSound-calm, sound_rules, abs_or-IsSound, check_cookie-IsSound,
}

-- A sound state without the share.
record IsOpen {S : Type 0} (u v p : Bytes) (w : World S) : Type 0 where
  sound : IsSound w
  absent : count_by (is_share u v p) w.shares ≡ 0

module _ {S : Type 0} where
  IsOpen-inner : (u v p : Bytes) → IsInner {S = S} (IsOpen u v p)
  IsOpen-inner u v p = record {
    os = λ w s h. record { sound = IsSound-inner.os w s h.sound; absent = h.absent };
  }

  IsOpen-calm : (u v p : Bytes) → IsCalm {S = S} (IsOpen u v p)
  IsOpen-calm u v p = record {
    faults = λ w fs h. record { sound = IsSound-calm.faults w fs h.sound; absent = h.absent };
  }

  insert_share-IsSound :
      (u v p q : Bytes) (n : ℕ)
      → str_eq u v ≡ false
      → n ≤ 1
      → (w : World S) → IsOpen u v p w
      → IsSound (record w {
        shares =
            w.shares
            ++ record { sharer = u; sharee = v; origpath = p; shareepath = q; perm = n } ∷ [];
      })
  insert_share-IsSound u v p q n differ small w h = record {
    users = h.sound.users;
    files = h.sound.files;
    shares = IsShares-append _ w.shares h.sound.shares h.absent differ small;
  }

  set_perm-IsSound :
      (q : ShareRow → Bool) (n : ℕ)
      → n ≤ 1
      → (w : World S) → IsSound w
      → IsSound (record w { shares = update_by q (set_perm n) w.shares })
  set_perm-IsSound q n small w h = record {
    users = h.users;
    files = h.files;
    shares = IsShares-set_perm q n w.shares small h.shares;
  }

perm_of-le : (p : Bytes) → perm_of p ≤ 1
perm_of-le p = elim (Bool-cases (str_eq p (lit "rw"))) [
  | inl rw_given ↦ rw rw_given (omega arith)
  | inr other ↦ rw other (omega arith)
]

module _ {S : Type 0} (host : Host S) where
  pub chperm_handler-IsSound :
      (p v n u c : Bytes) → Keeps {W = World S} IsSound (chperm_handler host p v n u c)
  unfolding chperm_handler
  chperm_handler-IsSound p v n u c =
      search (sound_rules, check_cookie-IsSound, abs_or-IsSound, set_perm-IsSound, perm_of-le) depth
        30

  free_name-Triple :
      {R : Type 0} {P I : World S → Type 0} (d f : Bytes) (fuel i : ℕ)
      → ((w : World S) → P w → I w)
      → Triple {R = R} P (λ _. P) I (free_name host d f fuel i)
  unfolding free_name
  free_name-Triple {R} d f zero i weaken = record { at = weaken }
  free_name-Triple {R} d f (suc fuel) i weaken = record {
    at = λ w h. ground (arith, (free_name-Triple {R = R} d f fuel (suc i) weaken).at w h);
  }

  -- The file is not yet shared with the user where `shareHandler` gets to the insertion.
  grant-IsSound :
      (fuel : ℕ) (u v p : Bytes) (n : ℕ)
      → str_eq u v ≡ false
      → n ≤ 1
      → Keeps {W = World S} IsSound (grant host fuel u v p n)
  unfolding grant abs_or
  grant-IsSound fuel u v p n differ small =
      let inner = IsOpen-inner u v p in
      let calm = IsOpen-calm u v p in
      let weak : (w : World S) → IsOpen u v p w → IsSound w = λ w h. h.sound in
      Keeps-Triple _ (
        Triple-bind _ _ (Triple-count _ IsSound-calm (λ w h. h)) λ k.
          Triple-bind _ _ (Triple-return_if (k == 1) _ (λ w h. h.0)) λ _.
            Triple-weaken _ (λ w h. unshared_yet w k h.0.0 h.0.1 h.1)
              (Triple-bind _ _ (Triple-bind _ _ (Triple-gets _) (λ r. Triple-or_return r _ weak))
                λ dir. Triple-bind _ _ (free_name-Triple dir _ fuel 0 weak) λ filename.
                  Triple-bind _ _ (Triple-gets _) λ filedata.
                    Triple-bind _ _ (Triple-or_return filedata _ weak) λ is_link.
                      Triple-bind _ _ (Triple-return_if (not is_link) _ weak) λ _.
                        Triple-weaken _ (λ w h. h.0)
                          (Triple-bind _ _ (Triple-gets _) λ link.
                            Triple-bind _ _ (Triple-or_return link _ weak) λ newpath.
                              Triple-bind _ _ (Triple-system _ inner) λ linked.
                                Triple-bind _ _ (Triple-or_return linked _ weak) λ _.
                                  Triple-bind {M = λ _. IsSound} _ _
                                    (Triple-execute _ calm weak
                                      (insert_share-IsSound u v p _ n differ small))
                                    λ _. Triple-Keeps _ (λ w h. h) (search sound_rules))))
    where
      unshared_yet :
          (w : World S) (k : ℕ)
          → IsSound w
          → count_by (is_share u v p) w.shares ≡ k
          → (k == 1) ≡ false
          → IsOpen u v p w
      unshared_yet w k h e other = record {
        sound = h;
        absent = ground (arith, IsShares-count-le u v p w.shares h.shares);
      }

  pub share_handler-IsSound :
      (fuel : ℕ) (p v n u c : Bytes)
      → Keeps {W = World S} IsSound (share_handler host fuel p v n u c)
  unfolding share_handler
  share_handler-IsSound fuel p v n u c =
      search (sound_rules, check_cookie-IsSound, abs_or-IsSound, grant-IsSound, perm_of-le) depth 30

  pub unshare_handler-IsSound :
      (p v u c : Bytes) → Keeps {W = World S} IsSound (unshare_handler host p v u c)
  unfolding unshare_handler
  unshare_handler-IsSound p v u c =
      search (sound_rules, check_cookie-IsSound, abs_or-IsSound) depth 30

-- ===== src/Server/Frame/Shares.antt =====
-- What the functions of sharing and of removal requests change.
use dropbox_for_ctf.Base.{
  ℕ, zero, suc, ◌≡◌, refl, Bool, true, some, List, [], ◌∷◌, arith, update_by, ◌&&◌,
}
use dropbox_for_ctf.Text.{Bytes, str_eq}
use dropbox_for_ctf.Text.Laws.{str_eq_refl}
use dropbox_for_ctf.Go.{Body, call}
use dropbox_for_ctf.Go.Keeps.{Keeps, Keeps-bind}
use dropbox_for_ctf.Store.{Host, World, ShareRow}
use dropbox_for_ctf.Server.Files.{remove, SharedAs, as_sharer, as_sharee, unshared}
use dropbox_for_ctf.Server.Sharing.{
  is_share, free_name, grant, share_handler, chperm_handler, unshare_handler,
}
use dropbox_for_ctf.Server.Handlers.{
  unshare_all, remove_as_sharee, remove_as_sharer, remove_handler,
}
use dropbox_for_ctf.Server.Frame.{Scope, IsWithin, within_rules, is_mine, update_shares}
use dropbox_for_ctf.Server.Frame.Files.{
  check_cookie-IsWithin, abs_or-IsWithin, is_shared_file-IsWithin, remove-IsWithin,
}

shared_mine :
    (u : Bytes) (r : ShareRow) (b : Bool) → (str_eq r.sharer u && b) ≡ true → is_mine u r ≡ true
shared_mine u r b e = ground arith

received_mine :
    (u : Bytes) (r : ShareRow) (b : Bool) → (str_eq r.sharee u && b) ≡ true → is_mine u r ≡ true
received_mine u r b e = ground arith

given_mine :
    (u v p q : Bytes) (n : ℕ)
    → is_mine u (record { sharer = u; sharee = v; origpath = p; shareepath = q; perm = n }) ≡ true
given_mine u v p q n = rw (str_eq_refl u) refl

set_mine :
    (u : Bytes) (r : ShareRow) (n : ℕ) (b : Bool)
    → (str_eq r.sharer u && b) ≡ true
    → (is_mine u r ≡ true) × (is_mine u (record r { perm = n }) ≡ true)
set_mine u r n b e = (shared_mine u r b e, shared_mine u r b e)

ruleset mine_rules =
    (within_rules, shared_mine, received_mine, given_mine, check_cookie-IsWithin, abs_or-IsWithin)

module _ {S : Type 0} (host : Host S) (scope : Scope) (w : World S) (u : Bytes)
    (mine : scope.shares ≡ some u) where
  set_perm-IsWithin :
      (v p : Bytes) (n : ℕ) (x : World S)
      → IsWithin scope w x
      → IsWithin scope w
          (record x { shares = update_by (is_share u v p) (λ r. record r { perm = n }) x.shares })
  set_perm-IsWithin v p n =
      update_shares scope w u (is_share u v p) (λ r. record r { perm = n }) mine
        (λ r e. set_mine u r n (str_eq r.sharee v && str_eq r.origpath p) e)

  pub chperm_handler-IsWithin :
      (p v n c : Bytes) → Keeps (IsWithin scope w) (chperm_handler host p v n u c)
  unfolding chperm_handler
  chperm_handler-IsWithin p v n c = search (mine_rules, set_perm-IsWithin) depth 30

  free_name-IsWithin :
      {R : Type 0} (d f : Bytes) (fuel i : ℕ)
      → Keeps {R = R} (IsWithin scope w) (free_name host d f fuel i)
  unfolding free_name
  free_name-IsWithin {R} d f zero i = record { at = λ v h. h }
  free_name-IsWithin {R} d f (suc fuel) i = record {
    at = λ v h. ground (arith, (free_name-IsWithin {R = R} d f fuel (suc i)).at v h);
  }

  grant-IsWithin :
      (fuel : ℕ) (v p : Bytes) (n : ℕ) → Keeps (IsWithin scope w) (grant host fuel u v p n)
  unfolding grant
  grant-IsWithin fuel v p n = search (mine_rules, free_name-IsWithin) depth 30

  pub share_handler-IsWithin :
      (fuel : ℕ) (p v n c : Bytes) → Keeps (IsWithin scope w) (share_handler host fuel p v n u c)
  unfolding share_handler
  share_handler-IsWithin fuel p v n c = search (mine_rules, grant-IsWithin) depth 30

  pub unshare_handler-IsWithin :
      (p v c : Bytes) → Keeps (IsWithin scope w) (unshare_handler host p v u c)
  unfolding unshare_handler
  unshare_handler-IsWithin p v c = search mine_rules depth 30

  unshare_all-IsWithin :
      (p : Bytes) (ps : List Bytes) → Keeps (IsWithin scope w) (unshare_all host u p ps)
  unfolding unshare_all
  unshare_all-IsWithin p [] = search mine_rules
  unshare_all-IsWithin p (q ∷ ps) = Keeps-bind _ _ (search mine_rules) λ r.
      Keeps-bind _ _ (search mine_rules)
        λ _. Keeps-bind _ _ (search mine_rules) λ _. unshare_all-IsWithin p ps

  remove_as_sharee-IsWithin : (p : Bytes) → Keeps (IsWithin scope w) (remove_as_sharee host p u)
  unfolding remove_as_sharee
  remove_as_sharee-IsWithin p = search mine_rules depth 12

module _ {S : Type 0} (host : Host S) (scope : Scope) (w : World S) (u : Bytes)
    (mine : scope.shares ≡ some u) (free : scope.files ≡ true) where
  remove_as_sharer-IsWithin : (q p : Bytes) → Keeps (IsWithin scope w) (remove_as_sharer host q p u)
  unfolding remove_as_sharer
  remove_as_sharer-IsWithin q p =
      search (mine_rules, unshare_all-IsWithin, remove-IsWithin) depth 12

  -- The three ways on from `isSharedFile`.
  removal-IsWithin :
      (q p : Bytes) (shared : SharedAs)
      → Keeps {R = Bytes} (IsWithin scope w) (elim shared as (λ _. Body (World S) Bytes Bytes) [
        | unshared ↦ call (remove host q u)
        | as_sharee ↦ call (remove_as_sharee host p u)
        | as_sharer ↦ call (remove_as_sharer host q p u)
      ])
  removal-IsWithin q p unshared = search (mine_rules, remove-IsWithin)
  removal-IsWithin q p as_sharee = search (mine_rules, remove_as_sharee-IsWithin)
  removal-IsWithin q p as_sharer = search (mine_rules, remove_as_sharer-IsWithin)

  pub remove_handler-IsWithin : (p c : Bytes) → Keeps (IsWithin scope w) (remove_handler host p u c)
  unfolding remove_handler
  remove_handler-IsWithin p c =
      search (mine_rules, removal-IsWithin, is_shared_file-IsWithin) depth 30

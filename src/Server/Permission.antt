-- ===== src/Server/Permission.antt =====
-- Permissions: what a sharee may do, and how the owner changes it.
use dropbox_for_ctf.Base.{
  ℕ, ◌≡◌, ◌≢◌, refl, ◌∙◌, Bool, true, false, ◌&&◌, none, some, List, [], ◌∷◌, ◌++◌, arith, count_by,
  first_by, update_by, if◌then◌else◌,
}
use mathlib.Core.Option
use dropbox_for_ctf.Text.{Bytes, lit, str_eq, has_prefix}
use dropbox_for_ctf.FilePath.{ok, clean}
use dropbox_for_ctf.Go.{next, ◌>>=◌}
use dropbox_for_ctf.Store.{
  Host, World, ShareRow, count, prepare, run, query_row, or_exit, quiet, is_not_exist,
}
use dropbox_for_ctf.Server.Account.{user_root, abspath, check_path}
use dropbox_for_ctf.Server.Files.{abs_or, get_perms, is_shared_file, sharee_upload, upload_handler}
use dropbox_for_ctf.Server.Sharing.{is_share, is_perm, perm_of, chperm_handler}
use dropbox_for_ctf.Server.Session.{HasSession, check_cookie-accepts}

-- The row by which `getPerms` decides.
abbrev pub is_grant : Bytes → Bytes → ShareRow → Bool
is_grant path sharee r = str_eq r.shareepath path && str_eq r.sharee sharee

-- `user` holds a session and may go to `path`, which stands at `place`.
pub record Reaches {S : Type 0} (host : Host S) (user cookie path place : Bytes) (w : World S)
    : Type 0 where
  pub session : HasSession host user cookie w
  pub allowed : check_path host path user w.os ≡ true
  pub stands : abspath host path w.os ≡ ok place

some_shared :
    (q v : Bytes) (r : ShareRow) (rows : List ShareRow)
    → first_by (is_grant q v) rows ≡ some r
    → first_by (λ s. str_eq s.shareepath q) rows ≢ none
some_shared q v r [] h = cc
some_shared q v r (s ∷ rows) h = ground (arith, some_shared q v r rows)

module _ {S : Type 0} (host : Host S) where
  -- A sharee whose permission is 0 cannot upload over the file, and the attempt changes nothing.
  pub upload_denied :
      (v c path place body : Bytes) (r : ShareRow) (w : World S)
      → Reaches host v c path place w
      → first_by (λ s. str_eq s.origpath place) w.shares ≡ none
      → first_by (is_grant place v) w.shares ≡ some r
      → r.perm ≡ 0
      → upload_handler host path v body c (quiet w) ≡ next (lit "Permission Denied") (quiet w)
  unfolding upload_handler sharee_upload is_shared_file get_perms abs_or query_row ◌>>=◌ or_exit
  upload_denied v c path place body r w reach unowned granted zeroed = ground (
    arith,
    check_cookie-accepts host w v c reach.session,
    reach.allowed,
    reach.stands,
    some_shared place v r w.shares granted,
  )

  -- What `chpermHandler` asks for.
  pub record IsChange (u c v path place : Bytes) (w : World S) : Type 0 where
    pub session : HasSession host u c w
    pub allowed : check_path host path u w.os ≡ true
    pub stands : abspath host (clean path) w.os ≡ ok place
    pub owned : Bytes
    pub inbox : abspath host (user_root u ++ lit "/Shared_with_me") w.os ≡ ok owned
    pub outside : has_prefix place owned ≡ false
    pub there : is_not_exist (host.stat place w.os) ≡ false
    pub shared : count_by (is_share u v place) w.shares ≢ 0

  abbrev pub with_perm : Bytes → Bytes → Bytes → ℕ → World S → World S
  with_perm u v place n w = record w {
    shares = update_by (is_share u v place) (λ r. record r { perm = n }) w.shares;
    faults = [];
  }

  -- The owner's change sets the permission of the rows that share the file with that user.
  chperm_changes :
      (u c v path place newperm : Bytes) (w : World S)
      → IsChange u c v path place w
      → is_perm newperm ≡ true
      → chperm_handler host path v newperm u c (quiet w)
        ≡ next (lit "Permissions updated") (with_perm u v place (perm_of newperm) w)
  unfolding chperm_handler abs_or count prepare run ◌>>=◌
  chperm_changes u c v path place newperm w k proper = ground (
    arith,
    check_cookie-accepts host w u c k.session,
    k.allowed,
    k.stands,
    k.inbox,
    k.outside,
    k.there,
    k.shared,
    proper,
  )

first_by-update_by :
    (p q : ShareRow → Bool) (f : ShareRow → ShareRow) (rows : List ShareRow)
    → ((x : ShareRow) → p (f x) ≡ p x)
    → first_by p (update_by q f rows) ≡ Option.map (λ x. if q x then f x else x) (first_by p rows)
first_by-update_by p q f [] same = refl
first_by-update_by p q f (x ∷ rows) same =
    ground (arith, same x, first_by-update_by p q f rows same)

module _ {S : Type 0} (host : Host S) where
  -- When the owner sets a sharee's permission to "r", the sharee can no longer upload over the file:
  -- the change succeeds, and an upload in the state that it leaves is denied and changes nothing.
  pub chperm_revokes :
      (u c v d path place link lent body : Bytes) (r : ShareRow) (w : World S)
      → IsChange host u c v path place w
      → Reaches host v d link lent w
      → first_by (λ s. str_eq s.origpath lent) w.shares ≡ none
      → first_by (is_grant lent v) w.shares ≡ some r
      → is_share u v place r ≡ true
      → (chperm_handler host path v (lit "r") u c (quiet w)
          ≡ next (lit "Permissions updated") (with_perm host u v place 0 w))
        × (upload_handler host link v body d (with_perm host u v place 0 w)
            ≡ next (lit "Permission Denied") (with_perm host u v place 0 w))
  unfolding lit str_eq
  chperm_revokes u c v d path place link lent body r w k reach unowned granted theirs = (
    chperm_changes host u c v path place (lit "r") w k refl,
    upload_denied host v d link lent body (record r { perm = 0 }) (with_perm host u v place 0 w)
        (record { session = reach.session; allowed = reach.allowed; stands = reach.stands })
        (first_by-update_by _ (is_share u v place) (λ x. record x { perm = 0 }) w.shares (λ x. refl)
          ∙ rw unowned)
        (first_by-update_by (is_grant lent v) (is_share u v place) (λ x. record x { perm = 0 })
            w.shares (λ x. refl)
          ∙ rw granted (rw theirs))
        refl,
  )

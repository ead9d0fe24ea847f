-- ===== src/Server/Share.antt =====
-- shareHandler and unshareHandler behind their checks.
use dropbox_for_ctf.Base.{
  ℕ, ◌<◌, ◌≤◌, ◌≡◌, ◌≢◌, Bool, true, false, some, List, [], ◌∷◌, ◌++◌, arith, count_by,
  count_by-append, first_by, delete_by,
}
use dropbox_for_ctf.Text.{Bytes, lit, slash, str_eq, has_prefix}
use dropbox_for_ctf.Text.Laws.{str_eq_refl}
use dropbox_for_ctf.FilePath.{ok, clean, base}
use dropbox_for_ctf.Go.{next, ◌>>=◌}
use dropbox_for_ctf.Store.{
  Host, World, UserRow, ShareRow, is_not_exist, count, execute, query_row, found, quiet, system,
}
use dropbox_for_ctf.Server.Account.{user_root, abspath, check_path}
use dropbox_for_ctf.Server.Files.{abs_or}
use dropbox_for_ctf.Server.Sharing.{
  is_share, is_perm, perm_of, candidate, free_name, grant, share_handler, unshare_handler,
}
use dropbox_for_ctf.Server.Session.{HasSession, check_cookie-accepts}
use dropbox_for_ctf.Server.FreeName.{IsFreeName, free_name_first}

delete_by-append :
    (p : ShareRow → Bool) (rows : List ShareRow) (r : ShareRow)
    → count_by p rows ≡ 0
    → p r ≡ true
    → delete_by p (rows ++ r ∷ []) ≡ rows
delete_by-append p [] r absent hit = rw hit
delete_by-append p (x ∷ rows) r absent hit = ground (arith, absent, delete_by-append p rows r, hit)

pub first_by-append :
    (p : ShareRow → Bool) (rows : List ShareRow) (r : ShareRow)
    → count_by p rows ≡ 0
    → p r ≡ true
    → first_by p (rows ++ r ∷ []) ≡ some r
first_by-append p [] r absent hit = rw hit
first_by-append p (x ∷ rows) r absent hit = ground (arith, absent, first_by-append p rows r, hit)

is_share_self :
    (u v p q : Bytes) (n : ℕ)
    → is_share u v p (record { sharer = u; sharee = v; origpath = p; shareepath = q; perm = n })
      ≡ true
is_share_self u v p q n = rw (str_eq_refl u, str_eq_refl v, str_eq_refl p)

module _ {S : Type 0} (host : Host S) where
  -- What `shareHandler` asks for, up to the search for a name.
  pub record IsSharing (u c v path permissions place inbox : Bytes) (w : World S) : Type 0 where
    pub session : HasSession host u c w
    pub allowed : check_path host path u w.os ≡ true
    pub another : str_eq u v ≡ false
    pub proper : is_perm permissions ≡ true
    pub known : count_by (λ (r : UserRow). str_eq r.username v) w.users ≢ 0
    pub stands : abspath host (clean path) w.os ≡ ok place
    pub there : is_not_exist (host.stat place w.os) ≡ false
    pub owned : Bytes
    pub owned_stands : abspath host (user_root u ++ lit "/Shared_with_me") w.os ≡ ok owned
    pub outside : has_prefix place owned ≡ false
    pub fresh : count_by (is_share u v place) w.shares ≡ 0
    pub inbox_stands : abspath host (user_root v ++ lit "/Shared_with_me/") w.os ≡ ok inbox

  abbrev pub new_share : Bytes → Bytes → Bytes → Bytes → Bytes → Bytes → ShareRow
  new_share u v place inbox filename permissions = record {
    sharer = u;
    sharee = v;
    origpath = place;
    shareepath = inbox ++ slash ∷ filename;
    perm = perm_of permissions;
  }

  abbrev pub shared_with : ShareRow → World S → S → World S
  shared_with r w s = record w { os = s; shares = w.shares ++ r ∷ []; faults = [] }

  grant_lem :
      (u v place inbox filename target : Bytes) (n fuel : ℕ) (w : World S) {s : S}
      → count_by (is_share u v place) w.shares ≡ 0
      → abspath host (user_root v ++ lit "/Shared_with_me/") w.os ≡ ok inbox
      → free_name host {R = Bytes} inbox (base place) fuel 0 (quiet w) ≡ next filename (quiet w)
      → host.lstat place w.os ≡ ok true
      → host.readlink place w.os ≡ ok target
      → host.symlink target (inbox ++ slash ∷ filename) w.os ≡ (ok tt, s)
      → grant host fuel u v place n (quiet w)
        ≡ next [] (
            shared_with
              (record {
                sharer = u;
                sharee = v;
                origpath = place;
                shareepath = inbox ++ slash ∷ filename;
                perm = n;
              })
              w
              s)
  unfolding grant abs_or count execute system ◌>>=◌
  grant_lem u v place inbox filename target n fuel w fresh stands named e f g = ground arith

  pub share_named :
      (u c v path permissions place inbox filename target : Bytes) (fuel : ℕ) (w : World S) {s : S}
      → IsSharing u c v path permissions place inbox w
      → free_name host {R = Bytes} inbox (base place) fuel 0 (quiet w) ≡ next filename (quiet w)
      → host.lstat place w.os ≡ ok true
      → host.readlink place w.os ≡ ok target
      → host.symlink target (inbox ++ slash ∷ filename) w.os ≡ (ok tt, s)
      → share_handler host fuel path v permissions u c (quiet w)
        ≡ next [] (shared_with (new_share u v place inbox filename permissions) w s)
  unfolding share_handler abs_or count ◌>>=◌
  share_named u c v path permissions place inbox filename target fuel w k named e f g = ground (
    arith,
    check_cookie-accepts host w u c k.session,
    k.allowed,
    k.another,
    k.proper,
    k.known,
    k.stands,
    k.there,
    k.owned_stands,
    k.outside,
    grant_lem u v place inbox filename target (perm_of permissions) fuel w k.fresh k.inbox_stands
        named e f g,
  )

  -- A link to a stored file is shared with another user, where a link can be made at every name that is
  -- free: the first free name is taken, all rounds before it having found a file, a link to the same stored
  -- file is made there, and the table has one row more, with the permission that was asked for.
  pub share_grants :
      (u c v path permissions place inbox target : Bytes) (fuel m : ℕ) (w : World S)
      → IsSharing u c v path permissions place inbox w
      → m < fuel
      → IsFreeName host inbox (base place) w m
      → host.lstat place w.os ≡ ok true
      → host.readlink place w.os ≡ ok target
      → ((n : ℕ)
          → IsFreeName host inbox (base place) w n
          → (s : S) × (host.symlink target (inbox ++ slash ∷ candidate (base place) n) w.os
              ≡ (ok tt, s)))
      → (n : ℕ) × (s : S) × (n ≤ m)
        × IsFreeName host inbox (base place) w n
        × ((j : ℕ) → j < n → ¬ IsFreeName host inbox (base place) w j)
        × (host.symlink target (inbox ++ slash ∷ candidate (base place) n) w.os ≡ (ok tt, s))
        × (share_handler host fuel path v permissions u c (quiet w)
            ≡ next [] (
                shared_with (new_share u v place inbox (candidate (base place) n) permissions) w s))
  share_grants u c v path permissions place inbox target fuel m w k enough free e f links =
      let (n, a, b, unused, before, named) =
        free_name_first host inbox (base place) (quiet w) {R = Bytes} fuel 0 m (omega arith)
          (omega arith) free in
      let (s, g) = links n unused in
      (
        n,
        s,
        b,
        unused,
        (λ j lt. before j (omega arith) lt),
        g,
        share_named u c v path permissions place inbox (candidate (base place) n) target fuel w k
            named e f g,
      )

  -- What `unshareHandler` asks for.
  pub record IsWithdrawal (u c v path place : Bytes) (w : World S) : Type 0 where
    pub session : HasSession host u c w
    pub allowed : check_path host path u w.os ≡ true
    pub another : str_eq u v ≡ false
    pub known : count_by (λ (r : UserRow). str_eq r.username v) w.users ≢ 0
    pub stands : abspath host (clean path) w.os ≡ ok place

  -- A share that `shareHandler` has added is withdrawn: the sharee's link is removed, and the table is
  -- the one from before the share.
  pub unshare_restores :
      (u c v path place link : Bytes) (n : ℕ) (w : World S) {s t : S}
      → count_by (is_share u v place) w.shares ≡ 0
      → let r : ShareRow = record {
        sharer = u;
        sharee = v;
        origpath = place;
        shareepath = link;
        perm = n;
      } in
        IsWithdrawal u c v path place (shared_with r w s)
        → host.remove link s ≡ (ok tt, t)
        → unshare_handler host path v u c (shared_with r w s)
          ≡ next [] (record w { os = t; faults = [] })
  unfolding unshare_handler abs_or count query_row found execute system ◌>>=◌
  unshare_restores u c v path place link n w {s} {t} fresh k e =
      let r : ShareRow = record {
        sharer = u;
        sharee = v;
        origpath = place;
        shareepath = link;
        perm = n;
      } in
      let same = is_share_self u v place link n in
      ground (
        arith,
        check_cookie-accepts host (shared_with r w s) u c k.session,
        k.allowed,
        k.another,
        k.known,
        k.stands,
        count_by-append (is_share u v place) w.shares (r ∷ []),
        same,
        fresh,
        first_by-append (is_share u v place) w.shares r fresh same,
        delete_by-append (is_share u v place) w.shares r fresh same,
      )

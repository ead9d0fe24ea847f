-- ===== src/Server/Renew.antt =====
-- An owner's upload over a file that is lent to another user: sharerUpload.
use dropbox_for_ctf.Base.{
  ℕ, ◌+◌, ◌≡◌, ◌&&◌, true, false, some, [], ◌∷◌, ◌++◌, arith, count_by, first_by, select_by,
  delete_by, last_or, map,
}
use dropbox_for_ctf.Text.{Bytes, lit, str_eq, has_prefix, split, itoa}
use dropbox_for_ctf.FilePath.{ok}
use dropbox_for_ctf.Go.{next, ◌>>=◌}
use dropbox_for_ctf.Store.{
  Host, World, FileRow, ShareRow, is_exists, query, query_row, found, count, execute, system,
  prepare, access, draw, quiet,
}
use dropbox_for_ctf.Server.Account.{user_root, abspath, check_path}
use dropbox_for_ctf.Server.Files.{
  abs_or, release, remove, store_new, upload_helper, remove_links, relink, sharer_upload,
  is_shared_file, upload_handler, download_handler,
}
use dropbox_for_ctf.Server.Session.{check_cookie-accepts}
use dropbox_for_ctf.Server.Permission.{Reaches}
use dropbox_for_ctf.Server.Upload.{IsLawful, download_link}

module _ {S : Type 0} (host : Host S) where
  -- The user `u` owns the link `place` to the stored file of the row `r`, alone, and lends it by one link.
  pub record IsLent (u c path place link old : Bytes) (r : FileRow) (lent : ShareRow) (w : World S)
      : Type 0 where
    pub reach : Reaches host u c path place w
    pub owned : first_by (λ s. str_eq s.origpath place) w.shares ≡ some lent
    pub once :
        map
          (λ (s : ShareRow). s.shareepath)
          (select_by (λ s. str_eq s.sharer u && str_eq s.origpath place) w.shares)
        ≡ link ∷ []
    pub stored : first_by (λ x. str_eq x.filename (last_or [] (split old))) w.files ≡ some r
    pub alone : r.numowners ≡ 1

  -- What the removal of the old file meets, once the sharee's link is gone.
  pub record IsBare (u place old inbox : Bytes) (s : S) : Type 0 where
    pub allowed : check_path host place u s ≡ true
    pub stands : abspath host place s ≡ ok place
    pub inbox_stands : abspath host (user_root u ++ lit "/Shared_with_me") s ≡ ok inbox
    pub outside : has_prefix place inbox ≡ false
    pub there : is_exists (host.stat place s) ≡ true
    pub is_link : host.lstat place s ≡ ok true
    pub leads : host.readlink place s ≡ ok old

  -- The state after the new body has taken the old one's place.
  abbrev pub renewed : Bytes → Bytes → World S → S → World S
  renewed old body w t = record w {
    os = t;
    files =
        delete_by (λ x. str_eq x.filename (last_or [] (split old))) w.files
        ++ record {
          filename = lit "file" ++ itoa w.filecount;
          filehash = host.digest body;
          numowners = 1;
        }
          ∷ [];
    filecount = w.filecount + 1;
    faults = [];
  }

  remove_alone :
      (u place old inbox : Bytes) (r : FileRow) (w : World S) {s t : S}
      → IsBare u place old inbox w.os
      → first_by (λ x. str_eq x.filename (last_or [] (split old))) w.files ≡ some r
      → r.numowners ≡ 1
      → host.remove place w.os ≡ (ok tt, s)
      → host.remove old s ≡ (ok tt, t)
      → remove host place u (quiet w)
        ≡ next [] (record w {
          os = t;
          files = delete_by (λ x. str_eq x.filename (last_or [] (split old))) w.files;
          faults = [];
        })
  unfolding remove release abs_or query_row found execute system ◌>>=◌
  remove_alone u place old inbox r w k stored alone e f =
      ground (arith, k.allowed, k.stands, k.is_link, k.leads, stored, alone)

  -- The system calls that put a new body in the place of an old one, from `s`, each successful.
  pub record IsReplaced (place old new body : Bytes) (count : ℕ) (s t : S) : Type 0 where
    pub unlinked : S
    pub unlinks : host.remove place s ≡ (ok tt, unlinked)
    pub freed : S
    pub frees : host.remove old unlinked ≡ (ok tt, freed)
    pub names : abspath host (lit "./filestore/file" ++ itoa count) freed ≡ ok new
    pub written : S
    pub writes : host.write_file new body freed ≡ (ok tt, written)
    pub links : host.symlink new place written ≡ (ok tt, t)

  upload_over :
      (u place old inbox new body : Bytes) (r : FileRow) (w : World S) {t : S}
      → IsBare u place old inbox w.os
      → first_by (λ x. str_eq x.filename (last_or [] (split old))) w.files ≡ some r
      → r.numowners ≡ 1
      → count_by
          (λ (x : FileRow). str_eq x.filehash (host.digest body))
          (delete_by (λ x. str_eq x.filename (last_or [] (split old))) w.files)
        ≡ 0
      → IsReplaced place old new body w.filecount w.os t
      → upload_helper host place u body (quiet w) ≡ next [] (renewed old body w t)
  unfolding upload_helper store_new abs_or count execute system ◌>>=◌
  upload_over u place old inbox new body r w k stored alone fresh m = ground (
    arith,
    k.inbox_stands,
    k.outside,
    k.there,
    remove_alone u place old inbox r w k stored alone m.unlinks m.frees,
    fresh,
    m.names,
    m.writes,
    m.links,
  )

  renew :
      IsLawful host
      → (u c path place link old inbox new body : Bytes) (r : FileRow) (lent : ShareRow)
        (w : World S) {s t v : S}
      → IsLent u c path place link old r lent w
      → host.remove link w.os ≡ (ok tt, s)
      → IsBare u place old inbox s
      → count_by
          (λ (x : FileRow). str_eq x.filehash (host.digest body))
          (delete_by (λ x. str_eq x.filename (last_or [] (split old))) w.files)
        ≡ 0
      → IsReplaced place old new body w.filecount s t
      → host.symlink new link t ≡ (ok tt, v)
      → upload_handler host path u body c (quiet w) ≡ next [] (renewed old body w v)
  unfolding upload_handler is_shared_file sharer_upload remove_links relink query query_row found
      abs_or prepare access draw system ◌>>=◌
  renew law u c path place link old inbox new body r lent w {s} {t} k gone bare fresh m again =
      ground (
        arith,
        check_cookie-accepts host w u c k.reach.session,
        k.reach.allowed,
        k.reach.stands,
        k.owned,
        k.once,
        gone,
        upload_over u place old inbox new body r (record w { os = s }) bare k.stored k.alone fresh
            m,
        law.readlink-symlink new place m.written t m.links,
        again,
      )

  -- An owner uploads a new body over a file that is lent to one user. The old stored file, which has no
  -- other owner, goes from the disk and from the table, the new body is stored under the next number, and the
  -- sharee, as long as the session holds, downloads the new body from the link that was there before.
  pub lent_renewed :
      IsLawful host
      → (u c path place link old inbox new body : Bytes) (r : FileRow) (lent : ShareRow)
        (v d reading : Bytes) (w : World S) {s t x : S}
      → IsLent u c path place link old r lent w
      → host.remove link w.os ≡ (ok tt, s)
      → IsBare u place old inbox s
      → count_by
          (λ (x : FileRow). str_eq x.filehash (host.digest body))
          (delete_by (λ x. str_eq x.filename (last_or [] (split old))) w.files)
        ≡ 0
      → IsReplaced place old new body w.filecount s t
      → host.symlink new link t ≡ (ok tt, x)
      → Reaches host v d reading link (renewed old body w x)
      → (upload_handler host path u body c (quiet w) ≡ next [] (renewed old body w x))
        × (download_handler host reading v d (renewed old body w x)
            ≡ next (record { body = body; err_text = [] }) (renewed old body w x))
  lent_renewed law u c path place link old inbox new body r lent v d reading w {s} {t} {x} k gone
        bare fresh m again reach =
      (
        renew law u c path place link old inbox new body r lent w k gone bare fresh m again,
        download_link host v d reading link new body (renewed old body w x) reach
            (law.lstat-symlink new link t x again) (law.readlink-symlink new link t x again)
            (law.read-symlink new link new body t x again (
              law.read-symlink new place new body m.written t m.links
                (law.read-write new body m.freed m.written m.writes))),
      )

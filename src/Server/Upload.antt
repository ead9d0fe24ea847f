-- ===== src/Server/Upload.antt =====
-- Uploads and downloads over a file system that keeps what is written.
use dropbox_for_ctf.Base.{
  ℕ, ◌+◌, ◌≡◌, ◌≢◌, ◌∙◌, true, false, none, some, List, [], ◌∷◌, ◌++◌, arith, count_by, first_by,
  update_by,
}
use dropbox_for_ctf.Text.{Bytes, lit, str_eq, has_prefix, itoa}
use dropbox_for_ctf.FilePath.{ok}
use dropbox_for_ctf.Go.{next, ◌>>=◌}
use dropbox_for_ctf.Store.{
  Host, World, FileRow, count, execute, query_row, or_exit, found, quiet, is_exists, system,
}
use dropbox_for_ctf.Server.Account.{user_root, abspath, check_path}
use dropbox_for_ctf.Server.Files.{
  abs_or, is_shared_file, store_new, store_again, upload_helper, upload_handler, download_handler,
}
use dropbox_for_ctf.Server.Session.{HasSession, check_cookie-accepts}
use dropbox_for_ctf.Server.Permission.{Reaches}

-- What the program relies on: a written file reads back, a new link points where it was told and
-- spoils no file, and neither changes the working directory.
pub record IsLawful {S : Type 0} (host : Host S) : Type 0 where
  pub read-write :
      (p b : Bytes) (s t : S) → host.write_file p b s ≡ (ok tt, t) → host.read_file p t ≡ ok b
  pub getwd-write :
      (p b : Bytes) (s t : S) → host.write_file p b s ≡ (ok tt, t) → host.getwd t ≡ host.getwd s
  pub lstat-symlink :
      (p q : Bytes) (s t : S) → host.symlink p q s ≡ (ok tt, t) → host.lstat q t ≡ ok true
  pub readlink-symlink :
      (p q : Bytes) (s t : S) → host.symlink p q s ≡ (ok tt, t) → host.readlink q t ≡ ok p
  pub read-symlink :
      (p q r b : Bytes) (s t : S)
      → host.symlink p q s ≡ (ok tt, t)
      → host.read_file r s ≡ ok b
      → host.read_file r t ≡ ok b
  pub getwd-symlink :
      (p q : Bytes) (s t : S) → host.symlink p q s ≡ (ok tt, t) → host.getwd t ≡ host.getwd s

module _ {S : Type 0} (host : Host S) where
  -- A free place of the user's own, and nothing shared there.
  pub record IsVacant (u c path place : Bytes) (w : World S) : Type 0 where
    pub reach : Reaches host u c path place w
    pub unowned : first_by (λ r. str_eq r.origpath place) w.shares ≡ none
    pub unlent : first_by (λ r. str_eq r.shareepath place) w.shares ≡ none
    pub inbox : Bytes
    pub inbox_stands : abspath host (user_root u ++ lit "/Shared_with_me") w.os ≡ ok inbox
    pub outside : has_prefix place inbox ≡ false
    pub free : is_exists (host.stat place w.os) ≡ false

  abbrev pub holders : Bytes → World S → ℕ
  holders hash w = count_by (λ (r : FileRow). str_eq r.filehash hash) w.files

  -- The state after the upload of a new body.
  abbrev pub stored_new : Bytes → World S → S → World S
  stored_new body w t = record w {
    os = t;
    files =
        w.files
        ++ record {
          filename = lit "file" ++ itoa w.filecount;
          filehash = host.digest body;
          numowners = 1;
        }
          ∷ [];
    filecount = w.filecount + 1;
    faults = [];
  }

  upload_new :
      (u c path place stored body : Bytes) (w : World S) {s t : S}
      → IsVacant u c path place w
      → holders (host.digest body) w ≡ 0
      → abspath host (lit "./filestore/file" ++ itoa w.filecount) w.os ≡ ok stored
      → host.write_file stored body w.os ≡ (ok tt, s)
      → host.symlink stored place s ≡ (ok tt, t)
      → upload_handler host path u body c (quiet w) ≡ next [] (stored_new body w t)
  unfolding upload_handler upload_helper store_new is_shared_file abs_or query_row found count
      execute system ◌>>=◌
  upload_new u c path place stored body w v absent e f g = ground (
    arith,
    check_cookie-accepts host w u c v.reach.session,
    v.reach.allowed,
    v.reach.stands,
    v.unowned,
    v.unlent,
    v.inbox_stands,
    v.outside,
    v.free,
  )

  pub download_link :
      (u c path place target body : Bytes) (w : World S)
      → Reaches host u c path place w
      → host.lstat place w.os ≡ ok true
      → host.readlink place w.os ≡ ok target
      → host.read_file target w.os ≡ ok body
      → download_handler host path u c (quiet w)
        ≡ next (record { body = body; err_text = [] }) (quiet w)
  unfolding download_handler abs_or ◌>>=◌
  download_link u c path place target body w reach e f g =
      ground (arith, check_cookie-accepts host w u c reach.session, reach.allowed, reach.stands)

  check_path-getwd :
      (path u : Bytes) (s t : S)
      → host.getwd t ≡ host.getwd s
      → check_path host path u t ≡ check_path host path u s
  unfolding check_path abspath
  check_path-getwd path u s t e = rw e

  abspath-getwd :
      (path : Bytes) (s t : S)
      → host.getwd t ≡ host.getwd s
      → abspath host path t ≡ abspath host path s
  unfolding abspath
  abspath-getwd path s t e = rw e

  -- A user who can reach a place reaches it after the operating system's state has changed, if the
  -- working directory is the same and the session still holds.
  pub Reaches-later :
      (u c path place : Bytes) (w v : World S)
      → Reaches host u c path place w
      → host.getwd v.os ≡ host.getwd w.os
      → HasSession host u c v
      → Reaches host u c path place v
  Reaches-later u c path place w v reach e session = record {
    session = session;
    allowed = check_path-getwd path u w.os v.os e ∙ reach.allowed;
    stands = abspath-getwd path w.os v.os e ∙ reach.stands;
  }

  -- A body that no stored file has is uploaded to a free place: the upload stores it under the next
  -- number with one owner, and as long as the session holds a download from there gives that body.
  pub download-upload_new :
      IsLawful host
      → (u c path place stored body : Bytes) (w : World S) {s t : S} → IsVacant u c path place w
      → holders (host.digest body) w ≡ 0
      → abspath host (lit "./filestore/file" ++ itoa w.filecount) w.os ≡ ok stored
      → host.write_file stored body w.os ≡ (ok tt, s)
      → host.symlink stored place s ≡ (ok tt, t)
      → HasSession host u c (stored_new body w t)
      → (upload_handler host path u body c (quiet w) ≡ next [] (stored_new body w t))
        × (download_handler host path u c (stored_new body w t)
            ≡ next (record { body = body; err_text = [] }) (stored_new body w t))
  download-upload_new law u c path place stored body w {s} {t} v absent e f g session = (
    upload_new u c path place stored body w v absent e f g,
    download_link u c path place stored body (stored_new body w t)
        (Reaches-later u c path place w (stored_new body w t) v.reach
          (law.getwd-symlink stored place s t g ∙ law.getwd-write stored body w.os s f) session)
        (law.lstat-symlink stored place s t g) (law.readlink-symlink stored place s t g)
        (law.read-symlink stored place stored body s t g (law.read-write stored body w.os s f)),
  )

  holders-ne-zero :
      (hash : Bytes) (rows : List FileRow) {r : FileRow}
      → first_by (λ x. str_eq x.filehash hash) rows ≡ some r
      → count_by (λ (x : FileRow). str_eq x.filehash hash) rows ≢ 0
  holders-ne-zero hash [] e = cc
  holders-ne-zero hash (x ∷ rows) {r} e = ground (arith, holders-ne-zero hash rows {r = r})

  -- The state after the upload of a body that is stored already, in the file of the row `r`.
  abbrev pub stored_again : Bytes → FileRow → World S → S → World S
  stored_again body r w t = record w {
    os = t;
    files =
        update_by (λ x. str_eq x.filehash (host.digest body))
          (λ x. record x { numowners = r.numowners + 1 }) w.files;
    faults = [];
  }

  pub upload_again :
      (u c path place stored body : Bytes) (r : FileRow) (w : World S) {t : S}
      → IsVacant u c path place w
      → first_by (λ x. str_eq x.filehash (host.digest body)) w.files ≡ some r
      → abspath host (lit "./filestore/" ++ r.filename) w.os ≡ ok stored
      → host.symlink stored place w.os ≡ (ok tt, t)
      → upload_handler host path u body c (quiet w)
        ≡ next (lit "End of uploadHelper") (stored_again body r w t)
  unfolding upload_handler upload_helper store_again is_shared_file abs_or query_row or_exit found
      count execute system ◌>>=◌
  upload_again u c path place stored body r w v known e g = ground (
    arith,
    check_cookie-accepts host w u c v.reach.session,
    v.reach.allowed,
    v.reach.stands,
    v.unowned,
    v.unlent,
    v.inbox_stands,
    v.outside,
    v.free,
    holders-ne-zero (host.digest body) w.files known,
  )

  -- A body whose digest is known is not stored again: the upload makes a link to the file of that
  -- digest and counts one owner more, no file is written, and a download gives what that file holds.
  -- The reply of this success is a text and not the empty one.
  pub download-upload_again :
      IsLawful host
      → (u c path place stored body content : Bytes) (r : FileRow) (w : World S) {t : S}
      → IsVacant u c path place w
      → first_by (λ x. str_eq x.filehash (host.digest body)) w.files ≡ some r
      → abspath host (lit "./filestore/" ++ r.filename) w.os ≡ ok stored
      → host.read_file stored w.os ≡ ok content
      → host.symlink stored place w.os ≡ (ok tt, t)
      → HasSession host u c (stored_again body r w t)
      → (upload_handler host path u body c (quiet w)
          ≡ next (lit "End of uploadHelper") (stored_again body r w t))
        × (download_handler host path u c (stored_again body r w t)
            ≡ next (record { body = content; err_text = [] }) (stored_again body r w t))
  download-upload_again law u c path place stored body content r w {t} v known e h g session = (
    upload_again u c path place stored body r w v known e g,
    download_link u c path place stored content (stored_again body r w t)
        (Reaches-later u c path place w (stored_again body r w t) v.reach
          (law.getwd-symlink stored place w.os t g) session)
        (law.lstat-symlink stored place w.os t g) (law.readlink-symlink stored place w.os t g)
        (law.read-symlink stored place stored content w.os t g h),
  )

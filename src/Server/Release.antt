-- ===== src/Server/Release.antt =====
-- The owners of a stored file: what `remove` does to it once the link is gone.
use dropbox_for_ctf.Base.{
  ◌-◌, ◌≡◌, true, false, some, [], ◌∷◌, arith, ltb, first_by, update_by, delete_by, if◌then◌else◌,
}
use dropbox_for_ctf.Text.{Bytes, str_eq}
use dropbox_for_ctf.FilePath.{ok}
use dropbox_for_ctf.Go.{next, ◌>>=◌}
use dropbox_for_ctf.Store.{Host, World, FileRow, execute, query_row, found, quiet, system, draw}
use dropbox_for_ctf.Server.Files.{release}

module _ {S : Type 0} (host : Host S) (path filename : Bytes) (r : FileRow) (w : World S)
    (stored : first_by (λ x. str_eq x.filename filename) w.files ≡ some r) where
  -- A file with another owner stays on disk, with one owner less. With its last owner the file goes
  -- from the disk, and its row from the table.
  release_counts :
      {s : S}
      → host.remove path w.os ≡ (ok tt, s)
      → release host path filename (quiet w) ≡ (
          if ltb 1 r.numowners
          then next [] (record w {
            files =
                update_by
                  (λ x. str_eq x.filename filename)
                  (λ x. record x { numowners = r.numowners - 1 })
                  w.files;
            faults = [];
          })
          else next [] (record w {
            os = s;
            files = delete_by (λ x. str_eq x.filename filename) w.files;
            faults = [];
          }))
  unfolding release query_row found execute system ◌>>=◌
  release_counts e = ground (arith, stored)

  -- If the query for the owners fails, the file goes from the disk and its row from the table, however
  -- many owners it has.
  pub release_fault :
      {s : S}
      → host.remove path w.os ≡ (ok tt, s)
      → release host path filename (record w { faults = false ∷ true ∷ [] })
        ≡ next [] (record w {
          os = s;
          files = delete_by (λ x. str_eq x.filename filename) w.files;
          faults = [];
        })
  unfolding release query_row found execute system draw ◌>>=◌
  release_fault e = ground (arith, stored)

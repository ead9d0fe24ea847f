-- ===== src/Server/Tests/Restart.antt =====
-- The theorems on the start and the end of the server at a small state.
use dropbox_for_ctf.Base.{◌≤◌, ◌≡◌, refl, [], ◌∷◌, ◌++◌, arith, count_by}
use dropbox_for_ctf.Text.{Bytes, lit, str_eq, split, join, itoa, pos}
use dropbox_for_ctf.FilePath.{ok, clean, abs}
use dropbox_for_ctf.Go.{next}
use dropbox_for_ctf.Store.{World, FileRow, quiet}
use dropbox_for_ctf.Server.Account.{abspath}
use dropbox_for_ctf.Server.Files.{store_new}
use dropbox_for_ctf.Server.Upload.{stored_new}
use dropbox_for_ctf.Server.Lifecycle.{start, finalizer, started}
use dropbox_for_ctf.Server.Restart.{IsStored, start-finalizer, start_overwrites}
use dropbox_for_ctf.Sample
use dropbox_for_ctf.Sample.{Disk, disk, world, memory, create, find, follow}
use dropbox_for_ctf.Sample.Lawful.{memory-IsLawful}

abbrev ended : Disk
ended = record disk { nodes = (lit "./filecount.txt", Sample.file (itoa 1)) ∷ disk.nodes }

start-finalizer_example :
    (finalizer memory world ≡ next tt (record world { os = ended }))
    × (start memory 2 (quiet (record world { os = ended }))
        ≡ next (pos 1) (quiet (record world { os = ended })))
unfolding memory
start-finalizer_example =
    start-finalizer memory memory-IsLawful world {s = ended} (omega arith) refl

-- The counter 1 is on disk.
abbrev counted : World Disk
counted = record world { os = ended }

abbrev stored_path : Bytes
stored_path = lit "/srv/filestore/file1"

abbrev first_link : Bytes
first_link = lit "/srv/userfs/alice/new"

abbrev second_link : Bytes
second_link = lit "/srv/userfs/bob/other"

abbrev first_written : Disk
first_written = record ended { nodes = (stored_path, Sample.file (5 ∷ [])) ∷ ended.nodes }

abbrev first_linked : Disk
first_linked = record ended { nodes = (first_link, Sample.link stored_path) ∷ first_written.nodes }

abbrev second_written : Disk
second_written = record ended { nodes = (stored_path, Sample.file (6 ∷ [])) ∷ first_linked.nodes }

abbrev second_linked : Disk
second_linked = record ended {
  nodes = (second_link, Sample.link stored_path) ∷ second_written.nodes;
}

first-IsStored : IsStored memory stored_path first_link (5 ∷ []) ended first_linked
unfolding memory lit str_eq
first-IsStored = record { written = first_written; writes = refl; links = refl }

second-IsStored : IsStored memory stored_path second_link (6 ∷ []) first_linked second_linked
unfolding memory lit str_eq
second-IsStored = record { written = second_written; writes = refl; links = refl }

abbrev left : World Disk
left = stored_new memory (5 ∷ []) (started 1 counted) first_linked

start_overwrites_example :
    (start memory 2 (quiet counted) ≡ next (pos 1) (quiet counted))
    × (store_new memory first_link (5 ∷ []) (5 ∷ []) (started 1 counted) ≡ next [] left)
    × (memory.read_file stored_path first_linked ≡ ok (5 ∷ []))
    × (start memory 2 (quiet left) ≡ next (pos 1) (quiet left))
    × (store_new memory second_link (6 ∷ []) (6 ∷ []) (started 1 left)
        ≡ next [] (stored_new memory (6 ∷ []) (started 1 left) second_linked))
    × (memory.read_file stored_path second_linked ≡ ok (6 ∷ []))
    × (2
        ≤ count_by
            (λ (r : FileRow). str_eq r.filename (lit "file" ++ itoa 1))
            (stored_new memory (6 ∷ []) (started 1 left) second_linked).files)
unfolding memory lit str_eq abspath abs clean split join itoa
start_overwrites_example =
    start_overwrites memory memory-IsLawful 1 stored_path first_link (5 ∷ []) second_link (6 ∷ [])
      counted {s = first_linked} {t = second_linked} (omega arith) refl refl first-IsStored refl
      refl second-IsStored

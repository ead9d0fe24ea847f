-- ===== src/Server/Restart.antt =====
-- What the counter of stored files is after a restart, with and without the finalizer.
use dropbox_for_ctf.Base.{
  ℕ, ◌≤◌, ◌<◌, ◌≡◌, refl, ◌∙◌, Bool, Bool-cases, inl, inr, List, true, some, [], ◌∷◌, ◌++◌, arith,
  count_by, first_by,
}
use dropbox_for_ctf.Base.{count_by-append, first_by-count_by}
use dropbox_for_ctf.Text.{Bytes, lit, str_eq, itoa, pos}
use dropbox_for_ctf.Text.Laws.{str_eq_refl}
use dropbox_for_ctf.Text.Numbers.{atoi-itoa, trim_newline-itoa}
use dropbox_for_ctf.FilePath.{ok}
use dropbox_for_ctf.Go.{next, ◌>>=◌}
use dropbox_for_ctf.Store.{Host, World, FileRow, access, system, draw, execute, quiet}
use dropbox_for_ctf.Server.Account.{abspath}
use dropbox_for_ctf.Server.Files.{store_new, abs_or}
use dropbox_for_ctf.Server.Upload.{IsLawful, stored_new}
use dropbox_for_ctf.Server.Lifecycle.{start, finalizer, started}

first_by-last :
    (p : FileRow → Bool) (rows : List FileRow) (r : FileRow)
    → p r ≡ true
    → (x : FileRow) × (first_by p (rows ++ r ∷ []) ≡ some x)
first_by-last p [] r hit = (r, rw hit refl)
first_by-last p (x ∷ rows) r hit =
    let (y, e) = first_by-last p rows r hit in
    elim (Bool-cases (p x)) [ inl here ↦ (x, rw here refl) | inr none ↦ (y, rw none e) ]

module _ {S : Type 0} (host : Host S) where
  -- A start reads the number that the file holds.
  start_reads :
      (n : ℕ) (w : World S)
      → n < 9223372036854775808
      → host.read_file (lit "./filecount.txt") w.os ≡ ok (itoa n)
      → start host 2 (quiet w) ≡ next (pos n) (quiet w)
  unfolding start ◌>>=◌ access draw
  start_reads n w small held = ground (arith, trim_newline-itoa n, atoi-itoa n small)

  -- The finalizer writes the counter, and if that does not fail the next start reads the same counter
  -- again: an orderly end and a start keep the numbering of the stored files.
  pub start-finalizer :
      IsLawful host
      → (w : World S) {s : S} → w.filecount < 9223372036854775808
      → host.write_file (lit "./filecount.txt") (itoa w.filecount) w.os ≡ (ok tt, s)
      → (finalizer host w ≡ next tt (record w { os = s }))
        × (start host 2 (quiet (record w { os = s }))
            ≡ next (pos w.filecount) (quiet (record w { os = s })))
  unfolding finalizer system ◌>>=◌
  start-finalizer law w {s} small written = (
    ground (arith, written),
    start_reads w.filecount (record w { os = s }) small
        (law.read-write (lit "./filecount.txt") (itoa w.filecount) w.os s written),
  )

  twice :
      (n : ℕ) (body : Bytes) (old : FileRow) (w : World S) (t : S)
      → first_by (λ r. str_eq r.filename (lit "file" ++ itoa n)) w.files ≡ some old
      → 2
        ≤ count_by
            (λ (r : FileRow). str_eq r.filename (lit "file" ++ itoa n))
            (stored_new host body (started n w) t).files
  twice n body old w t stands =
      let named : FileRow → Bool = λ r. str_eq r.filename (lit "file" ++ itoa n) in
      let new : FileRow = record {
        filename = lit "file" ++ itoa n;
        filehash = host.digest body;
        numowners = 1;
      } in
      let same : named new ≡ true = str_eq_refl (lit "file" ++ itoa n) in
      let one : count_by named (new ∷ []) ≡ 1 = rw same refl in
      omega (
        arith,
        count_by-append named w.files (new ∷ []),
        first_by-count_by named w.files stands,
        one,
      )

  -- The system calls that put a new body at `stored` and its link at `place`, each successful.
  pub record IsStored (stored place body : Bytes) (s t : S) : Type 0 where
    pub written : S
    pub writes : host.write_file stored body s ≡ (ok tt, written)
    pub links : host.symlink stored place written ≡ (ok tt, t)

  store_new_lem :
      (n : ℕ) (place stored body : Bytes) (w : World S) {t : S}
      → abspath host (lit "./filestore/file" ++ itoa n) w.os ≡ ok stored
      → IsStored stored place body w.os t
      → store_new host place (host.digest body) body (started n w)
        ≡ next [] (stored_new host body (started n w) t)
  unfolding store_new abs_or execute system ◌>>=◌
  store_new_lem n place stored body w e f = ground (arith, e, f.writes, f.links)

  new_row :
      (n : ℕ) (body : Bytes) (w : World S) (t : S)
      → (old : FileRow) × (first_by
            (λ r. str_eq r.filename (lit "file" ++ itoa n))
            (stored_new host body (started n w) t).files
          ≡ some old)
  new_row n body w t =
      first_by-last (λ r. str_eq r.filename (lit "file" ++ itoa n)) w.files
        (record { filename = lit "file" ++ itoa n; filehash = host.digest body; numowners = 1 })
        (str_eq_refl (lit "file" ++ itoa n))

  -- Between two starts no orderly end: the server starts with the number `n` of filecount.txt, stores a new
  -- body in the file of that number, and is gone without the finalizer, with the file filecount.txt as it
  -- was. The next start takes the same number, and the next new body is written over the first one: the
  -- stored file holds the second body, and two rows of the table have its name.
  pub start_overwrites :
      IsLawful host
      → (n : ℕ) (stored place body other later : Bytes) (w : World S) {s t : S}
      → n < 9223372036854775808
      → host.read_file (lit "./filecount.txt") w.os ≡ ok (itoa n)
      → abspath host (lit "./filestore/file" ++ itoa n) w.os ≡ ok stored
      → IsStored stored place body w.os s
      → host.read_file (lit "./filecount.txt") s ≡ host.read_file (lit "./filecount.txt") w.os
      → abspath host (lit "./filestore/file" ++ itoa n) s ≡ ok stored
      → IsStored stored other later s t
      → let left = stored_new host body (started n w) s in
        (start host 2 (quiet w) ≡ next (pos n) (quiet w))
        × (store_new host place (host.digest body) body (started n w) ≡ next [] left)
        × (host.read_file stored s ≡ ok body)
        × (start host 2 (quiet left) ≡ next (pos n) (quiet left))
        × (store_new host other (host.digest later) later (started n left)
            ≡ next [] (stored_new host later (started n left) t))
        × (host.read_file stored t ≡ ok later)
        × (2
            ≤ count_by
                (λ (r : FileRow). str_eq r.filename (lit "file" ++ itoa n))
                (stored_new host later (started n left) t).files)
  start_overwrites law n stored place body other later w {s} {t} small held e f kept g k =
      let left = stored_new host body (started n w) s in
      let (old, stands) = new_row n body w s in
      (
        start_reads n w small held,
        store_new_lem n place stored body w e f,
        law.read-symlink stored place stored body f.written s f.links
            (law.read-write stored body w.os f.written f.writes),
        start_reads n left small (kept ∙ held),
        store_new_lem n other stored later left g k,
        law.read-symlink stored other stored later k.written t k.links
            (law.read-write stored later s k.written k.writes),
        twice n later old left t stands,
      )

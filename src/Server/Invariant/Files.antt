-- ===== src/Server/Invariant/Files.antt =====
-- The invariant of `filedata`: every digest and every stored name stands once, the names are numbered
-- below the counter, and each file has an owner.
use dropbox_for_ctf.Base.{
  ℕ, ◌+◌, ◌≤◌, ◌<◌, ◌≡◌, refl, ◌∙◌, Bool, false, List, [], ◌∷◌, ◌++◌, arith, count_by,
  count_by-append, count_by-delete_by-le, delete_by, update_by, Bool-cases, inl, inr,
}
use dropbox_for_ctf.Text.{Bytes, lit, str_eq, itoa}
use dropbox_for_ctf.Text.Laws.{eq_of_str_eq, str_eq_refl, itoa-injective, append-left_cancel}
use dropbox_for_ctf.Store.{FileRow}

-- "file" and a number below the counter
abbrev pub IsNumbered : ℕ → Bytes → Type 0
IsNumbered c name = (n : ℕ) × (n < c) × (name ≡ lit "file" ++ itoa n)

abbrev pub IsFiles : ℕ → List FileRow → Type 0
IsFiles c [] = Unit
IsFiles c (f ∷ fs) =
    IsNumbered c f.filename
    × (1 ≤ f.numowners)
    × (count_by (λ r. str_eq r.filename f.filename) fs ≡ 0)
    × (count_by (λ r. str_eq r.filehash f.filehash) fs ≡ 0)
    × IsFiles c fs

-- A digest stands in the table once at most.
pub IsFiles-count-le :
    (c : ℕ) (h : Bytes) (fs : List FileRow)
    → IsFiles c fs
    → count_by (λ r. str_eq r.filehash h) fs ≤ 1
IsFiles-count-le c h [] v = omega arith
IsFiles-count-le c h (f ∷ fs) v =
    ground (arith, eq_of_str_eq f.filehash h, IsFiles-count-le c h fs v.4)

pub IsFiles-delete_by :
    (c : ℕ) (q : FileRow → Bool) (fs : List FileRow) → IsFiles c fs → IsFiles c (delete_by q fs)
IsFiles-delete_by c q [] v = tt
IsFiles-delete_by c q (f ∷ fs) v = elim (Bool-cases (q f)) [
  | inl gone ↦ rw gone (IsFiles-delete_by c q fs v.4)
  | inr kept ↦ rw kept (
    v.0,
    v.1,
    omega (arith, v.2, count_by-delete_by-le (λ (r : FileRow). str_eq r.filename f.filename) q fs),
    omega (arith, v.3, count_by-delete_by-le (λ (r : FileRow). str_eq r.filehash f.filehash) q fs),
    IsFiles-delete_by c q fs v.4,
  )
]

abbrev pub set_owners : ℕ → FileRow → FileRow
set_owners n r = record r { numowners = n }

-- A change of the owners leaves every count by name or digest.
count_by-set_owners :
    (p q : FileRow → Bool) (n : ℕ) (fs : List FileRow)
    → ((r : FileRow) → p (set_owners n r) ≡ p r)
    → count_by p (update_by q (set_owners n) fs) ≡ count_by p fs
count_by-set_owners p q n [] same = refl
count_by-set_owners p q n (f ∷ fs) same = ground (arith, same f, count_by-set_owners p q n fs same)

pub IsFiles-set_owners :
    (c : ℕ) (q : FileRow → Bool) (n : ℕ) (fs : List FileRow)
    → 1 ≤ n
    → IsFiles c fs
    → IsFiles c (update_by q (set_owners n) fs)
IsFiles-set_owners c q n [] owned v = tt
IsFiles-set_owners c q n (f ∷ fs) owned v =
    let byname = count_by-set_owners (λ r. str_eq r.filename f.filename) q n fs (λ r. refl) in
    let byhash = count_by-set_owners (λ r. str_eq r.filehash f.filehash) q n fs (λ r. refl) in
    elim (Bool-cases (q f)) [
      | inl hit ↦
          rw hit (v.0, owned, byname ∙ v.2, byhash ∙ v.3, IsFiles-set_owners c q n fs owned v.4)
      | inr other ↦
          rw other (v.0, v.1, byname ∙ v.2, byhash ∙ v.3, IsFiles-set_owners c q n fs owned v.4)
    ]

-- A name that is numbered below the counter is not the next one.
fresh_name : (c : ℕ) (name : Bytes) → IsNumbered c name → str_eq (lit "file" ++ itoa c) name ≡ false
fresh_name c name (n, below, e) = elim (Bool-cases (str_eq (lit "file" ++ itoa c) name)) [
  | inl same ↦ absurd (
      omega (
        arith,
        itoa-injective c n
            (append-left_cancel (lit "file") (itoa c) (itoa n) (eq_of_str_eq _ _ same ∙ e)),
      ))
  | inr differ ↦ differ
]

-- A new row under the counter's name, with a digest that is not there, and the counter moves on.
pub IsFiles-append :
    (c : ℕ) (h : Bytes) (fs : List FileRow)
    → IsFiles c fs
    → count_by (λ r. str_eq r.filehash h) fs ≡ 0
    → IsFiles
        (c + 1)
        (fs ++ record { filename = lit "file" ++ itoa c; filehash = h; numowners = 1 } ∷ [])
IsFiles-append c h [] v absent = ((c, omega arith, refl), omega arith, refl, refl, tt)
IsFiles-append c h (f ∷ fs) v absent =
    let new : FileRow = record { filename = lit "file" ++ itoa c; filehash = h; numowners = 1 } in
    let fresh = fresh_name c f.filename v.0 in
    (
      (v.0.0, omega (arith, v.0.1), v.0.2),
      v.1,
      ground (
        arith,
        v.2,
        fresh,
        count_by-append (λ (r : FileRow). str_eq r.filename f.filename) fs (new ∷ []),
      ),
      ground (
        arith,
        v.3,
        absent,
        eq_of_str_eq h f.filehash,
        str_eq_refl f.filehash,
        count_by-append (λ (r : FileRow). str_eq r.filehash f.filehash) fs (new ∷ []),
      ),
      IsFiles-append c h fs v.4 (ground (arith, absent)),
    )

-- ===== src/Server/Invariant/Shares.antt =====
-- The invariant of `sharedata`: a file is shared with a user once, never with its owner, and a
-- permission is 0 or 1.
use dropbox_for_ctf.Base.{
  ℕ, ◌≤◌, ◌≡◌, refl, ◌∙◌, Bool, false, List, [], ◌∷◌, ◌++◌, arith, count_by, count_by-append,
  count_by-delete_by-le, delete_by, update_by, Bool-cases, inl, inr,
}
use dropbox_for_ctf.Text.{Bytes, str_eq}
use dropbox_for_ctf.Text.Laws.{eq_of_str_eq, str_eq_refl}
use dropbox_for_ctf.Store.{ShareRow}
use dropbox_for_ctf.Server.Sharing.{is_share}

abbrev pub IsShares : List ShareRow → Type 0
IsShares [] = Unit
IsShares (s ∷ ss) =
    (str_eq s.sharer s.sharee ≡ false)
    × (s.perm ≤ 1)
    × (count_by (is_share s.sharer s.sharee s.origpath) ss ≡ 0)
    × IsShares ss

-- A file is shared with a user once at most.
pub IsShares-count-le :
    (u v p : Bytes) (ss : List ShareRow) → IsShares ss → count_by (is_share u v p) ss ≤ 1
IsShares-count-le u v p [] h = omega arith
IsShares-count-le u v p (s ∷ ss) h = ground (
  arith,
  eq_of_str_eq s.sharer u,
  eq_of_str_eq s.sharee v,
  eq_of_str_eq s.origpath p,
  IsShares-count-le u v p ss h.3,
)

pub IsShares-delete_by :
    (q : ShareRow → Bool) (ss : List ShareRow) → IsShares ss → IsShares (delete_by q ss)
IsShares-delete_by q [] h = tt
IsShares-delete_by q (s ∷ ss) h = elim (Bool-cases (q s)) [
  | inl gone ↦ rw gone (IsShares-delete_by q ss h.3)
  | inr kept ↦ rw kept (
    h.0,
    h.1,
    omega (arith, h.2, count_by-delete_by-le (is_share s.sharer s.sharee s.origpath) q ss),
    IsShares-delete_by q ss h.3,
  )
]

abbrev pub set_perm : ℕ → ShareRow → ShareRow
set_perm n r = record r { perm = n }

pub count_by-set_perm :
    (u v p : Bytes) (q : ShareRow → Bool) (n : ℕ) (ss : List ShareRow)
    → count_by (is_share u v p) (update_by q (set_perm n) ss) ≡ count_by (is_share u v p) ss
count_by-set_perm u v p q n [] = refl
count_by-set_perm u v p q n (s ∷ ss) = ground (arith, count_by-set_perm u v p q n ss)

pub IsShares-set_perm :
    (q : ShareRow → Bool) (n : ℕ) (ss : List ShareRow)
    → n ≤ 1
    → IsShares ss
    → IsShares (update_by q (set_perm n) ss)
IsShares-set_perm q n [] small h = tt
IsShares-set_perm q n (s ∷ ss) small h =
    let same = count_by-set_perm s.sharer s.sharee s.origpath q n ss in
    elim (Bool-cases (q s)) [
      | inl hit ↦ rw hit (h.0, small, same ∙ h.2, IsShares-set_perm q n ss small h.3)
      | inr other ↦ rw other (h.0, h.1, same ∙ h.2, IsShares-set_perm q n ss small h.3)
    ]

pub IsShares-append :
    (new : ShareRow) (ss : List ShareRow)
    → IsShares ss
    → count_by (is_share new.sharer new.sharee new.origpath) ss ≡ 0
    → str_eq new.sharer new.sharee ≡ false
    → new.perm ≤ 1
    → IsShares (ss ++ new ∷ [])
IsShares-append new [] h absent differ small = (differ, small, refl, tt)
IsShares-append new (s ∷ ss) h absent differ small = (
  h.0,
  h.1,
  ground (
    arith,
    absent,
    h.2,
    eq_of_str_eq new.sharer s.sharer,
    eq_of_str_eq new.sharee s.sharee,
    eq_of_str_eq new.origpath s.origpath,
    str_eq_refl s.sharer,
    str_eq_refl s.sharee,
    str_eq_refl s.origpath,
    count_by-append (is_share s.sharer s.sharee s.origpath) ss (new ∷ []),
  ),
  IsShares-append new ss h.3 (ground (arith, absent)) differ small,
)

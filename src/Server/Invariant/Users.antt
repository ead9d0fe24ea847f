-- ===== src/Server/Invariant/Users.antt =====
-- The invariant of `userdata`: no name twice, and no name with a slash.
use dropbox_for_ctf.Base.{
  ◌≤◌, ◌≡◌, refl, false, List, [], ◌∷◌, ◌++◌, arith, count_by, count_by-append,
}
use dropbox_for_ctf.Text.{Bytes, str_eq, contains_slash}
use dropbox_for_ctf.Text.Laws.{eq_of_str_eq, str_eq_refl}
use dropbox_for_ctf.Store.{UserRow}

abbrev pub IsUsers : List UserRow → Type 0
IsUsers [] = Unit
IsUsers (u ∷ us) =
    (count_by (λ r. str_eq r.username u.username) us ≡ 0)
    × (contains_slash u.username ≡ false)
    × IsUsers us

str_eq_comm_false : (s t : Bytes) → str_eq s t ≡ false → str_eq t s ≡ false
str_eq_comm_false s t h = ground (arith, eq_of_str_eq t s, str_eq_refl s)

-- A name stands in the table once at most.
pub IsUsers-count-le :
    (n : Bytes) (us : List UserRow) → IsUsers us → count_by (λ r. str_eq r.username n) us ≤ 1
IsUsers-count-le n [] h = omega arith
IsUsers-count-le n (u ∷ us) h = ground (arith, eq_of_str_eq u.username n, IsUsers-count-le n us h.2)

pub IsUsers-append :
    (us : List UserRow) (n p : Bytes)
    → IsUsers us
    → count_by (λ r. str_eq r.username n) us ≡ 0
    → contains_slash n ≡ false
    → IsUsers (us ++ record { username = n; passhash = p } ∷ [])
IsUsers-append [] n p h absent plain = (refl, plain, tt)
IsUsers-append (u ∷ us) n p h absent plain = ground (
  arith,
  IsUsers-append us n p h.2,
  str_eq_comm_false u.username n,
  count_by-append (λ (r : UserRow). str_eq r.username u.username) us
      (record { username = n; passhash = p } ∷ []),
)

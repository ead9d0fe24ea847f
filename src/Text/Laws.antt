-- ===== src/Text/Laws.antt =====
-- Laws of the string functions.
use dropbox_for_ctf.Base.{
  ℕ, zero, suc, ◌+◌, ◌/◌, ◌%◌, ◌≤◌, ◌≡◌, refl, ◌↔◌, true, [], ◌∷◌, ◌++◌, arith, ap, ◌∙◌, sym,
}
use dropbox_for_ctf.Text.{
  Bytes, str_eq, has_prefix, drop_prefix, trim_prefix, itoa, decimal, read_from,
}

pub str_eq_refl : (s : Bytes) → str_eq s s ≡ true
unfolding str_eq
str_eq_refl [] = refl
str_eq_refl (c ∷ s) = ground (arith, str_eq_refl s)

pub eq_of_str_eq : (s t : Bytes) → str_eq s t ≡ true → s ≡ t
unfolding str_eq
eq_of_str_eq [] [] h = refl
eq_of_str_eq [] (d ∷ t) h = cc
eq_of_str_eq (c ∷ s) [] h = cc
eq_of_str_eq (c ∷ s) (d ∷ t) h = ground (arith, eq_of_str_eq s t)

pub str_eq_iff : (s t : Bytes) → (str_eq s t ≡ true) ↔ (s ≡ t)
str_eq_iff s t = (eq_of_str_eq s t, λ e. rw e (str_eq_refl t))

pub has_prefix-append : (p s : Bytes) → has_prefix (p ++ s) p ≡ true
unfolding has_prefix
has_prefix-append [] s = refl
has_prefix-append (c ∷ p) s = ground (arith, has_prefix-append p s)

append-drop_prefix : (s p : Bytes) → has_prefix s p ≡ true → s ≡ p ++ drop_prefix s p
unfolding has_prefix drop_prefix
append-drop_prefix s [] h = refl
append-drop_prefix [] (d ∷ p) h = cc
append-drop_prefix (c ∷ s) (d ∷ p) h = ground (arith, append-drop_prefix s p)

drop_prefix-append : (p s : Bytes) → drop_prefix (p ++ s) p ≡ s
unfolding drop_prefix
drop_prefix-append [] s = refl
drop_prefix-append (c ∷ p) s = drop_prefix-append p s

-- A text with a prefix is the prefix followed by what `strings.TrimPrefix` leaves.
pub append-trim_prefix : (s p : Bytes) → has_prefix s p ≡ true → s ≡ p ++ trim_prefix s p
unfolding trim_prefix
append-trim_prefix s p h = rw h (append-drop_prefix s p h)

trim_prefix-append : (p s : Bytes) → trim_prefix (p ++ s) p ≡ s
unfolding trim_prefix
trim_prefix-append p s = rw has_prefix-append (drop_prefix-append p s)

-- Reading what `decimal` wrote: the number `n` is put in front of what `out` spells.
read_from-decimal :
    (k n v : ℕ) (out : Bytes) → n ≤ k → v ≡ n → read_from 0 (decimal k n out) ≡ read_from v out
unfolding decimal read_from
read_from-decimal zero n v out h e = ground arith
read_from-decimal (suc k) n v out h e =
    ground (arith, read_from-decimal k (n / 10) (n / 10) ((b'0' + n % 10) ∷ out))

pub read_from-itoa : (n : ℕ) → read_from 0 (itoa n) ≡ n
unfolding itoa read_from
read_from-itoa n = ground (arith, read_from-decimal n n n [])

-- Different numbers have different decimal texts.
pub itoa-injective : (m n : ℕ) → itoa m ≡ itoa n → m ≡ n
itoa-injective m n e = sym (read_from-itoa m) ∙ ap (read_from 0) e ∙ read_from-itoa n

pub append-left_cancel : (p s t : Bytes) → p ++ s ≡ p ++ t → s ≡ t
append-left_cancel [] s t e = e
append-left_cancel (c ∷ p) s t e = append-left_cancel p s t (cc e)

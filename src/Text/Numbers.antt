-- ===== src/Text/Numbers.antt =====
-- Decimal texts: what `strconv.Atoi` reads of what `strconv.Itoa` wrote.
use dropbox_for_ctf.Base.{
  ℕ, zero, suc, ◌+◌, ◌/◌, ◌%◌, ◌≤◌, ◌<◌, ◌≡◌, ◌≢◌, refl, true, some, [], ◌∷◌, arith, ap, ◌∙◌,
}
use dropbox_for_ctf.Text.{
  Bytes, length, itoa, decimal, read_from, all_digits, pos, bounded, atoi, trim_newline,
}
use dropbox_for_ctf.Text.Laws.{read_from-itoa}

all_digits-decimal :
    (k n : ℕ) (out : Bytes) → all_digits out ≡ true → all_digits (decimal k n out) ≡ true
unfolding decimal all_digits
all_digits-decimal zero n out h = h
all_digits-decimal (suc k) n out h =
    ground (arith, all_digits-decimal k (n / 10) ((b'0' + n % 10) ∷ out))

all_digits-itoa : (n : ℕ) → all_digits (itoa n) ≡ true
unfolding itoa all_digits
all_digits-itoa n = ground (arith, all_digits-decimal n n [])

length-decimal : (k n : ℕ) (out : Bytes) → length out ≤ length (decimal k n out)
unfolding decimal
length-decimal zero n out = omega arith
length-decimal (suc k) n out = ground (arith, length-decimal k (n / 10) ((b'0' + n % 10) ∷ out))

decimal-nonempty : (n : ℕ) → n ≢ 0 → 0 < length (decimal n n [])
unfolding decimal
decimal-nonempty zero h = absurd (h refl)
decimal-nonempty (suc k) h =
    ground (arith, length-decimal k (suc k / 10) ((b'0' + suc k % 10) ∷ []))

length-itoa-positive : (n : ℕ) → 0 < length (itoa n)
unfolding itoa
length-itoa-positive n = ground (arith, decimal-nonempty n)

atoi-digits :
    (s : Bytes)
    → all_digits s ≡ true
    → 0 < length s
    → read_from 0 s < 9223372036854775808
    → atoi s ≡ some (pos (read_from 0 s))
unfolding atoi bounded all_digits
atoi-digits [] h some_digit small = ground arith
atoi-digits (c ∷ s) h some_digit small = ground arith

pub atoi-itoa : (n : ℕ) → n < 9223372036854775808 → atoi (itoa n) ≡ some (pos n)
atoi-itoa n small =
    atoi-digits (itoa n) (all_digits-itoa n) (length-itoa-positive n) (rw (read_from-itoa n) small)
    ∙ ap (λ m. some (pos m)) (read_from-itoa n)

trim_newline-digits : (s : Bytes) → all_digits s ≡ true → trim_newline s ≡ s
unfolding trim_newline all_digits
trim_newline-digits [] h = refl
trim_newline-digits (c ∷ []) h = ground arith
trim_newline-digits (c ∷ d ∷ s) h = ground (arith, trim_newline-digits (d ∷ s))

pub trim_newline-itoa : (n : ℕ) → trim_newline (itoa n) ≡ itoa n
trim_newline-itoa n = trim_newline-digits (itoa n) (all_digits-itoa n)

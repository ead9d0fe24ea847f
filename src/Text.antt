-- ===== src/Text.antt =====
-- Go strings and byte slices, as lists of bytes, with the functions of `strings` and `strconv` that
-- server/server.go calls.
pub mod Laws
pub mod Split
pub mod Numbers
use Prim.Native.Char.{code}
use Prim.Native.String
use dropbox_for_ctf.Base.{
  ℕ, zero, suc, ◌+◌, ◌-◌, ◌*◌, ◌/◌, ◌%◌, String, Bool, true, false, not, ◌&&◌, ◌||◌, Option, none,
  some, List, [], ◌∷◌, ◌++◌, ltb, ◌==◌, if◌then◌else◌,
}

abbrev pub Bytes : Type 0
Bytes = List ℕ

codes : String → Bytes
codes String.[] = []
codes (String.◌∷◌ c s) = code c ∷ codes s

-- A string literal of the source, all of which are ASCII.
unfoldable pub lit : String → Bytes
unfolding codes
lit s = codes s

-- `a == b` on strings
unfoldable pub str_eq : Bytes → Bytes → Bool
str_eq [] [] = true
str_eq [] (d ∷ t) = false
str_eq (c ∷ s) [] = false
str_eq (c ∷ s) (d ∷ t) = c == d && str_eq s t

-- `len(s)`
abbrev pub length : Bytes → ℕ
length [] = 0
length (c ∷ s) = suc (length s)

-- `strings.HasPrefix`
unfoldable pub has_prefix : Bytes → Bytes → Bool
has_prefix s [] = true
has_prefix [] (d ∷ p) = false
has_prefix (c ∷ s) (d ∷ p) = c == d && has_prefix s p

-- what is left behind a prefix as long as `p`
drop_prefix : Bytes → Bytes → Bytes
drop_prefix s [] = s
drop_prefix [] (d ∷ p) = []
drop_prefix (c ∷ s) (d ∷ p) = drop_prefix s p

-- `strings.TrimPrefix`
unfoldable pub trim_prefix : Bytes → Bytes → Bytes
unfolding has_prefix drop_prefix
trim_prefix s p = if has_prefix s p then drop_prefix s p else s

abbrev pub slash : ℕ
slash = b'/'

-- `strings.Contains(s, "/")`
unfoldable pub contains_slash : Bytes → Bool
contains_slash [] = false
contains_slash (c ∷ s) = c == slash || contains_slash s

onto_first : ℕ → List Bytes → List Bytes
onto_first c [] = (c ∷ []) ∷ []
onto_first c (p ∷ ps) = (c ∷ p) ∷ ps

-- `strings.Split(s, "/")`
unfoldable pub split : Bytes → List Bytes
unfolding onto_first
split [] = [] ∷ []
split (c ∷ s) = if c == slash then [] ∷ split s else onto_first c (split s)

-- `strings.Join(ps, "/")`
unfoldable pub join : List Bytes → Bytes
join [] = []
join (p ∷ []) = p
join (p ∷ q ∷ ps) = p ++ slash ∷ join (q ∷ ps)

-- The decimal digits of a positive number, on fuel.
decimal : ℕ → ℕ → Bytes → Bytes
decimal zero n out = out
decimal (suc k) n out =
    let rest = decimal k (n / 10) ((b'0' + n % 10) ∷ out) in if n == 0 then out else rest

-- `strconv.Itoa` of a count, which is never negative here
unfoldable pub itoa : ℕ → Bytes
unfolding decimal
itoa n = if n == 0 then b'0' ∷ [] else decimal n n []

-- The number that decimal digits spell, behind the number `v`.
unfoldable pub read_from : ℕ → Bytes → ℕ
read_from v [] = v
read_from v (c ∷ s) = read_from (v * 10 + (c - b'0')) s

abbrev pub is_digit : ℕ → Bool
is_digit c = not (ltb c b'0') && not (ltb b'9' c)

unfoldable pub all_digits : Bytes → Bool
all_digits [] = true
all_digits (c ∷ s) = is_digit c && all_digits s

-- An `int`: `neg n` is the negative of `n`.
pub data Number : Type 0 where
  pos neg : ℕ → Number

-- The digits' number, if it is below the limit.
unfoldable pub bounded : (ℕ → Number) → ℕ → Bytes → Option Number
unfolding read_from all_digits
bounded sign limit [] = none
bounded sign limit (c ∷ s) =
    if all_digits (c ∷ s) && ltb (read_from 0 (c ∷ s)) limit
    then some (sign (read_from 0 (c ∷ s)))
    else none

-- `strconv.Atoi` with an `int` of 64 bits
unfoldable pub atoi : Bytes → Option Number
unfolding bounded
atoi [] = none
atoi (c ∷ s) =
    if c == b'-'
    then bounded neg 9223372036854775809 s
    else (if c == b'+'
        then bounded pos 9223372036854775808 s
        else bounded pos 9223372036854775808 (c ∷ s))

-- `strings.TrimSuffix(s, "\n")`
unfoldable pub trim_newline : Bytes → Bytes
trim_newline [] = []
trim_newline (c ∷ []) = if c == b'\n' then [] else c ∷ []
trim_newline (c ∷ d ∷ s) = c ∷ trim_newline (d ∷ s)

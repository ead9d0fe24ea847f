-- ===== src/Client/Shell/Words.antt =====
-- The words that are typed in a line, and the fields that RunCLI makes of the line.
use dropbox_for_ctf.Base.{ℕ, ◌≡◌, refl, true, false, List, [], ◌∷◌, ◌++◌, arith, All}
use dropbox_for_ctf.Text.{Bytes}
use dropbox_for_ctf.Client.Shell.{fields, split_fields, is_space}

-- A text that is not empty and has no blank in it.
abbrev pub IsWord : Bytes → Type 0
IsWord [] = ⊥
IsWord (c ∷ s) = All (λ b. is_space b ≡ false) (c ∷ s)

-- The words with one blank between them.
abbrev pub typed : List Bytes → Bytes
typed [] = []
typed (w ∷ []) = w
typed (w ∷ v ∷ ws) = w ++ b' ' ∷ typed (v ∷ ws)

split_fields-word :
    (c : ℕ) (s : Bytes)
    → All (λ b. is_space b ≡ false) (c ∷ s)
    → split_fields (c ∷ s) ≡ (true, (c ∷ s) ∷ [])
split_fields-word c [] h = ground (arith, h.0)
split_fields-word c (d ∷ s) h = ground (arith, h.0, split_fields-word d s h.1)

split_fields-before :
    (c : ℕ) (s rest : Bytes)
    → All (λ b. is_space b ≡ false) (c ∷ s)
    → split_fields (c ∷ s ++ b' ' ∷ rest) ≡ (true, (c ∷ s) ∷ fields rest)
unfolding fields
split_fields-before c [] rest h = ground (arith, h.0)
split_fields-before c (d ∷ s) rest h = ground (arith, h.0, split_fields-before d s rest h.1)

-- The fields of a line are the words that were typed, in their order.
pub fields-typed : (ws : List Bytes) → All IsWord ws → fields (typed ws) ≡ ws
unfolding fields
fields-typed [] h = refl
fields-typed ([] ∷ ws) h = absurd h.0
fields-typed ((c ∷ s) ∷ []) h = ground (arith, split_fields-word c s h.0)
fields-typed ((c ∷ s) ∷ v ∷ ws) h =
    ground (arith, split_fields-before c s (typed (v ∷ ws)) h.0, fields-typed (v ∷ ws) h.1)

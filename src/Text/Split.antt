-- ===== src/Text/Split.antt =====
-- `strings.Split` and `strings.Join` at slashes.
use dropbox_for_ctf.Base.{
  ℕ, ◌≡◌, ◌≢◌, refl, ◌∙◌, false, List, [], ◌∷◌, ◌++◌, arith, ◌==◌, All, Bool-cases, inl, inr,
}
use dropbox_for_ctf.Text.{Bytes, slash, contains_slash, onto_first, split, join}

-- `split` gives one part at least.
split-ne-nil : (s : Bytes) → split s ≢ []
unfolding split
split-ne-nil [] = λ e. cc e
split-ne-nil (c ∷ s) = ground (arith, split-ne-nil s)

onto_first-append :
    (c : ℕ) (ps qs : List Bytes) → ps ≢ [] → onto_first c (ps ++ qs) ≡ onto_first c ps ++ qs
unfolding onto_first
onto_first-append c [] qs h = absurd (h refl)
onto_first-append c (p ∷ ps) qs h = refl

pub split-append : (s t : Bytes) → split (s ++ slash ∷ t) ≡ split s ++ split t
unfolding split
split-append [] t = refl
split-append (c ∷ s) t =
    ground (arith, split-append s t, onto_first-append c (split s) (split t) (split-ne-nil s))

pub split_plain : (s : Bytes) → contains_slash s ≡ false → split s ≡ s ∷ []
unfolding split contains_slash
split_plain [] h = refl
split_plain (c ∷ s) h = ground (arith, split_plain s)

-- Parts without a slash come back from their join.
pub split-join :
    (p : Bytes) (ps : List Bytes)
    → All (λ s. contains_slash s ≡ false) (p ∷ ps)
    → split (join (p ∷ ps)) ≡ p ∷ ps
unfolding join
split-join p [] h = split_plain p h.0
split-join p (q ∷ ps) h =
    split-append p (join (q ∷ ps)) ∙ rw (split_plain p h.0, split-join q ps h.1)

-- No part of a split holds a slash.
pub split-All : (s : Bytes) → All (λ p. contains_slash p ≡ false) (split s)
unfolding split contains_slash
split-All [] = (refl, tt)
split-All (c ∷ s) = elim (Bool-cases (c == slash)) [
  | inl same ↦ rw same (refl, split-All s)
  | inr other ↦ rw other (onto c other (split s) (split-All s))
]
  where
    onto :
        (c : ℕ)
        → (c == slash) ≡ false
        → (ps : List Bytes) → All (λ p. contains_slash p ≡ false) ps
        → All (λ p. contains_slash p ≡ false) (onto_first c ps)
    onto c e [] h = (ground arith, tt)
    onto c e (p ∷ ps) h = (ground (arith, h.0), h.1)

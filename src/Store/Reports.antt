-- ===== src/Store/Reports.antt =====
-- Functions that read the state and change nothing: they report a value, or the database fails and
-- ends the process. The only trace is in the failures still to come.
use dropbox_for_ctf.Base.{◌≡◌, refl, sym, Bool, true, false, ℕ, List, [], ◌∷◌}
use mathlib.Core.Path.{subst, subst₂}
use dropbox_for_ctf.Go.{Outcome, next, ret, exit, hang, Body, Func, ◌>>=◌, call}
use dropbox_for_ctf.Store.{World, draw, query_row, or_exit, found, count}

module _ {S : Type 0} where
  -- The state is `w` but for the failures still to come.
  abbrev pub Same : World S → World S → Type 0
  Same w w' = (fs : List Bool) × (w' ≡ record w { faults = fs })

  -- The function ends with a value of `T`, or the process ends, in the state `w`.
  abbrev pub Reports : {A : Type 0} → World S → (A → Type 0) → Outcome (World S) A A → Type 0
  Reports w T (next a w') = T a × Same w w'
  Reports w T (ret a w') = T a × Same w w'
  Reports w T (exit w') = Same w w'
  Reports w T (hang w') = ⊥

  pub Same-refl : (w : World S) → Same w w
  Same-refl w = (w.faults, refl)

module _ {S : Type 0} (R : Type 0) (f : World S → ℕ) (w : World S) where
  -- A count gives the number of the state, or the process ends.
  abbrev Counts : Outcome (World S) R ℕ → Type 0
  Counts (next n v) =
      (fs : List Bool) × (v ≡ record w { faults = fs }) × (n ≡ f (record w { faults = fs }))
  Counts (ret r v) = ⊥
  Counts (exit v) = Same w v
  Counts (hang v) = ⊥

  count_at : (fs : List Bool) → Counts (count f (record w { faults = fs }))
  unfolding count query_row or_exit found draw ◌>>=◌
  count_at [] = ([], refl, refl)
  count_at (true ∷ fs) = (fs, refl)
  count_at (false ∷ []) = ([], refl, refl)
  count_at (false ∷ true ∷ fs) = (fs, refl)
  count_at (false ∷ false ∷ fs) = (fs, refl, refl)

module _ {S B : Type 0} (w : World S) (U : B → Type 0) where
  Reports-after_count :
      (f : World S → ℕ) (k : ℕ → Body (World S) B B)
      → ((fs : List Bool)
          → Reports w U (k (f (record w { faults = fs })) (record w { faults = fs })))
      → (o : Outcome (World S) B ℕ) → Counts B f w o
      → Reports w U (elim o as (λ _. Outcome (World S) B B) [
        | next a w' ↦ k a w'
        | ret r w' ↦ ret r w'
        | exit w' ↦ exit w'
        | hang w' ↦ hang w'
      ])
  Reports-after_count f k r (next n v) h =
      subst₂ (λ m x. Reports w U (k m x)) (sym h.2) (sym h.1) (r h.0)
  Reports-after_count f k r (ret a v) h = absurd h
  Reports-after_count f k r (exit v) h = h
  Reports-after_count f k r (hang v) h = absurd h

  -- A count, and what its function does with the number.
  pub Reports-count :
      (f : World S → ℕ) (k : ℕ → Body (World S) B B)
      → ((fs : List Bool)
          → Reports w U (k (f (record w { faults = fs })) (record w { faults = fs })))
      → Reports w U ((count f >>= k) w)
  unfolding ◌>>=◌
  Reports-count f k r = Reports-after_count f k r (count f w) (count_at B f w w.faults)

module _ {S A B : Type 0} (w : World S) (T : A → Type 0) (U : B → Type 0) where
  Reports-after :
      (f : A → Body (World S) B B)
      → ((a : A) (fs : List Bool) → T a → Reports w U (f a (record w { faults = fs })))
      → (o : Outcome (World S) A A) → Reports w T o
      → Reports w U (
          unfold ◌>>=◌ in
          ((λ v. elim o as (λ _. Outcome (World S) B A) [
            | next a w' ↦ next a w'
            | ret r w' ↦ next r w'
            | exit w' ↦ exit w'
            | hang w' ↦ hang w'
          ])
              >>= f)
            w)
  unfolding ◌>>=◌
  Reports-after f k (next a v) h = subst (λ x. Reports w U (f a x)) (sym h.1.1) (k a h.1.0 h.0)
  Reports-after f k (ret a v) h = subst (λ x. Reports w U (f a x)) (sym h.1.1) (k a h.1.0 h.0)
  Reports-after f k (exit v) h = h
  Reports-after f k (hang v) h = h

  -- A call that only reports, and what its function does with the value.
  pub Reports-call :
      (m : Func (World S) A) (f : A → Body (World S) B B)
      → Reports w T (m w)
      → ((a : A) (fs : List Bool) → T a → Reports w U (f a (record w { faults = fs })))
      → Reports w U ((call m >>= f) w)
  unfolding ◌>>=◌
  Reports-call m f h k = Reports-after f k (m w) h

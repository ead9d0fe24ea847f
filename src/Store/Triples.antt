-- ===== src/Store/Triples.antt =====
-- Pre- and postconditions for database access and system calls.
use dropbox_for_ctf.Base.{◌≡◌, refl, if◌then◌else◌, Bool, true, false, ℕ, some, List, [], ◌∷◌}
use dropbox_for_ctf.FilePath.{Result}
use dropbox_for_ctf.Go.{Body, pure, exit_process, gets}
use dropbox_for_ctf.Go.Triple.{Ends, Triple, Triple-bind, Triple-modify}
use dropbox_for_ctf.Store.{
  World, Scan, row, no_rows, failed, found, draw, access, prepare, run, execute, query_row, or_exit,
  system, count,
}
use dropbox_for_ctf.Store.Rules.{IsCalm, IsInner}

-- What is known of the state behind the scan of a count.
abbrev Counted : {S : Type 0} → (World S → Type 0) → (World S → ℕ) → Scan ℕ → World S → Type 0
Counted P f (row n) w = P w × (f w ≡ n)
Counted P f no_rows w = P w
Counted P f failed w = P w

module _ {S : Type 0} {P I : World S → Type 0} (inner : IsCalm P)
    (weaken : (w : World S) → P w → I w) where
  Ends-draw :
      (R : Type 0) (fs : List Bool) (w : World S) → P w → Ends {R = R} (λ _. P) I (draw fs w)
  unfolding draw
  Ends-draw R [] w h = h
  Ends-draw R (b ∷ bs) w h = inner.faults w bs h

  Triple-access : {R : Type 0} → Triple {R = R} P (λ _. P) I access
  unfolding access
  Triple-access {R} = record { at = λ w h. Ends-draw R w.faults w h }

module _ {S R : Type 0} {P I : World S → Type 0} where
  Triple-exit_if :
      {A : Type 0} {Q : A → World S → Type 0} (b : Bool) (m : Body (World S) R A)
      → ((w : World S) → P w → I w)
      → Triple P Q I m
      → Triple P Q I (if b then exit_process else m)
  unfolding exit_process
  Triple-exit_if true m weaken t = record { at = weaken }
  Triple-exit_if false m weaken t = t

  Triple-pure_keep : {A : Type 0} (a : A) → Triple {R = R} P (λ _. P) I (pure a)
  unfolding pure
  Triple-pure_keep a = record { at = λ w h. h }

  counted :
      (f : World S → ℕ) (bad : Bool)
      → Triple {R = R} P
          (Counted P f)
          I
          (if bad then pure failed else gets (λ w. found (some (f w))))
  unfolding pure gets found
  counted f true = record { at = λ w h. h }
  counted f false = record { at = λ w h. (h, refl) }

  scanned :
      (f : World S → ℕ)
      → ((w : World S) → P w → I w)
      → (r : Scan ℕ) → Triple {R = R} (Counted P f r) (λ n w. P w × (f w ≡ n)) I (or_exit r)
  unfolding or_exit pure exit_process
  scanned f weaken (row n) = record { at = λ w h. h }
  scanned f weaken no_rows = record { at = weaken }
  scanned f weaken failed = record { at = weaken }

  pub Triple-prepare : IsCalm P → ((w : World S) → P w → I w) → Triple {R = R} P (λ _. P) I prepare
  unfolding prepare
  Triple-prepare inner weaken =
      Triple-bind _ _ (Triple-access inner weaken)
        λ b. Triple-exit_if b _ weaken (Triple-pure_keep tt)

  pub Triple-run :
      {M : World S → Type 0} (f : World S → World S)
      → IsCalm P
      → ((w : World S) → P w → I w)
      → ((w : World S) → P w → M (f w))
      → Triple {R = R} P (λ _. M) I (run f)
  unfolding run
  Triple-run f inner weaken k =
      Triple-bind _ _ (Triple-access inner weaken)
        λ b. Triple-exit_if b _ weaken (Triple-modify f k)

  pub Triple-execute :
      {M : World S → Type 0} (f : World S → World S)
      → IsCalm P
      → ((w : World S) → P w → I w)
      → ((w : World S) → P w → M (f w))
      → Triple {R = R} P (λ _. M) I (execute f)
  unfolding execute
  Triple-execute f inner weaken k =
      Triple-bind _ _ (Triple-prepare inner weaken) λ _. Triple-run f inner weaken k

  -- The count is that of the state, for as long as the predicate lasts.
  pub Triple-count :
      (f : World S → ℕ)
      → IsCalm P
      → ((w : World S) → P w → I w)
      → Triple {R = R} P (λ n w. P w × (f w ≡ n)) I (count f)
  unfolding count query_row or_exit found
  Triple-count f inner weaken =
      Triple-bind {M = Counted P f} _ _
        (Triple-bind _ _ (Triple-prepare inner weaken)
          λ _. Triple-bind _ _ (Triple-access inner weaken) (counted f))
        (scanned f weaken)

  pub Triple-system :
      {A : Type 0} (f : S → Result A × S) → IsInner P → Triple {R = R} P (λ _. P) I (system f)
  unfolding system
  Triple-system f inner = record { at = λ w h. inner.os w _ h }

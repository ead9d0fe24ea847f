-- ===== src/Store/Rules.antt =====
-- Invariant rules for database access and system calls.
use dropbox_for_ctf.Base.{Bool, ℕ, Option, List, [], ◌∷◌}
use dropbox_for_ctf.FilePath.{Result}
use dropbox_for_ctf.Go.Keeps.{After, Keeps, keeps_rules, Keeps-modify}
use dropbox_for_ctf.Store.{
  World, Scan, row, no_rows, failed, draw, access, prepare, run, execute, query_row, or_exit, query,
  system, count,
}

-- The predicate does not look at the operating system.
pub record IsInner {S : Type 0} (P : World S → Type 0) : Type 0 where
  pub os : (w : World S) (s : S) → P w → P (record w { os = s })

-- The predicate does not look at the failures to come.
pub record IsCalm {S : Type 0} (P : World S → Type 0) : Type 0 where
  pub faults : (w : World S) (fs : List Bool) → P w → P (record w { faults = fs })

module _ {S : Type 0} {P : World S → Type 0} where
  After-draw :
      (R : Type 0) → IsCalm P → (fs : List Bool) (w : World S) → P w → After {R = R} P (draw fs w)
  unfolding draw
  After-draw R inner [] w h = h
  After-draw R inner (b ∷ bs) w h = inner.faults w bs h

module _ {S R : Type 0} {P : World S → Type 0} where
  pub Keeps-access : IsCalm P → Keeps {R = R} P access
  unfolding access
  Keeps-access inner = record { at = λ w h. After-draw R inner w.faults w h }

  pub Keeps-prepare : IsCalm P → Keeps {R = R} P prepare
  unfolding prepare
  Keeps-prepare inner = search (keeps_rules, Keeps-access)

  pub Keeps-run :
      (f : World S → World S) → IsCalm P → ((w : World S) → P w → P (f w)) → Keeps {R = R} P (run f)
  unfolding run
  Keeps-run f inner k = search (keeps_rules, Keeps-access, Keeps-modify) depth 8

  pub Keeps-execute :
      (f : World S → World S)
      → IsCalm P
      → ((w : World S) → P w → P (f w))
      → Keeps {R = R} P (execute f)
  unfolding execute
  Keeps-execute f inner k = search (keeps_rules, Keeps-prepare, Keeps-run) depth 8

module _ {S R A : Type 0} {P : World S → Type 0} where
  pub Keeps-query_row : (f : World S → Option A) → IsCalm P → Keeps {R = R} P (query_row f)
  unfolding query_row
  Keeps-query_row f inner = search (keeps_rules, Keeps-access, Keeps-prepare) depth 8

  pub Keeps-or_exit : (r : Scan A) → Keeps {R = R} P (or_exit r)
  unfolding or_exit
  Keeps-or_exit (row a) = search keeps_rules
  Keeps-or_exit no_rows = search keeps_rules
  Keeps-or_exit failed = search keeps_rules

  pub Keeps-query : (f : World S → List A) → IsCalm P → Keeps {R = R} P (query f)
  unfolding query
  Keeps-query f inner = search (keeps_rules, Keeps-access, Keeps-prepare) depth 8

  pub Keeps-system : (f : S → Result A × S) → IsInner P → Keeps {R = R} P (system f)
  unfolding system
  Keeps-system f inner = record { at = λ w h. inner.os w _ h }

module _ {S R : Type 0} {P : World S → Type 0} where
  pub Keeps-count : (f : World S → ℕ) → IsCalm P → Keeps {R = R} P (count f)
  unfolding count
  Keeps-count f inner = search (keeps_rules, Keeps-query_row, Keeps-or_exit)

pub ruleset store_rules = (
  keeps_rules, Keeps-prepare, Keeps-run, Keeps-execute, Keeps-query_row, Keeps-or_exit, Keeps-query,
  Keeps-system, Keeps-count,
)

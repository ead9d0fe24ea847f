-- ===== src/Go.antt =====
-- A Go function body over a state `W`: it goes on with a value, returns early, or ends the process
-- by `os.Exit`. A loop of the model that runs out of fuel hangs.
pub mod Keeps
pub mod Triple
pub mod Step
use dropbox_for_ctf.Base.{Bool, true, false}
use dropbox_for_ctf.FilePath.{Result, ok, err}
use dropbox_for_ctf.Text.{Bytes}

pub data Outcome (W : Type 0) (R : Type 0) (A : Type 0) : Type 0 where
  next : A → W → Outcome W R A
  ret : R → W → Outcome W R A
  exit : W → Outcome W R A
  hang : W → Outcome W R A

-- Statements inside a function whose result type is `R`.
abbrev pub Body : Type 0 → Type 0 → Type 0 → Type 0
Body W R A = W → Outcome W R A

-- A whole function: falling off its end with a value returns that value.
abbrev pub Func : Type 0 → Type 0 → Type 0
Func W R = Body W R R

module _ {W R A : Type 0} where
  unfoldable pub pure : A → Body W R A
  pure a w = next a w

  -- `return r`
  unfoldable pub return : R → Body W R A
  return r w = ret r w

  -- `os.Exit(1)`
  unfoldable pub exit_process : Body W R A
  exit_process w = exit w

  unfoldable pub gets : (W → A) → Body W R A
  gets f w = next (f w) w

  -- `v, err := …; if err != nil { return f(err) }`
  unfoldable pub or_return : Result A → (Bytes → R) → Body W R A
  or_return (ok a) f w = next a w
  or_return (err e) f w = ret (f e) w

module _ {W R : Type 0} where
  unfoldable pub modify : (W → W) → Body W R (Unit {0})
  modify f w = next tt (f w)

  -- `if b { return r }`
  unfoldable pub return_if : Bool → R → Body W R (Unit {0})
  return_if true r w = ret r w
  return_if false r w = next tt w

-- The call of a function: its return ends the call alone.
unfoldable pub call : {W R A : Type 0} → Func W A → Body W R A
call m w = elim (m w) [
  | next a w' ↦ next a w'
  | ret a w' ↦ next a w'
  | exit w' ↦ exit w'
  | hang w' ↦ hang w'
]

infixl 5 ◌>>=◌ ◌>>◌
-- opening this opens every other way to build a body, too
unfoldable pub ◌>>=◌ : {W R A B : Type 0} → Body W R A → (A → Body W R B) → Body W R B
unfolding pure return exit_process gets or_return modify return_if call
◌>>=◌ m f w = elim (m w) [
  | next a w' ↦ f a w'
  | ret r w' ↦ ret r w'
  | exit w' ↦ exit w'
  | hang w' ↦ hang w'
]

abbrev pub ◌>>◌ : {W R B : Type 0} → Body W R (Unit {0}) → Body W R B → Body W R B
m >> k = m >>= λ _. k

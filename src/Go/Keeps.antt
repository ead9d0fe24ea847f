-- ===== src/Go/Keeps.antt =====
-- Invariants of function bodies, one rule for each way to build a body.
use dropbox_for_ctf.Base.{◌≡◌, refl, Bool, true, false, if◌then◌else◌}
use dropbox_for_ctf.FilePath.{Result, ok, err}
use dropbox_for_ctf.Text.{Bytes}
use dropbox_for_ctf.Go.{
  Outcome, next, ret, exit, hang, Body, Func, ◌>>=◌, ◌>>◌, pure, return, exit_process, gets,
  or_return, modify, return_if, call,
}

abbrev pub After : {W R A : Type 0} → (W → Type 0) → Outcome W R A → Type 0
After P (next a w) = P w
After P (ret r w) = P w
After P (exit w) = P w
After P (hang w) = P w

-- However `m` ends, the process's exit included, `P` still holds.
pub record Keeps {W R A : Type 0} (P : W → Type 0) (m : Body W R A) : Type 0 where
  pub at : (w : W) → P w → After P (m w)

module _ {W R A : Type 0} {P : W → Type 0} where
  pub Keeps-pure : (a : A) → Keeps {R = R} P (pure a)
  unfolding pure
  Keeps-pure a = record { at = λ w h. h }

  pub Keeps-return : (r : R) → Keeps {A = A} P (return r)
  unfolding return
  Keeps-return r = record { at = λ w h. h }

  pub Keeps-exit : Keeps {R = R} {A = A} P exit_process
  unfolding exit_process
  Keeps-exit = record { at = λ w h. h }

  pub Keeps-gets : (f : W → A) → Keeps {R = R} P (gets f)
  unfolding gets
  Keeps-gets f = record { at = λ w h. h }

  pub Keeps-or_return : (r : Result A) (f : Bytes → R) → Keeps P (or_return r f)
  unfolding or_return
  Keeps-or_return (ok a) f = record { at = λ w h. h }
  Keeps-or_return (err e) f = record { at = λ w h. h }

  -- Each branch may use how the test went.
  pub Keeps-if :
      (test : Bool) (taken other : Body W R A)
      → (test ≡ false → Keeps P other)
      → (test ≡ true → Keeps P taken)
      → Keeps P (if test then taken else other)
  Keeps-if true taken other else_keeps then_keeps = then_keeps refl
  Keeps-if false taken other else_keeps then_keeps = else_keeps refl

module _ {W R : Type 0} {P : W → Type 0} where
  pub Keeps-modify : (f : W → W) → ((w : W) → P w → P (f w)) → Keeps {R = R} P (modify f)
  unfolding modify
  Keeps-modify f k = record { at = k }

module _ {W R : Type 0} {P : W → Type 0} where
  pub Keeps-guard : (b : Bool) (r : R) → Keeps P (return_if b r)
  unfolding return_if
  Keeps-guard true r = record { at = λ w h. h }
  Keeps-guard false r = record { at = λ w h. h }

module _ {W R B : Type 0} {P : W → Type 0} where
  -- What stands behind the test may use that it failed.
  pub Keeps-return_if :
      (b : Bool) (r : R) (k : Body W R B) → (b ≡ false → Keeps P k) → Keeps P (return_if b r >> k)
  unfolding ◌>>=◌
  Keeps-return_if true r k kk = record { at = λ w h. h }
  Keeps-return_if false r k kk = record { at = λ w h. (kk refl).at w h }

module _ {W R A B : Type 0} {P : W → Type 0} where
  After-bind :
      (o : Outcome W R A) (f : A → Body W R B)
      → After P o
      → ((a : A) → Keeps P (f a))
      → After P (elim o as (λ _. Outcome W R B) [
        | next a w' ↦ f a w'
        | ret r w' ↦ ret r w'
        | exit w' ↦ exit w'
        | hang w' ↦ hang w'
      ])
  After-bind (next a w) f h k = (k a).at w h
  After-bind (ret r w) f h k = h
  After-bind (exit w) f h k = h
  After-bind (hang w) f h k = h

  pub Keeps-bind :
      (first : Body W R A) (rest : A → Body W R B)
      → Keeps P first
      → ((a : A) → Keeps P (rest a))
      → Keeps P (first >>= rest)
  unfolding ◌>>=◌
  Keeps-bind first rest k more = record { at = λ w h. After-bind (first w) rest (k.at w h) more }

module _ {W A : Type 0} where
  After-call :
      (R : Type 0) (P : W → Type 0) (o : Outcome W A A)
      → After P o
      → After {R = R} {A = A} P (elim o as (λ _. Outcome W R A) [
        | next a w' ↦ next a w'
        | ret a w' ↦ next a w'
        | exit w' ↦ exit w'
        | hang w' ↦ hang w'
      ])
  After-call R P (next a w) h = h
  After-call R P (ret r w) h = h
  After-call R P (exit w) h = h
  After-call R P (hang w) h = h

  pub Keeps-call :
      {R : Type 0} {P : W → Type 0} (m : Func W A) → Keeps P m → Keeps {R = R} P (call m)
  unfolding call
  Keeps-call {R} {P} m km = record { at = λ w h. After-call R P (m w) (km.at w h) }

pub ruleset keeps_rules = (
  Keeps-return_if, Keeps-pure, Keeps-return, Keeps-exit, Keeps-gets, Keeps-or_return, Keeps-if,
  Keeps-call, Keeps-bind,
)

-- ===== src/Go/Triple.antt =====
-- Preconditions and postconditions of function bodies: where a body goes on, `Q` holds of the value
-- and the state; where it returns early, exits or hangs, `I` holds.
use dropbox_for_ctf.Base.{Bool, true, false, ◌≡◌, refl, if◌then◌else◌}
use dropbox_for_ctf.FilePath.{Result, ok, err}
use dropbox_for_ctf.Text.{Bytes}
use dropbox_for_ctf.Go.{
  Outcome, next, ret, exit, hang, Body, Func, ◌>>=◌, pure, return_if, or_return, modify, gets, call,
}
use dropbox_for_ctf.Go.Keeps.{After, Keeps}

abbrev pub Ends : {W R A : Type 0} → (A → W → Type 0) → (W → Type 0) → Outcome W R A → Type 0
Ends Q I (next a w) = Q a w
Ends Q I (ret r w) = I w
Ends Q I (exit w) = I w
Ends Q I (hang w) = I w

pub record Triple {W R A : Type 0} (P : W → Type 0) (Q : A → W → Type 0) (I : W → Type 0)
    (m : Body W R A) : Type 0 where
  pub at : (w : W) → P w → Ends Q I (m w)

module _ {W R A : Type 0} (I : W → Type 0) where
  Ends-After : (o : Outcome W R A) → Ends (λ _. I) I o → After I o
  Ends-After (next a w) h = h
  Ends-After (ret r w) h = h
  Ends-After (exit w) h = h
  Ends-After (hang w) h = h

  After-Ends : (o : Outcome W R A) → After I o → Ends (λ _. I) I o
  After-Ends (next a w) h = h
  After-Ends (ret r w) h = h
  After-Ends (exit w) h = h
  After-Ends (hang w) h = h

module _ {W R A : Type 0} {I P : W → Type 0} where
  -- A body that needs more than the invariant at its start still ends in it.
  pub Triple-Keeps : (m : Body W R A) → ((w : W) → P w → I w) → Keeps I m → Triple P (λ _. I) I m
  Triple-Keeps m weaken k = record { at = λ w h. After-Ends I (m w) (k.at w (weaken w h)) }

  pub Triple-pure : (a : A) → ((w : W) → P w → I w) → Triple {R = R} P (λ _. I) I (pure a)
  unfolding pure
  Triple-pure a weaken = record { at = weaken }

  pub Triple-gets : (f : W → A) → Triple {R = R} P (λ _. P) I (gets f)
  unfolding gets
  Triple-gets f = record { at = λ w h. h }

  pub Triple-or_return :
      (r : Result A) (f : Bytes → R) → ((w : W) → P w → I w) → Triple P (λ _. P) I (or_return r f)
  unfolding or_return
  Triple-or_return (ok a) f weaken = record { at = λ w h. h }
  Triple-or_return (err e) f weaken = record { at = weaken }

module _ {W R A : Type 0} where
  Ends-any : (o : Outcome W R A) → Ends (λ _ _. Unit) (λ _. Unit) o
  Ends-any (next a w) = tt
  Ends-any (ret r w) = tt
  Ends-any (exit w) = tt
  Ends-any (hang w) = tt

  -- Of any body nothing is known.
  pub Triple-any : (m : Body W R A) → Triple (λ _. Unit) (λ _ _. Unit) (λ _. Unit) m
  Triple-any m = record { at = λ w h. Ends-any (m w) }

module _ {W R : Type 0} {I P : W → Type 0} where
  pub Triple-modify :
      {M : W → Type 0} (f : W → W)
      → ((w : W) → P w → M (f w))
      → Triple {R = R} P (λ _. M) I (modify f)
  unfolding modify
  Triple-modify f k = record { at = k }

  -- What follows may use that the test failed.
  pub Triple-return_if :
      (b : Bool) (r : R)
      → ((w : W) → P w → I w)
      → Triple P (λ _ w. P w × (b ≡ false)) I (return_if b r)
  unfolding return_if
  Triple-return_if true r weaken = record { at = weaken }
  Triple-return_if false r weaken = record { at = λ w h. (h, refl) }

module _ {W R A : Type 0} {I : W → Type 0} where
  pub Keeps-Triple : (m : Body W R A) → Triple I (λ _. I) I m → Keeps I m
  Keeps-Triple m t = record { at = λ w h. Ends-After I (m w) (t.at w h) }

  pub Triple-After :
      {P : W → Type 0} (m : Body W R A) (w : W) → Triple P (λ _. I) I m → P w → After I (m w)
  Triple-After m w t h = Ends-After I (m w) (t.at w h)

module _ {W R A : Type 0} {I P : W → Type 0} where
  Ends-frame : (o : Outcome W R A) → ((w : W) → P w → I w) → After P o → Ends (λ _. P) I o
  Ends-frame (next a w) weaken h = h
  Ends-frame (ret r w) weaken h = weaken w h
  Ends-frame (exit w) weaken h = weaken w h
  Ends-frame (hang w) weaken h = weaken w h

  -- A body that keeps the precondition hands it on.
  pub Triple-frame : (m : Body W R A) → ((w : W) → P w → I w) → Keeps P m → Triple P (λ _. P) I m
  Triple-frame m weaken k = record { at = λ w h. Ends-frame (m w) weaken (k.at w h) }

module _ {W R A B : Type 0} (I : W → Type 0) (M : A → W → Type 0) (Q : B → W → Type 0) where
  Ends-bind :
      (o : Outcome W R A) (f : A → Body W R B)
      → Ends M I o
      → ((a : A) → Triple (M a) Q I (f a))
      → Ends Q I (elim o as (λ _. Outcome W R B) [
        | next a w' ↦ f a w'
        | ret r w' ↦ ret r w'
        | exit w' ↦ exit w'
        | hang w' ↦ hang w'
      ])
  Ends-bind (next a w) f h k = (k a).at w h
  Ends-bind (ret r w) f h k = h
  Ends-bind (exit w) f h k = h
  Ends-bind (hang w) f h k = h

module _ {W R A B : Type 0} {I P : W → Type 0} {M : A → W → Type 0} {Q : B → W → Type 0} where
  pub Triple-bind :
      (m : Body W R A) (f : A → Body W R B)
      → Triple P M I m
      → ((a : A) → Triple (M a) Q I (f a))
      → Triple P Q I (m >>= f)
  unfolding ◌>>=◌
  Triple-bind m f tm tf = record { at = λ w h. Ends-bind I M Q (m w) f (tm.at w h) tf }

module _ {W A : Type 0} where
  Ends-call :
      (R : Type 0) (I : W → Type 0) (o : Outcome W A A)
      → Ends (λ _. I) I o
      → Ends {R = R} {A = A}
          (λ _. I)
          I
          (elim o as (λ _. Outcome W R A) [
            | next a w' ↦ next a w'
            | ret r w' ↦ next r w'
            | exit w' ↦ exit w'
            | hang w' ↦ hang w'
          ])
  Ends-call R I (next a w) h = h
  Ends-call R I (ret r w) h = h
  Ends-call R I (exit w) h = h
  Ends-call R I (hang w) h = h

module _ {W A : Type 0} {I P : W → Type 0} where
  pub Triple-call :
      {R : Type 0} (m : Func W A) → Triple P (λ _. I) I m → Triple {R = R} P (λ _. I) I (call m)
  unfolding call
  Triple-call {R} m t = record { at = λ w h. Ends-call R I (m w) (t.at w h) }

  pub Triple-if :
      {R : Type 0} {Q : A → W → Type 0} (b : Bool) (m n : Body W R A)
      → (b ≡ true → Triple P Q I m)
      → (b ≡ false → Triple P Q I n)
      → Triple P Q I (if b then m else n)
  Triple-if true m n tm tn = tm refl
  Triple-if false m n tm tn = tn refl

module _ {W R A : Type 0} {I P P' : W → Type 0} {Q : A → W → Type 0} where
  pub Triple-weaken : (m : Body W R A) → ((w : W) → P w → P' w) → Triple P' Q I m → Triple P Q I m
  Triple-weaken m k t = record { at = λ w h. t.at w (k w h) }

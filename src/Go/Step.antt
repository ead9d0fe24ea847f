-- ===== src/Go/Step.antt =====
-- One step of a body whose first statement has a known outcome.
use dropbox_for_ctf.Base.{◌≡◌, arith}
use dropbox_for_ctf.Go.{next, ret, exit, Body, Func, ◌>>=◌, call, pure}

module _ {W R A B : Type 0} (m : Body W R A) (f : A → Body W R B) {w v : W} where
  pub bind-next : {a : A} → m w ≡ next a v → (m >>= f) w ≡ f a v
  unfolding ◌>>=◌
  bind-next e = ground arith

  pub bind-ret : {r : R} → m w ≡ ret r v → (m >>= f) w ≡ ret r v
  unfolding ◌>>=◌
  bind-ret e = ground arith

  pub bind-exit : m w ≡ exit v → (m >>= f) w ≡ exit v
  unfolding ◌>>=◌
  bind-exit e = ground arith

module _ {W R A : Type 0} (m : Func W A) {w v : W} where
  pub call-next : {a : A} → m w ≡ next a v → call {R = R} m w ≡ next a v
  unfolding call
  call-next e = ground arith

  pub call-ret : {a : A} → m w ≡ ret a v → call {R = R} m w ≡ next a v
  unfolding call
  call-ret e = ground arith

module _ {W R A B C : Type 0} (m : Func W A) (f : A → B) (k : B → Body W R C) where
  -- A function that returns a form of another one's result.
  pub call-bind_pure :
      (w : W) → (call (call {R = B} m >>= λ a. pure (f a)) >>= k) w ≡ (call m >>= λ a. k (f a)) w
  unfolding call ◌>>=◌
  call-bind_pure w = ground arith

module _ {W R A B : Type 0} (m : Body W B A) (f : A → Func W B) {w v : W} where
  pub call-bind_next : {a : A} → m w ≡ next a v → call {R = R} (m >>= f) w ≡ call (f a) v
  unfolding call ◌>>=◌
  call-bind_next e = ground (arith, e)

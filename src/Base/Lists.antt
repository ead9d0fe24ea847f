-- ===== src/Base/Lists.antt =====
-- Lists: a predicate on all items, and tables that are read and written by Boolean tests.
use Prim.Native.Nat.{ℕ, suc, ◌+◌, ◌≤◌}
use mathlib.Core.Path.{◌≡◌, refl}
use mathlib.Core.Bool.{Bool, true, false}
use mathlib.Core.Option.{Option, none, some}
use mathlib.Core.List.{List, [], ◌∷◌, ◌++◌}
use native.Mathlib.Omega.{arith}
use dropbox_for_ctf.Base.Tests.{if◌then◌else◌}

module _ {ℓ κ} {A : Type ℓ} where
  abbrev pub All : (A → Type κ) → List A → Type κ
  All P [] = Unit
  All P (x ∷ xs) = P x × All P xs

  pub All-append :
      (P : A → Type κ) (front back : List A) → All P front → All P back → All P (front ++ back)
  All-append P [] back h more = more
  All-append P (a ∷ front) back (k, h) more = (k, All-append P front back h more)

module _ {ℓ κ μ} {A : Type ℓ} where
  pub All-map :
      (P : A → Type κ) (Q : A → Type μ) (f : (x : A) → P x → Q x) (xs : List A)
      → All P xs
      → All Q xs
  All-map P Q f [] h = tt
  All-map P Q f (x ∷ xs) h = (f x h.0, All-map P Q f xs h.1)

module _ {ℓ} {A : Type ℓ} where
  -- `SELECT count(1) FROM t WHERE p`
  abbrev pub count_by : (A → Bool) → List A → ℕ
  count_by p [] = 0
  count_by p (x ∷ xs) = if p x then suc (count_by p xs) else count_by p xs

  -- `SELECT … FROM t WHERE p`, all rows
  abbrev pub select_by : (A → Bool) → List A → List A
  select_by p [] = []
  select_by p (x ∷ xs) = if p x then x ∷ select_by p xs else select_by p xs

  -- `SELECT … FROM t WHERE p`, the first row
  abbrev pub first_by : (A → Bool) → List A → Option A
  first_by p [] = none
  first_by p (x ∷ xs) = if p x then some x else first_by p xs

  -- `DELETE FROM t WHERE p`
  abbrev pub delete_by : (A → Bool) → List A → List A
  delete_by p [] = []
  delete_by p (x ∷ xs) = if p x then delete_by p xs else x ∷ delete_by p xs

  -- `UPDATE t SET f WHERE p`
  abbrev pub update_by : (A → Bool) → (A → A) → List A → List A
  update_by p f [] = []
  update_by p f (x ∷ xs) = (if p x then f x else x) ∷ update_by p f xs

  abbrev pub last_or : A → List A → A
  last_or d [] = d
  last_or d (x ∷ xs) = last_or x xs

module _ {ℓ} {A : Type ℓ} where
  pub count_by-append :
      (p : A → Bool) (xs ys : List A) → count_by p (xs ++ ys) ≡ count_by p xs + count_by p ys
  count_by-append p [] ys = omega arith
  count_by-append p (x ∷ xs) ys = ground (arith, count_by-append p xs ys)

  -- A row that is found is counted.
  pub first_by-count_by :
      (p : A → Bool) (xs : List A) {x : A} → first_by p xs ≡ some x → 1 ≤ count_by p xs
  first_by-count_by p [] e = absurd (cc e)
  first_by-count_by p (y ∷ ys) {x} e = ground (arith, first_by-count_by p ys {x = x})

  -- What is not counted is not found and not changed.
  pub first_by-uncounted :
      (p q : A → Bool) (xs : List A) {x : A}
      → first_by p xs ≡ some x
      → count_by q xs ≡ 0
      → q x ≡ false
  first_by-uncounted p q [] e absent = cc e
  first_by-uncounted p q (y ∷ ys) {x} e absent =
      ground (arith, e, absent, first_by-uncounted p q ys {x = x})

  pub update_by-uncounted :
      (p : A → Bool) (f : A → A) (xs : List A) → count_by p xs ≡ 0 → update_by p f xs ≡ xs
  update_by-uncounted p f [] absent = refl
  update_by-uncounted p f (x ∷ xs) absent = ground (arith, absent, update_by-uncounted p f xs)

  pub count_by-delete_by-le :
      (p q : A → Bool) (xs : List A) → count_by p (delete_by q xs) ≤ count_by p xs
  count_by-delete_by-le p q [] = omega arith
  count_by-delete_by-le p q (x ∷ xs) = ground (arith, count_by-delete_by-le p q xs)

  pub count_by-delete_by_self : (p : A → Bool) (xs : List A) → count_by p (delete_by p xs) ≡ 0
  count_by-delete_by_self p [] = refl
  count_by-delete_by_self p (x ∷ xs) = ground (arith, count_by-delete_by_self p xs)

  pub delete_by_comm :
      (p q : A → Bool) (xs : List A) → delete_by p (delete_by q xs) ≡ delete_by q (delete_by p xs)
  delete_by_comm p q [] = refl
  delete_by_comm p q (x ∷ xs) = ground (arith, delete_by_comm p q xs)

  -- What a wider test has deleted need not be deleted again.
  pub delete_by_absorb :
      (p q : A → Bool)
      → ((x : A) → q x ≡ false → p x ≡ false)
      → (xs : List A) → delete_by p (delete_by q xs) ≡ delete_by q xs
  delete_by_absorb p q narrow [] = refl
  delete_by_absorb p q narrow (x ∷ xs) = ground (arith, narrow x, delete_by_absorb p q narrow xs)

  -- What is deleted anyway may be deleted, changed or added before.
  pub delete_by-delete_by :
      (p q : A → Bool)
      → ((x : A) → q x ≡ true → p x ≡ true)
      → (xs : List A) → delete_by p (delete_by q xs) ≡ delete_by p xs
  delete_by-delete_by p q wide [] = refl
  delete_by-delete_by p q wide (x ∷ xs) = ground (arith, wide x, delete_by-delete_by p q wide xs)

  pub delete_by-update_by :
      (p q : A → Bool) (f : A → A)
      → ((x : A) → q x ≡ true → (p x ≡ true) × (p (f x) ≡ true))
      → (xs : List A) → delete_by p (update_by q f xs) ≡ delete_by p xs
  delete_by-update_by p q f wide [] = refl
  delete_by-update_by p q f wide (x ∷ xs) =
      ground (arith, wide x, delete_by-update_by p q f wide xs)

  pub delete_by-append_one :
      (p : A → Bool) (x : A)
      → p x ≡ true
      → (xs : List A) → delete_by p (xs ++ x ∷ []) ≡ delete_by p xs
  delete_by-append_one p x e [] = ground (arith, e)
  delete_by-append_one p x e (y ∷ ys) = ground (arith, delete_by-append_one p x e ys)

module _ {ℓ κ} {A : Type ℓ} where
  pub All-delete_by :
      (P : A → Type κ) (q : A → Bool) (xs : List A) → All P xs → All P (delete_by q xs)
  All-delete_by P q [] h = tt
  All-delete_by P q (x ∷ xs) h = ground (arith, All-delete_by P q xs h.1)

  pub All-update_by :
      (P : A → Type κ) (q : A → Bool) (f : A → A) (keep : (x : A) → P x → P (f x)) (xs : List A)
      → All P xs
      → All P (update_by q f xs)
  All-update_by P q f keep [] h = tt
  All-update_by P q f keep (x ∷ xs) h = ground (arith, keep x h.0, All-update_by P q f keep xs h.1)

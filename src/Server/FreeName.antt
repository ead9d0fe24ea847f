-- ===== src/Server/FreeName.antt =====
-- The loop of shareHandler for a free name.
use dropbox_for_ctf.Base.{
  ℕ, zero, suc, ◌+◌, ◌<◌, ◌≤◌, ◌≡◌, ◌≢◌, true, false, ◌∷◌, ◌++◌, arith, Bool-cases, inl, inr,
}
use native.Mathlib.Decide.{ℕ_discrete}
use dropbox_for_ctf.Text.{Bytes, slash}
use dropbox_for_ctf.Go.{next}
use dropbox_for_ctf.Store.{Host, World, is_not_exist}
use dropbox_for_ctf.Server.Sharing.{candidate, free_name}

module _ {S : Type 0} (host : Host S) (dir filename : Bytes) (w : World S) where
  -- No file has the name of round `i`.
  abbrev pub IsFreeName : ℕ → Type 0
  IsFreeName i = is_not_exist (host.stat (dir ++ slash ∷ candidate filename i) w.os) ≡ true

  taken_ne :
      (i m : ℕ)
      → is_not_exist (host.stat (dir ++ slash ∷ candidate filename i) w.os) ≡ false
      → IsFreeName m
      → i ≢ m
  taken_ne i m taken free e = cc

  -- The loop for a free name, from round `i`: if one of the rounds that the fuel allows finds a free
  -- name, the loop ends with the name of the first such round, and changes nothing.
  pub free_name_first :
      {R : Type 0} (fuel i m : ℕ)
      → i ≤ m
      → m < i + fuel
      → IsFreeName m
      → (n : ℕ) × (i ≤ n)
        × (n ≤ m)
        × IsFreeName n
        × ((j : ℕ) → i ≤ j → j < n → ¬ IsFreeName j)
        × (free_name {S = S} host {R = R} dir filename fuel i w ≡ next (candidate filename n) w)
  unfolding free_name
  free_name_first zero i m low high free = absurd (omega arith)
  free_name_first {R} (suc fuel) i m low high free =
      elim (Bool-cases (is_not_exist (host.stat (dir ++ slash ∷ candidate filename i) w.os))) [
        | inl here ↦ (i, omega arith, low, here, (λ j a b. absurd (omega arith)), rw here)
        | inr taken ↦
            let differ = taken_ne i m taken free in
            let (n, a, b, f, before, e) =
              free_name_first {R = R} fuel (suc i) m (omega arith) (omega arith) free in
            (
              n,
              omega arith,
              b,
              f,
              (λ j lo hi h. elim (ℕ_discrete i j) [
                | yes same ↦ taken_ne i j taken h same
                | no ne ↦ before j (omega arith) hi h
              ]),
              rw taken e,
            )
      ]

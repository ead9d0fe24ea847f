-- ===== src/Rpc/Lock.antt =====
-- lib/support/rpc/server.go: RunServer and the calls of request, which share the mutex invokeMtx.
pub mod Safety
pub mod Serial
use dropbox_for_ctf.Base.{ℕ, ◌≡◌, Bool, true, false, ◌==◌, if◌then◌else◌}

-- Where a call of `request` stands: not yet made, before `invokeMtx.Lock()`, between it and the
-- deferred unlock with what is left of its code, returned.
pub data Phase (P : Type 0) : Type 0 where
  absent waiting : Phase P
  inside : P → Phase P
  returned : Phase P

-- Where `RunServer` stands: before the signal, before `invokeMtx.Lock()`, returned with the lock held.
pub data Main : Type 0 where
  listening interrupted finished : Main

pub record Server (P W : Type 0) : Type 0 where
  -- whether `invokeMtx` is locked
  pub locked : Bool
  pub calls : ℕ → Phase P
  pub main : Main
  pub world : W

abbrev pub place : {P : Type 0} → (ℕ → Phase P) → ℕ → Phase P → ℕ → Phase P
place calls i p j = if i == j then p else calls j

-- `code i`: what call `i` has to do once it is inside. `rest p w v`: the code `p` can lead from `w` to
-- `v`; `ends w v`: so can the finalizer.
module _ {P W : Type 0} (code : ℕ → P) (rest : P → W → W → Type 0) (ends : W → W → Type 0) where
  pub data Step (s : Server P W) : Server P W → Type 0 where
    arrives : (i : ℕ) → s.calls i ≡ absent → Step s (record s { calls = place s.calls i waiting })
    enters :
        (i : ℕ)
        → s.calls i ≡ waiting
        → s.locked ≡ false
        → Step s (record s { locked = true; calls = place s.calls i (inside (code i)) })
    -- A part of the code is run on the state as it stands, which other calls may have changed: what is
    -- left, `q`, leads from there to nothing that `p` does not lead to.
    works :
        (i : ℕ) (p q : P) (v : W)
        → s.calls i ≡ inside p
        → ((x : W) → rest q v x → rest p s.world x)
        → Step s (record s { calls = place s.calls i (inside q); world = v })
    leaves :
        (i : ℕ) (p : P) (v : W)
        → s.calls i ≡ inside p
        → rest p s.world v
        → Step s (record s { locked = false; calls = place s.calls i returned; world = v })
    signalled : s.main ≡ listening → Step s (record s { main = interrupted })
    finalizes :
        (v : W)
        → s.main ≡ interrupted
        → s.locked ≡ false
        → ends s.world v
        → Step s (record s { locked = true; main = finished; world = v })

  pub data Runs (s : Server P W) : Server P W → Type 0 where
    start : Runs s s
    later : {t u : Server P W} → Runs s t → Step t u → Runs s u

abbrev pub opened : {P W : Type 0} → W → Server P W
opened w = record { locked = false; calls = λ i. absent; main = listening; world = w }

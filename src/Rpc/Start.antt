-- ===== src/Rpc/Start.antt =====
-- lib/support/rpc/server.go: RunServer from its test of the finalizer to its return.
use dropbox_for_ctf.Base.{ℕ, ◌≡◌, none, some}
use dropbox_for_ctf.Text.{Bytes}
use dropbox_for_ctf.FilePath.{Result, ok, err}
use dropbox_for_ctf.Go.{Outcome, ret, exit, Func}
use dropbox_for_ctf.Rpc.Dispatch.{Codec, Registry, Request, request}
use dropbox_for_ctf.Rpc.Lock.{inside, finished, Server, Runs, opened}

module _ {W : Type 0} where
  -- The function comes to its end, and the process goes on in the state `v`.
  abbrev pub Leaves : {A : Type 0} → Outcome W A A → W → Type 0
  Leaves (Outcome.next a w) v = v ≡ w
  Leaves (ret r w) v = v ≡ w
  Leaves (exit w) v = ⊥
  Leaves (Outcome.hang w) v = ⊥

-- What is left of a call's code: all of it, or a part behind what has been run.
pub data Left (W : Type 0) : Type 0 where
  begun going : Func W (Result Bytes) → Left W

-- `meets w v`: what the process finds in `v` where it has left `w`, when it goes on.
module _ {T V W : Type 0} (codec : Codec T V) (meets : W → W → Type 0) (requests : ℕ → Request)
    (registry : Registry T V W) where
  pub record Ends {A : Type 0} (m : Func W A) (w v : W) : Type 0 where
    pub found : W
    pub meeting : meets w found
    pub leaves : Leaves (m found) v

  -- The call `i` of `request` once it is inside, and where what is left of a call can lead.
  abbrev pub Handling : ℕ → Left W
  Handling i = begun (request codec registry.handlers (requests i))

  abbrev pub Rest : Left W → W → W → Type 0
  Rest (begun m) w v = Ends m w v
  Rest (going m) w v = Leaves (m w) v

  -- What is left of a call ends the process.
  abbrev pub Crashes : Left W → W → W → Type 0
  Crashes (begun m) w v = (found : W) × meets w found × (m found ≡ exit v)
  Crashes (going m) w v = m w ≡ exit v

  -- The outcomes of `RunServer`, for what `net.Listen` gives on the address.
  pub data RunServer (listen : Bytes → W → Result (Unit {0})) (addr : Bytes) (w : W)
      : Outcome W (Result (Unit {0})) (Result (Unit {0})) → Type 0 where
    no_finalizer : registry.finalizer ≡ none → RunServer listen addr w (exit w)
    no_listener :
        {f : Func W (Unit {0})} (e : Bytes)
        → registry.finalizer ≡ some f
        → listen addr w ≡ err e
        → RunServer listen addr w (ret (err e) w)
    interrupted :
        {f : Func W (Unit {0})} {t : Server (Left W) W}
        → registry.finalizer ≡ some f
        → listen addr w ≡ ok tt
        → Runs Handling Rest (Ends f) (opened w) t
        → t.main ≡ finished
        → RunServer listen addr w (ret (ok tt) t.world)
    -- a request that ends the process
    crashed :
        {f : Func W (Unit {0})} {t : Server (Left W) W} {v : W} (i : ℕ) (p : Left W)
        → registry.finalizer ≡ some f
        → listen addr w ≡ ok tt
        → Runs Handling Rest (Ends f) (opened w) t
        → t.calls i ≡ inside p
        → Crashes p t.world v
        → RunServer listen addr w (exit v)

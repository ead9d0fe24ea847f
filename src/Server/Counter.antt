-- ===== src/Server/Counter.antt =====
-- How far filecount goes: one more for each upload.
use dropbox_for_ctf.Base.{ℕ, ◌+◌, ◌≤◌, ◌<◌, Bool, true, false, arith, if◌then◌else◌}
use dropbox_for_ctf.Go.{Outcome, next, ret, exit, hang}
use dropbox_for_ctf.Go.Keeps.{After}
use dropbox_for_ctf.Store.{Host, World}
use dropbox_for_ctf.Server.Handlers.{Request, serve}
use dropbox_for_ctf.Server.Frame.{IsWithin, CounterKept}
use dropbox_for_ctf.Server.Frame.Requests.{scope_of, serve-IsWithin}
use dropbox_for_ctf.Server.Run.{
  end_state, served, system_moves, database_fails, restarted, Reach, here, after,
}

CounterKept-one :
    (b : Bool) (m n : ℕ) → CounterKept b m n → (m ≤ n) × (n ≤ m + (if b then 1 else 0))
CounterKept-one true m n h = h
CounterKept-one false m n h = (omega (arith, h), omega (arith, h))

abbrev is_upload : Request → Bool
is_upload r = (scope_of r).counter

module _ {S : Type 0} (host : Host S) (fuel : ℕ) where
  -- The uploads of a run.
  abbrev pub uploads : {w v : World S} → Reach host fuel w v → ℕ
  uploads here = 0
  uploads (after reached (served r)) = uploads reached + (if is_upload r then 1 else 0)
  uploads (after reached (system_moves s)) = uploads reached
  uploads (after reached (database_fails fs)) = uploads reached
  uploads (after reached restarted) = uploads reached

  end-counter :
      {A : Type 0} (r : Request) (w : World S) (o : Outcome (World S) A A)
      → After (IsWithin (scope_of r) w) o
      → CounterKept (is_upload r) w.filecount (end_state host fuel o).filecount
  end-counter r w (next a v) h = h.counter
  end-counter r w (ret a v) h = h.counter
  end-counter r w (exit v) h = h.counter
  end-counter r w (hang v) h = h.counter

  -- In a run the counter of stored files never goes back, and goes up by one at most for each upload.
  Reach-counter :
      (w v : World S) (reached : Reach host fuel w v)
      → (w.filecount ≤ v.filecount) × (v.filecount ≤ w.filecount + uploads reached)
  Reach-counter w v here = (omega arith, omega arith)
  Reach-counter w _ (after {v} reached (served r)) =
      let (low, high) = Reach-counter w v reached in
      let (up, one) =
        CounterKept-one (is_upload r) v.filecount _
          (end-counter r v (serve host fuel r v) (serve-IsWithin host fuel r v)) in
      (omega (arith, low, up), omega (arith, high, one))
  Reach-counter w v (after reached (system_moves s)) = Reach-counter w _ reached
  Reach-counter w v (after reached (database_fails fs)) = Reach-counter w _ reached
  Reach-counter w v (after reached restarted) = Reach-counter w _ reached

  -- As long as the counter of stored files and the uploads of a run come to less than 2 ^ 63, the counter
  -- is an `int` of 64 bits in the state that the run ends in: it has not fallen, it has gone up by one at
  -- most for each upload, whatever the requests and the failures, and no increment has wrapped around.
  pub counter_bounded :
      (w v : World S) (reached : Reach host fuel w v)
      → w.filecount + uploads reached < 9223372036854775808
      → (w.filecount ≤ v.filecount)
        × (v.filecount ≤ w.filecount + uploads reached)
        × (v.filecount < 9223372036854775808)
  counter_bounded w v reached room =
      let (low, high) = Reach-counter w v reached in (low, high, omega (arith, high, room))

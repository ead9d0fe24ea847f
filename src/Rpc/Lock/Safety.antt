-- ===== src/Rpc/Lock/Safety.antt =====
-- The states that the server of lib/support/rpc/server.go can reach, and who holds its mutex there.
use dropbox_for_ctf.Base.{ℕ, ◌≡◌, ◌≢◌, refl, ◌∙◌, true, arith}
use dropbox_for_ctf.Rpc.Lock.{
  inside, finished, Server, Step, arrives, enters, works, leaves, signalled, finalizes, Runs, start,
  later, opened,
}

-- The lock is held by one call that is inside, or for good by the end of the server.
pub record IsGuarded {P W : Type 0} (s : Server P W) : Type 0 where
  pub held : (i : ℕ) (p : P) → s.calls i ≡ inside p → s.locked ≡ true
  pub single : (i j : ℕ) (p q : P) → s.calls i ≡ inside p → s.calls j ≡ inside q → i ≡ j
  pub over : s.main ≡ finished → s.locked ≡ true
  pub none_left : s.main ≡ finished → (i : ℕ) (p : P) → s.calls i ≢ inside p

pub opened-IsGuarded : {P W : Type 0} (w : W) → IsGuarded (opened {P = P} w)
opened-IsGuarded w = record {
  held = λ i p e. cc e;
  single = λ i j p q e f. cc e;
  over = λ e. cc e;
  none_left = λ e i p f. cc e;
}

module _ {P W : Type 0} {code : ℕ → P} {rest : P → W → W → Type 0} {ends : W → W → Type 0} where
  Step-IsGuarded : {s t : Server P W} → Step code rest ends s t → IsGuarded s → IsGuarded t
  Step-IsGuarded {s} (arrives i e) h = record {
    held = λ j p k. ground (arith, h.held j p);
    single = λ j l p q a b. ground (arith, h.single j l p q);
    over = h.over;
    none_left = λ f j p k. ground (arith, h.none_left f j p);
  }
  Step-IsGuarded {s} (enters i e free) h = record {
    held = λ j p k. refl;
    single = λ j l p q a b. ground (arith, h.held j p, h.held l q);
    over = λ f. refl;
    none_left = λ f j p k. cc (h.over f, free);
  }
  Step-IsGuarded {s} (works i p q v e keeps) h = record {
    held = λ j r k. h.held i p e;
    single = λ j l r t a b. ground (arith, h.single i j p r e, h.single i l p t e);
    over = h.over;
    none_left = λ f j r k. absurd (h.none_left f i p e);
  }
  Step-IsGuarded {s} (leaves i p v e run) h = record {
    held = λ j r k. ground (arith, h.single i j p r e);
    single = λ j l r t a b. ground (arith, h.single j l r t);
    over = λ f. absurd (h.none_left f i p e);
    none_left = λ f j r k. absurd (h.none_left f i p e);
  }
  Step-IsGuarded (signalled e) h = record {
    held = h.held;
    single = h.single;
    over = λ f. cc f;
    none_left = λ f. cc f;
  }
  Step-IsGuarded (finalizes v e free end) h = record {
    held = λ i p k. refl;
    single = h.single;
    over = λ f. refl;
    none_left = λ f i p k. cc (h.held i p k, free);
  }

  pub Runs-IsGuarded : {s t : Server P W} → IsGuarded s → Runs code rest ends s t → IsGuarded t
  Runs-IsGuarded h start = h
  Runs-IsGuarded h (later r step) = Step-IsGuarded step (Runs-IsGuarded h r)

  final-Step :
      {s t : Server P W}
      → IsGuarded s
      → s.main ≡ finished
      → Step code rest ends s t
      → (t.main ≡ finished) × (t.world ≡ s.world)
  final-Step h f (arrives i e) = (f, refl)
  final-Step h f (enters i e free) = cc (h.over f, free)
  final-Step h f (works i p q v e keeps) = absurd (h.none_left f i p e)
  final-Step h f (leaves i p v e run) = absurd (h.none_left f i p e)
  final-Step h f (signalled e) = cc (e, f)
  final-Step h f (finalizes v e free end) = cc (e, f)

  final-Runs :
      {s t : Server P W}
      → IsGuarded s
      → s.main ≡ finished
      → Runs code rest ends s t
      → (t.main ≡ finished) × (t.world ≡ s.world)
  final-Runs h f start = (f, refl)
  final-Runs h f (later r step) =
      let (g, e) = final-Runs h f r in
      let (k, d) = final-Step (Runs-IsGuarded h r) g step in (k, d ∙ e)

  -- Once `RunServer` has run the finalizer, no call holds the mutex, and whatever still happens leaves the
  -- server's state as it is.
  nothing_after_finalizer :
      (w : W) {s t : Server P W}
      → Runs code rest ends (opened w) s
      → s.main ≡ finished
      → Runs code rest ends s t
      → (t.world ≡ s.world) × ((i : ℕ) (p : P) → t.calls i ≢ inside p)
  nothing_after_finalizer w q f r =
      let h = Runs-IsGuarded (opened-IsGuarded w) q in
      let (g, e) = final-Runs h f r in (e, (Runs-IsGuarded h r).none_left g)

-- ===== src/Rpc/Lock/Serial.antt =====
-- What the calls of request amount to, one after another.
use dropbox_for_ctf.Base.{
  ℕ, ◌≡◌, ◌≢◌, refl, ap, ◌∙◌, arith, Bool, true, false, List, [], ◌∷◌, ◌==◌, ◌||◌,
}
use mathlib.Core.Path.{subst}
use native.Mathlib.Decide.{ℕ_discrete}
use dropbox_for_ctf.Rpc.Lock.{
  Phase, place, absent, waiting, inside, returned, Main, listening, interrupted, finished, Server,
  Step, arrives, enters, works, leaves, signalled, finalizes, Runs, start, later, opened,
}
use dropbox_for_ctf.Rpc.Lock.Safety.{IsGuarded, Runs-IsGuarded, opened-IsGuarded}

abbrev pub has_returned : {P : Type 0} → Phase P → Bool
has_returned absent = false
has_returned waiting = false
has_returned (inside p) = false
has_returned returned = true

abbrev pub is_in : ℕ → List ℕ → Bool
is_in i [] = false
is_in i (j ∷ js) = (j == i) || is_in i js

module _ {W : Type 0} (runs : ℕ → W → W → Type 0) where
  -- The requests of the listed calls, each once, the last one first.
  pub data Serial (w : W) : List ℕ → W → Type 0 where
    untouched : Serial w [] w
    once :
        {is : List ℕ} {v x : W} (i : ℕ)
        → Serial w is v
        → is_in i is ≡ false
        → runs i v x
        → Serial w (i ∷ is) x

module _ {W : Type 0} (ends : W → W → Type 0) where
  -- `RunServer` adds the finalizer at its end, and nothing before.
  abbrev pub Stands : Main → W → W → Type 0
  Stands listening v x = x ≡ v
  Stands interrupted v x = x ≡ v
  Stands finished v x = ends v x

  Stands-running : (m : Main) (v x : W) → m ≢ finished → Stands m v x → x ≡ v
  Stands-running listening v x f h = h
  Stands-running interrupted v x f h = h
  Stands-running finished v x f h = absurd (f refl)

  Stands-refl : (m : Main) (v : W) → m ≢ finished → Stands m v v
  Stands-refl listening v f = refl
  Stands-refl interrupted v f = refl
  Stands-refl finished v f = absurd (f refl)

module _ {P W : Type 0} (code : ℕ → P) (rest : P → W → W → Type 0) (ends : W → W → Type 0) where
  -- The calls that have returned, each once in an order that the server's state has come from. While a
  -- call is inside, what is left of it leads to what the whole call leads to behind them.
  pub record IsSerial (w : W) (t : Server P W) : Type 0 where
    pub order : List ℕ
    pub served : W
    pub serial : Serial (λ i. rest (code i)) w order served
    pub complete : (i : ℕ) → is_in i order ≡ has_returned (t.calls i)
    pub standing : ((i : ℕ) (p : P) → t.calls i ≢ inside p) → Stands ends t.main served t.world
    pub partway :
        (i : ℕ) (p : P) → t.calls i ≡ inside p → (x : W) → rest p t.world x → rest (code i) served x

  place_inside :
      (calls : ℕ → Phase P) (i j : ℕ) (p q : P)
      → place calls i (inside p) j ≡ inside q
      → i ≡ j
      → q ≡ p
  place_inside calls i j p q e same = ground (arith, e, same)

  -- No call holds the mutex where it is not locked, so the state is what the calls before have made of it.
  unlocked-same :
      (w : W) {s : Server P W}
      → IsGuarded s
      → s.locked ≡ false
      → s.main ≢ finished
      → (h : IsSerial w s) → s.world ≡ h.served
  unlocked-same w {s} g free still h =
      Stands-running ends s.main h.served s.world still
        (h.standing (λ i p k. cc (g.held i p k, free)))

  Step-IsSerial :
      (w : W) {s t : Server P W}
      → IsGuarded s
      → Step code rest ends s t
      → IsSerial w s
      → IsSerial w t
  Step-IsSerial w {s} g (arrives i e) h = record {
    order = h.order;
    served = h.served;
    serial = h.serial;
    complete = λ j. ground (arith, h.complete j, e);
    standing = λ none. h.standing (λ j p k. none j p (ground (arith, k, e)));
    partway = λ j p k. h.partway j p (ground (arith, k, e));
  }
  Step-IsSerial w {s} g (enters i e free) h =
      let same = unlocked-same w g free (λ f. cc (g.over f, free)) h in
      record {
        order = h.order;
        served = h.served;
        serial = h.serial;
        complete = λ j. ground (arith, h.complete j, e);
        standing = λ none. absurd (none i (code i) (ground arith));
        partway = λ j p k x run. elim (ℕ_discrete i j) [
          | yes own ↦
              subst (λ y. rest (code j) y x) same
                (subst (λ q. rest q s.world x)
                  (place_inside s.calls i j (code i) p k own ∙ ap code own) run)
          | no ne ↦ cc (g.held j p (ground (arith, k, ne)), free)
        ];
      }
  Step-IsSerial w {s} g (works i p q v e keeps) h = record {
    order = h.order;
    served = h.served;
    serial = h.serial;
    complete = λ j. ground (arith, h.complete j, e);
    standing = λ none. absurd (none i q (ground arith));
    partway = λ j r k x run. elim (ℕ_discrete i j) [
      | yes own ↦
          subst (λ n. rest (code n) h.served x) own
            (h.partway i p e x
              (keeps x (subst (λ y. rest y v x) (place_inside s.calls i j q r k own) run)))
      | no ne ↦ absurd (ne (g.single i j p r e (ground (arith, k, ne))))
    ];
  }
  Step-IsSerial w {s} g (leaves i p v e run) h = record {
    order = i ∷ h.order;
    served = v;
    serial = once i h.serial (h.complete i ∙ ap has_returned e) (h.partway i p e v run);
    complete = λ j. ground (arith, h.complete j, e);
    standing = λ none. Stands-refl ends s.main v (λ f. g.none_left f i p e);
    partway = λ j r k. absurd (ground (arith, k, g.single i j p r e));
  }
  Step-IsSerial w {s} g (signalled e) h = record {
    order = h.order;
    served = h.served;
    serial = h.serial;
    complete = h.complete;
    standing =
        λ none. Stands-running ends s.main h.served s.world (λ f. cc (e, f)) (h.standing none);
    partway = h.partway;
  }
  Step-IsSerial w {s} g (finalizes v e free end) h = record {
    order = h.order;
    served = h.served;
    serial = h.serial;
    complete = h.complete;
    standing = λ none. subst (λ x. ends x v) (unlocked-same w g free (λ f. cc (e, f)) h) end;
    partway = λ i p k. cc (g.held i p k, free);
  }

  -- However the calls of `request` and the signal interleave, with each call working on the shared state
  -- part by part: where no call is inside, the server's state is the outcome of serving the calls that have
  -- returned one after another, each exactly once and each whole, and, once `RunServer` has ended, of the
  -- finalizer after the last of them; and what is left of a call that is inside leads to nothing that the
  -- whole call would not lead to behind the ones that have returned.
  pub serializes : (w : W) {t : Server P W} → Runs code rest ends (opened w) t → IsSerial w t
  serializes w start = record {
    order = [];
    served = w;
    serial = untouched;
    complete = λ i. refl;
    standing = λ none. refl;
    partway = λ i p k. cc k;
  }
  serializes w (later r step) =
      Step-IsSerial w (Runs-IsGuarded (opened-IsGuarded w) r) step (serializes w r)

-- ===== src/Server/Main.antt =====
-- server/server.go: main, from the start of the process to its end.
use mathlib.Core.Path.{subst}
use dropbox_for_ctf.Base.{ℕ, ◌≡◌, ◌⊎◌, inl, inr, refl, List, [], ◌∷◌}
use dropbox_for_ctf.Text.{Bytes, pos, neg}
use dropbox_for_ctf.FilePath.{Result, ok, err}
use dropbox_for_ctf.Go.{Outcome, next, ret, exit, hang, Func}
use dropbox_for_ctf.Store.{Host, World}
use dropbox_for_ctf.Rpc.Dispatch.{Codec, Registry, count_of}
use dropbox_for_ctf.Rpc.Dispatch
use dropbox_for_ctf.Rpc.Lock.{finished, Server, Runs, opened}
use dropbox_for_ctf.Rpc.Lock.Safety.{Runs-IsGuarded, opened-IsGuarded}
use dropbox_for_ctf.Rpc.Start.{
  Left, Ends, RunServer, no_finalizer, no_listener, interrupted, crashed,
}
use dropbox_for_ctf.Rpc.Lock.Serial.{Serial, Stands, is_in, has_returned, serializes}
use dropbox_for_ctf.Server.Lifecycle.{finalizer, start, started}
use dropbox_for_ctf.Server.Methods.{GoType, Value}
use dropbox_for_ctf.Server.Methods.Table.{register_all}
use dropbox_for_ctf.Server.Methods.Registered.{unregistered, registered, register_all-methods}
use dropbox_for_ctf.Server.Concurrent.{Meets, Handles, Goes, Finalizes}

-- `os.Args[1]`
abbrev pub address : List Bytes → Bytes
address [] = []
address (name ∷ []) = []
address (name ∷ addr ∷ rest) = addr

-- `if err != nil { …; os.Exit(1) }` after `RunServer`, and the return of `main`.
abbrev pub ended :
    {W : Type 0}
    → Outcome W (Result (Unit {0})) (Result (Unit {0}))
    → Outcome W (Unit {0}) (Unit {0})
ended (next (ok u) w) = next tt w
ended (next (err e) w) = exit w
ended (ret (ok u) w) = next tt w
ended (ret (err e) w) = exit w
ended (exit w) = exit w
ended (hang w) = hang w

module _ {S : Type 0} (host : Host S) (fuel : ℕ) (codec : Codec GoType Value)
    (requests : ℕ → Dispatch.Request) (listen : Bytes → World S → Result (Unit {0})) where
  -- The outcomes of `main`: it ends before it serves, or as `RunServer` does. With a number that has a
  -- minus sign in filecount.txt the server serves too, from a counter that is no natural number: nothing is
  -- said of its outcome.
  pub data Process (args : List Bytes) (w : World S)
      : Outcome (World S) (Unit {0}) (Unit {0}) → Type 0 where
    stops : {v : World S} → start host (count_of args) w ≡ exit v → Process args w (exit v)
    panics :
        {n : ℕ} {x : World S} {r : Registry GoType Value (World S)}
        → start host (count_of args) w ≡ next (pos n) x
        → register_all host fuel {R = Unit} 11 unregistered ≡ exit r
        → Process args w (exit x)
    serves :
        {n : ℕ} {x : World S} {r : Registry GoType Value (World S)}
        {o : Outcome (World S) (Result (Unit {0})) (Result (Unit {0}))}
        → start host (count_of args) w ≡ next (pos n) x
        → register_all host fuel {R = Unit} 11 unregistered ≡ next tt r
        → RunServer codec Meets requests r listen (address args) (started n x) o
        → Process args w (ended o)
    serves_below_zero :
        {n : ℕ} {x : World S} {o : Outcome (World S) (Unit {0}) (Unit {0})}
        → start host (count_of args) w ≡ next (neg n) x
        → Process args w o

  -- A start, a run of the server to its end, and what the run comes to: the requests of the calls that have
  -- returned, each once and one after another, and the finalizer.
  pub record IsOrderly (args : List Bytes) (w v : World S) : Type 0 where
    pub count : ℕ
    pub ready : World S
    pub begins : start host (count_of args) w ≡ next (pos count) ready
    pub last : Server (Left (World S)) (World S)
    pub runs :
        Runs
          (Handles host fuel codec requests)
          (Goes host fuel codec requests)
          (Finalizes host fuel codec requests)
          (opened (started count ready))
          last
    pub over : last.main ≡ finished
    pub left : last.world ≡ v
    pub order : List ℕ
    pub complete : (i : ℕ) → is_in i order ≡ has_returned (last.calls i)
    pub served : World S
    pub serial :
        Serial
          (λ i. Goes host fuel codec requests (Handles host fuel codec requests i))
          (started count ready)
          order
          served
    pub finalizes : Finalizes host fuel codec requests served v

  abbrev Runner : Func (World S) (Unit {0}) → World S → World S → Type 0
  Runner f = Ends codec Meets requests (registered host fuel) f

  outcome :
      {n : ℕ} {x : World S} (args : List Bytes) (w : World S)
      {o : Outcome (World S) (Result (Unit {0})) (Result (Unit {0}))}
      → start host (count_of args) w ≡ next (pos n) x
      → RunServer codec Meets requests (registered host fuel) listen (address args) (started n x) o
      → ((v : World S) × (ended o ≡ exit v))
        ⊎ ((v : World S) × (ended o ≡ next tt v) × IsOrderly args w v)
  outcome args w e (no_finalizer f) = inl (_, refl)
  outcome args w e (no_listener t f l) = inl (_, refl)
  outcome args w e (crashed i p f l runs now end) = inl (_, refl)
  outcome {n} {x} args w e (interrupted {f} {t} found l runs over) =
      let same : f ≡ finalizer host = cc found in
      let ran =
        subst
          (λ k.
            Runs (Handles host fuel codec requests) (Goes host fuel codec requests) (Runner k)
              (opened (started n x)) t)
          same runs in
      let s =
        serializes (Handles host fuel codec requests) (Goes host fuel codec requests)
          (Finalizes host fuel codec requests) (started n x) ran in
      let none = (Runs-IsGuarded (opened-IsGuarded (started n x)) ran).none_left over in
      inr (
        t.world,
        refl,
        record {
          count = n;
          ready = x;
          begins = e;
          last = t;
          runs = ran;
          over = over;
          left = refl;
          order = s.order;
          complete = s.complete;
          served = s.served;
          serial = s.serial;
          finalizes =
              subst (λ m. Stands (Finalizes host fuel codec requests) m s.served t.world) over
                (s.standing none);
        },
      )

  -- `main` ends in one of two ways, unless the number in filecount.txt has a minus sign: the process exits,
  -- or the server was started with the number in filecount.txt, and its last state is that of serving the
  -- requests of exactly the calls that have returned, one after another, each once, and of the finalizer
  -- behind the last of them.
  pub server_ends :
      (args : List Bytes) (w : World S) {o : Outcome (World S) (Unit {0}) (Unit {0})}
      → Process args w o
      → ((v : World S) × (o ≡ exit v))
        ⊎ (((v : World S) × (o ≡ next tt v) × IsOrderly args w v)
            ⊎ ((n : ℕ) × (x : World S) × (start host (count_of args) w ≡ next (neg n) x)))
  server_ends args w (stops {v} e) = inl (v, refl)
  server_ends args w (panics {n} {x} e f) = inl (x, refl)
  server_ends args w (serves_below_zero {n} {x} e) = inr (inr (n, x, e))
  server_ends args w (serves {n} {x} {r} {o} e f run) =
      let same : r ≡ registered host fuel = cc (f, register_all-methods host fuel {R = Unit}) in
      elim (outcome args w e (
        subst (λ q. RunServer codec Meets requests q listen (address args) (started n x) o) same
          run)) [ inl ends ↦ inl ends | inr orderly ↦ inr (inl orderly) ]

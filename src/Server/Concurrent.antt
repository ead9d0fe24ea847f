-- ===== src/Server/Concurrent.antt =====
-- The server as clients reach it: calls of request that share the mutex, with requests of any name and
-- any arguments, while the operating system and the database's failures change between them.
use mathlib.Core.Path.{subst}
use dropbox_for_ctf.Base.{sym, ℕ, ◌≢◌, Bool, List}
use dropbox_for_ctf.Go.{Outcome, next, ret, exit, hang, Func}
use dropbox_for_ctf.Go.Keeps.{After, Keeps}
use dropbox_for_ctf.Store.{Host, World}
use dropbox_for_ctf.Rpc.Dispatch.{Codec, request}
use dropbox_for_ctf.Rpc.Dispatch
use dropbox_for_ctf.Rpc.Lock.{Main, listening, interrupted, finished, inside, Server, Runs, opened}
use dropbox_for_ctf.Rpc.Lock.Serial.{Serial, untouched, once, Stands, serializes}
use dropbox_for_ctf.Server.Lifecycle.{finalizer}
use dropbox_for_ctf.Server.Invariant.Sound.{IsSound, sound_rules}
use dropbox_for_ctf.Server.Methods.{GoType, Value}
use dropbox_for_ctf.Server.Methods.Arbitrary.{request-IsSound}
use dropbox_for_ctf.Rpc.Start.{Left, Leaves, Ends, Handling, Rest}
use dropbox_for_ctf.Server.Methods.Registered.{registered}
use dropbox_for_ctf.Server.Run.{IsBlank, IsUnique, IsBlank-IsSound, IsSound-IsUnique}

module _ {S : Type 0} where
  -- The operating system and the database's failures to come may be any others.
  pub data Meets (w : World S) : World S → Type 0 where
    changed : (s : S) (fs : List Bool) → Meets w (record w { os = s; faults = fs })

  Meets-IsSound : {w v : World S} → Meets w v → IsSound w → IsSound v
  Meets-IsSound (changed s fs) h = record { users = h.users; files = h.files; shares = h.shares }

  Leaves-IsSound :
      {A : Type 0} (o : Outcome (World S) A A) {v : World S}
      → After IsSound o
      → Leaves o v
      → IsSound v
  Leaves-IsSound (next a w) h e = subst IsSound (sym e) h
  Leaves-IsSound (ret r w) h e = subst IsSound (sym e) h
  Leaves-IsSound (exit w) h e = absurd e
  Leaves-IsSound (hang w) h e = absurd e

module _ {S : Type 0} (host : Host S) (fuel : ℕ) (codec : Codec GoType Value)
    (requests : ℕ → Dispatch.Request) where
  -- What the calls of `request` do with the handlers of `main`, and what `RunServer` does at its end.
  abbrev pub Handles : ℕ → Left (World S)
  Handles = Handling codec Meets requests (registered host fuel)

  abbrev pub Goes : Left (World S) → World S → World S → Type 0
  Goes = Rest codec Meets requests (registered host fuel)

  abbrev pub Finalizes : World S → World S → Type 0
  Finalizes = Ends codec Meets requests (registered host fuel) (finalizer host)

  pub Ends-IsSound :
      {A : Type 0} {m : Func (World S) A} {w v : World S}
      → Keeps IsSound m
      → Ends codec Meets requests (registered host fuel) m w v
      → IsSound w
      → IsSound v
  Ends-IsSound {m = m} keeps end h =
      Leaves-IsSound (m end.found) (keeps.at end.found (Meets-IsSound end.meeting h)) end.leaves

  pub finalizer-IsSound : Keeps IsSound (finalizer host)
  unfolding finalizer
  finalizer-IsSound = search sound_rules

  pub Serial-IsSound :
      {w v : World S} {order : List ℕ}
      → Serial (λ i. Goes (Handles i)) w order v
      → IsSound w
      → IsSound v
  Serial-IsSound untouched h = h
  Serial-IsSound (once i before fresh end) h =
      Ends-IsSound (request-IsSound host fuel codec (requests i)) end (Serial-IsSound before h)

  Stands-IsSound : (m : Main) {v x : World S} → Stands Finalizes m v x → IsSound v → IsSound x
  Stands-IsSound listening e h = subst IsSound (sym e) h
  Stands-IsSound interrupted e h = subst IsSound (sym e) h
  Stands-IsSound finished end h = Ends-IsSound finalizer-IsSound end h

  -- Whatever requests the clients send, malformed ones too, however their calls interleave, part by part,
  -- with each other and with the signal, and whatever the operating system and the database do at the
  -- beginning of each: in every state that the server comes to from empty tables and in which no call is
  -- inside, no user name stands in the database twice, no digest belongs to two stored files, and no file is
  -- shared twice with one user.
  pub concurrent-IsUnique :
      (w : World S) {t : Server (Left (World S)) (World S)}
      → IsBlank w
      → Runs Handles Goes Finalizes (opened w) t
      → ((i : ℕ) (p : Left (World S)) → t.calls i ≢ inside p)
      → IsUnique t.world
  concurrent-IsUnique w {t} blank runs none =
      let s = serializes Handles Goes Finalizes w runs in
      IsSound-IsUnique
        (Stands-IsSound t.main (s.standing none) (Serial-IsSound s.serial (IsBlank-IsSound blank)))

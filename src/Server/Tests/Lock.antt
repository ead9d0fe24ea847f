-- ===== src/Server/Tests/Lock.antt =====
-- The theorems on calls that share the mutex, at small servers.
use mathlib.Core.Path.{subst}
use dropbox_for_ctf.Base.{ℕ, suc, sym, ◌∙◌, arith, ◌≡◌, refl, true, false, [], ◌∷◌}
use dropbox_for_ctf.Text.{lit, str_eq, split, join, contains_slash}
use dropbox_for_ctf.FilePath.{ok, abs, clean}
use dropbox_for_ctf.Go.{next, call, pure}
use dropbox_for_ctf.Go.Step.{bind-next, call-next}
use dropbox_for_ctf.Store.{World, quiet}
use dropbox_for_ctf.Rpc.Lock.{
  absent, waiting, inside, returned, Server, place, listening, arrives, enters, works, leaves, Runs,
  start, later, opened,
}
use dropbox_for_ctf.Rpc.Lock.Serial.{IsSerial, serializes}
use dropbox_for_ctf.Rpc.Dispatch.{
  request, find_handler, handle_request, decode_args, answer, respond,
}
use dropbox_for_ctf.Rpc.Dispatch
use dropbox_for_ctf.Rpc.Start.{Left, going, Leaves}
use dropbox_for_ctf.Server.Methods.Table.{methods, arguments_of, value_of}
use dropbox_for_ctf.Server.Methods.Serve.{called, request_serves}
use dropbox_for_ctf.Server.Account.{signup_handler}
use dropbox_for_ctf.Server.Signup.{IsAcceptable, signed_up_at, signup_creates}
use dropbox_for_ctf.Server.Handlers.{Request, signup, signed_up, serve}
use dropbox_for_ctf.Server.Run.{IsUnique}
use dropbox_for_ctf.Server.Concurrent.{Handles, Goes, Finalizes, changed, concurrent-IsUnique}
use dropbox_for_ctf.Sample.{Disk, disk, world, memory}
use dropbox_for_ctf.Sample
use dropbox_for_ctf.Sample.Wire.{wire, write, read}

-- A server of a counter. Each call reads it, which leaves the call with what it has read, and sets it to
-- one more; so does the finalizer.
data Piece : Type 0 where
  reads : Piece
  writes : ℕ → Piece

abbrev GoesOn : Piece → ℕ → ℕ → Type 0
GoesOn reads m n = n ≡ suc m
GoesOn (writes k) m n = n ≡ suc k

abbrev Counts : ℕ → ℕ → Type 0
Counts m n = n ≡ suc m

abbrev one_waiting : Server Piece ℕ
one_waiting = record (opened 0) { calls = place (λ i. absent) 0 waiting }

one_waits : Runs (λ i. reads) GoesOn Counts (opened 0) one_waiting
one_waits = later start (arrives 0 refl)

abbrev one_inside : Server Piece ℕ
one_inside = record one_waiting { locked = true; calls = place one_waiting.calls 0 (inside reads) }

one_enters : Runs (λ i. reads) GoesOn Counts (opened 0) one_inside
one_enters = later one_waits (enters 0 refl refl)

abbrev one_read : Server Piece ℕ
one_read = record one_inside { calls = place one_inside.calls 0 (inside (writes 0)); world = 0 }

one_reads : Runs (λ i. reads) GoesOn Counts (opened 0) one_read
one_reads = later one_enters (works 0 reads (writes 0) 0 refl (λ x e. e))

abbrev served_once : Server Piece ℕ
served_once = record one_read { locked = false; calls = place one_read.calls 0 returned; world = 1 }

one_leaves : Runs (λ i. reads) GoesOn Counts (opened 0) served_once
one_leaves = later one_reads (leaves 0 (writes 0) 1 refl refl)

serializes_example : IsSerial (λ i. reads) GoesOn Counts 0 served_once
serializes_example = serializes (λ i. reads) GoesOn Counts 0 one_leaves

abbrev blank : World Disk
blank = record world { users = []; files = []; shares = []; faults = [] }

abbrev signs_up : Request
signs_up = signup (lit "x") (lit "password")

-- The call of `signup` with its two arguments as they are sent.
abbrev asked : Dispatch.Request
asked = called memory 3 wire signs_up ((0 ∷ lit "x") ∷ (0 ∷ lit "password") ∷ [])

acceptable : IsAcceptable memory (lit "x") (lit "password") blank
unfolding lit str_eq contains_slash
acceptable = record { fresh = λ e. cc e; long = omega arith; plain = refl }

abbrev moved : Disk
moved = record disk {
  nodes =
      (lit "/srv/userfs/x/Shared_with_me", Sample.Node.folder)
      ∷ (lit "/srv/userfs/x", Sample.Node.folder)
      ∷ disk.nodes;
}

abbrev with_user : World Disk
with_user = signed_up_at memory (lit "x") (lit "password") blank moved

signup_done : signup_handler memory (lit "x") (lit "password") (quiet blank) ≡ next true with_user
unfolding memory lit str_eq abs clean split join
signup_done = signup_creates memory (lit "x") (lit "password") blank acceptable refl refl

serve_done : serve memory 3 signs_up blank ≡ next (signed_up true) with_user
unfolding serve pure
serve_done =
    let signs = signup_handler memory (lit "x") (lit "password") in
    bind-next (call signs) _ (call-next signs signup_done)

asked_done : request wire (methods memory 3) asked blank ≡ next (ok (1 ∷ [])) with_user
unfolding arguments_of write read respond value_of pure
asked_done =
    request_serves memory 3 wire signs_up ((0 ∷ lit "x") ∷ (0 ∷ lit "password") ∷ []) blank
      (refl, (refl, tt))
    ∙ bind-next (call (serve memory 3 signs_up)) _ (call-next (serve memory 3 signs_up) serve_done)

abbrev Asks : ℕ → Left (World Disk)
Asks = Handles memory 3 wire (λ i. asked)

-- The call once it has found the state as it was.
abbrev found_state : Left (World Disk)
found_state = going (request wire (methods memory 3) asked)

abbrev bare : Server (Left (World Disk)) (World Disk)
bare = record {
  locked = false;
  calls =
      place
        (place (place (place (λ i. absent) 0 waiting) 0 (inside (Asks 0))) 0 (inside found_state)) 0
        returned;
  main = listening;
  world = with_user;
}

bare_runs :
    Runs Asks
      (Goes memory 3 wire (λ i. asked))
      (Finalizes memory 3 wire (λ i. asked))
      (opened blank)
      bare
bare_runs =
    later
      (later (later (later start (arrives 0 refl)) (enters 0 refl refl)) (
        works 0 (Asks 0) found_state blank refl
          (λ x e. record { found = blank; meeting = changed disk []; leaves = e })))
      (leaves 0 found_state with_user refl (subst (λ o. Leaves o with_user) (sym asked_done) refl))

concurrent-IsUnique_example : IsUnique bare.world
concurrent-IsUnique_example =
    concurrent-IsUnique memory 3 wire (λ i. asked) blank
      (record { users = refl; files = refl; shares = refl }) bare_runs (λ i p e. ground (arith, e))

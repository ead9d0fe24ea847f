-- ===== src/Server/Tests/Main.antt =====
-- The theorem on main at a server that is stopped before any call.
use dropbox_for_ctf.Base.{ℕ, ◌≡◌, ◌⊎◌, refl, true, List, [], ◌∷◌}
use dropbox_for_ctf.Text.{Bytes, lit, str_eq, itoa, atoi, trim_newline, pos, neg}
use dropbox_for_ctf.FilePath.{ok}
use dropbox_for_ctf.Go.{Outcome, next, exit, ◌>>=◌}
use dropbox_for_ctf.Store.{World, access, draw, system}
use dropbox_for_ctf.Rpc.Dispatch.{count_of}
use dropbox_for_ctf.Rpc.Dispatch
use dropbox_for_ctf.Rpc.Lock.{
  absent, finished, Server, signalled, finalizes, Runs, start, later, opened,
}
use dropbox_for_ctf.Rpc.Start.{Left, interrupted}
use dropbox_for_ctf.Server.Lifecycle.{finalizer, started}
use dropbox_for_ctf.Server.Lifecycle
use dropbox_for_ctf.Server.Methods.Registered.{register_all-methods}
use dropbox_for_ctf.Server.Concurrent.{Handles, Goes, Finalizes, changed}
use dropbox_for_ctf.Server.Main.{Process, serves, IsOrderly, server_ends}
use dropbox_for_ctf.Sample
use dropbox_for_ctf.Sample.{Disk, disk, world, memory, find, follow}
use dropbox_for_ctf.Sample.Wire.{wire}

abbrev no_method : Dispatch.Request
no_method = record { name = []; args = [] }

abbrev counted : World Disk
counted = record world {
  os = record disk { nodes = (lit "./filecount.txt", Sample.file (itoa 7)) ∷ disk.nodes };
  faults = [];
}

start_at_seven : Lifecycle.start memory 2 counted ≡ next (pos 7) counted
unfolding Lifecycle.start memory lit str_eq itoa atoi trim_newline find follow ◌>>=◌ access draw
start_at_seven = refl

abbrev at_seven : World Disk
at_seven = started 7 counted

abbrev written : World Disk
written = record at_seven {
  os = record disk { nodes = (lit "./filecount.txt", Sample.file (itoa 7)) ∷ counted.os.nodes };
}

abbrev stopped : Server (Left (World Disk)) (World Disk)
stopped = record { locked = true; calls = λ i. absent; main = finished; world = written }

stopped_runs :
    Runs
      (Handles memory 3 wire (λ i. no_method))
      (Goes memory 3 wire (λ i. no_method))
      (Finalizes memory 3 wire (λ i. no_method))
      (opened at_seven)
      stopped
unfolding finalizer memory system ◌>>=◌
stopped_runs = later (later start (signalled refl)) (
    finalizes written refl refl
      (record { found = at_seven; meeting = changed at_seven.os []; leaves = refl }))

abbrev args : List Bytes
args = lit "server" ∷ lit "localhost:80" ∷ []

runs_to_end :
    Process memory 3 wire (λ i. no_method) (λ addr w. ok tt) args counted (next tt written)
runs_to_end =
    serves start_at_seven (register_all-methods memory 3) (interrupted refl refl stopped_runs refl)

abbrev done : Outcome (World Disk) (Unit {0}) (Unit {0})
done = next tt written

server_ends_example :
    ((v : World Disk) × (done ≡ exit v))
    ⊎ (((v : World Disk) × (done ≡ next tt v)
          × IsOrderly memory 3 wire (λ i. no_method) (λ addr w. ok tt) args counted v)
        ⊎ ((n : ℕ) × (x : World Disk) × (Lifecycle.start memory (count_of args) counted
              ≡ next (neg n) x)))
server_ends_example =
    server_ends memory 3 wire (λ i. no_method) (λ addr w. ok tt) args counted runs_to_end

-- ===== src/Server/Lifecycle.antt =====
-- The start and the end of the server: main up to the registration of the handlers, and finalizer.
use dropbox_for_ctf.Base.{ℕ, not, Bool, Option, none, some, [], ◌==◌, if◌then◌else◌}
use dropbox_for_ctf.Text.{lit, itoa, Number, atoi, trim_newline}
use dropbox_for_ctf.FilePath.{Result, ok, err}
use dropbox_for_ctf.Go.{Body, Func, ◌>>=◌, ◌>>◌, pure, exit_process, gets}
use dropbox_for_ctf.Store.{Host, World, access, system}

-- The state of a new process: no sessions, and the counter that was read.
abbrev pub started : {S : Type 0} → ℕ → World S → World S
started n w = record w { cookiemap = []; filecount = n; faults = [] }

module _ {S : Type 0} where
  -- `if cond { …; os.Exit(1) }`
  unfoldable pub exit_if : {R : Type 0} → Bool → Body (World S) R (Unit {0})
  exit_if b = if b then exit_process else pure tt

  unfoldable pub result_or_exit : {R A : Type 0} → Result A → Body (World S) R A
  result_or_exit (ok a) = pure a
  result_or_exit (err e) = exit_process

  unfoldable pub number_or_exit : {R : Type 0} → Option Number → Body (World S) R Number
  number_or_exit none = exit_process
  number_or_exit (some n) = pure n

module _ {S : Type 0} (host : Host S) where
  -- What `main` does before it registers the handlers, for `len(os.Args)` arguments. The result is the
  -- value that `filecount` gets.
  unfoldable pub start : ℕ → Func (World S) Number
  unfolding exit_if result_or_exit number_or_exit
  start args = do
    exit_if (not (args == 2))
    bad ← access
    exit_if bad
    read ← gets (λ w. host.read_file (lit "./filecount.txt") w.os)
    filecount_read ← result_or_exit read
    number_or_exit (atoi (trim_newline filecount_read))

  -- The error of `ioutil.WriteFile` is ignored.
  unfoldable pub finalizer : Func (World S) (Unit {0})
  finalizer = do
    count ← gets (λ w. w.filecount)
    _ ← system (host.write_file (lit "./filecount.txt") (itoa count))
    pure tt

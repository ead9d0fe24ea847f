-- ===== src/Store.antt =====
-- The server's state: the operating system as an interface, the three tables of dropbox.db, the
-- session map and the file counter. Statements to the database may fail at any time.
pub mod Rules
pub mod Triples
pub mod Reports
use dropbox_for_ctf.Base.{
  ℕ, Bool, true, false, Option, none, some, List, [], ◌∷◌, ◌++◌, count_by, select_by, first_by,
  delete_by, update_by, if◌then◌else◌,
}
use dropbox_for_ctf.Text.{Bytes, str_eq}
use dropbox_for_ctf.FilePath.{Result, ok, err}
use dropbox_for_ctf.Go.{Body, next, exit, ◌>>=◌, ◌>>◌, pure, exit_process, gets, modify}

-- What `os.Stat` tells: `unknown` is an error for which `os.IsNotExist` is false.
pub data Stat : Type 0 where
  exists not_exist unknown : Stat

-- The operating system, the clock, the random source and the hash, which the program only calls.
-- A call that may change the file system returns the new state, after an error too.
pub record Host (S : Type 0) : Type 0 where
  pub getwd : S → Result Bytes
  pub stat : Bytes → S → Stat
  -- whether the mode has the bit `os.ModeSymlink`
  pub lstat : Bytes → S → Result Bool
  pub readlink : Bytes → S → Result Bytes
  pub read_file : Bytes → S → Result Bytes
  -- names with `IsDir()`
  pub read_dir : Bytes → S → Result (List (Bool × Bytes))
  pub remove : Bytes → S → Result (Unit {0}) × S
  pub mkdir : Bytes → S → Result (Unit {0}) × S
  -- target, then the place of the link
  pub symlink : Bytes → Bytes → S → Result (Unit {0}) × S
  pub write_file : Bytes → Bytes → S → Result (Unit {0}) × S
  -- nanoseconds after the zero `time.Time`
  pub now : S → ℕ
  -- `rand.Read` of 64 bytes
  pub random : S → Bytes × S
  -- base64 of the SHA-1 sum
  pub digest : Bytes → Bytes
  -- base64
  pub encode : Bytes → Bytes

-- A row of `userdata`
pub record UserRow : Type 0 where
  pub username : Bytes
  pub passhash : Bytes

-- A row of `filedata`
pub record FileRow : Type 0 where
  pub filename : Bytes
  pub filehash : Bytes
  pub numowners : ℕ

-- A row of `sharedata`
pub record ShareRow : Type 0 where
  pub sharer : Bytes
  pub sharee : Bytes
  pub origpath : Bytes
  pub shareepath : Bytes
  pub perm : ℕ

-- `Cookie`; a zero `time.Time` is 0
pub record Cookie : Type 0 where
  pub sessionid : Bytes
  pub expiretime : ℕ

abbrev pub zero_cookie : Cookie
zero_cookie = record { sessionid = []; expiretime = 0 }

-- `faults` says of each coming access to the database whether it fails.
pub record World (S : Type 0) : Type 0 where
  pub os : S
  pub users : List UserRow
  pub files : List FileRow
  pub shares : List ShareRow
  pub cookiemap : List (Bytes × Cookie)
  pub filecount : ℕ
  pub faults : List Bool

-- The same state with a database that does not fail.
abbrev pub quiet : {S : Type 0} → World S → World S
quiet w = record w { faults = [] }

-- `Cookiemap[username]`, the zero value if the key is missing
unfoldable pub find_cookie : Bytes → List (Bytes × Cookie) → Cookie
find_cookie u [] = zero_cookie
find_cookie u ((k, c) ∷ m) = if str_eq k u then c else find_cookie u m

-- `Cookiemap[username] = c`
unfoldable pub put_cookie : Bytes → Cookie → List (Bytes × Cookie) → List (Bytes × Cookie)
put_cookie u c [] = (u, c) ∷ []
put_cookie u c ((k, d) ∷ m) = if str_eq k u then (k, c) ∷ m else (k, d) ∷ put_cookie u c m

-- How `QueryRow(…).Scan(…)` ends
pub data Scan (A : Type 0) : Type 0 where
  row : A → Scan A
  no_rows : Scan A
  failed : Scan A

unfoldable pub found : {A : Type 0} → Option A → Scan A
found none = no_rows
found (some a) = row a

abbrev pub row_or : {A : Type 0} → A → Scan A → A
row_or d (row a) = a
row_or d no_rows = d
row_or d failed = d

-- `err == sql.ErrNoRows`
abbrev pub is_no_rows : {A : Type 0} → Scan A → Bool
is_no_rows (row a) = false
is_no_rows no_rows = true
is_no_rows failed = false

abbrev pub is_not_exist : Stat → Bool
is_not_exist exists = false
is_not_exist not_exist = true
is_not_exist unknown = false

abbrev pub is_exists : Stat → Bool
is_exists exists = true
is_exists not_exist = false
is_exists unknown = false

module _ {S R : Type 0} where
  -- One access to the database: whether it failed.
  unfoldable pub draw : List Bool → Body (World S) R Bool
  draw [] w = next false w
  draw (b ∷ bs) w = next b (record w { faults = bs })

  unfoldable pub access : Body (World S) R Bool
  unfolding draw
  access w = draw w.faults w

  -- `db.Prepare`; a failure ends the process.
  unfoldable pub prepare : Body (World S) R (Unit {0})
  unfolding access
  prepare = access >>= λ bad. if bad then exit_process else pure tt

  -- `stmt.Exec(…)`; a failure ends the process.
  unfoldable pub run : (World S → World S) → Body (World S) R (Unit {0})
  unfolding access
  run f = access >>= λ bad. if bad then exit_process else modify f

  -- `db.Prepare` and `Exec`
  unfoldable pub execute : (World S → World S) → Body (World S) R (Unit {0})
  unfolding prepare run
  execute f = do prepare; run f

module _ {S R A : Type 0} where
  -- `QueryRow(…).Scan(…)` on a prepared statement
  unfoldable pub query_row : (World S → Option A) → Body (World S) R (Scan A)
  unfolding prepare found
  query_row f = do prepare; bad ← access; if bad then pure failed else gets (λ w. found (f w))

  -- `if err != nil { os.Exit(1) }` after a scan
  unfoldable pub or_exit : Scan A → Body (World S) R A
  or_exit (row a) = pure a
  or_exit no_rows = exit_process
  or_exit failed = exit_process

  -- `Query(…)` and the loop over its rows
  unfoldable pub query : (World S → List A) → Body (World S) R (List A)
  unfolding prepare
  query f = do prepare; bad ← access; if bad then exit_process else gets f

  -- A system call on the operating system's state.
  unfoldable pub system : (S → Result A × S) → Body (World S) R (Result A)
  system f w = let (r, s) = f w.os in next r (record w { os = s })

module _ {S R : Type 0} where
  -- `SELECT count(1) …`, scanned or the process ends.
  unfoldable pub count : (World S → ℕ) → Body (World S) R ℕ
  unfolding query_row or_exit
  count f = do r ← query_row (λ w. some (f w)); or_exit r

-- ===== src/Server/Run.antt =====
-- Runs of the server: requests one at a time and orderly restarts, while the operating system and
-- the database's failures change as they like between them.
use dropbox_for_ctf.Base.{ℕ, ◌≤◌, ◌≡◌, Bool, List, [], count_by}
use dropbox_for_ctf.Text.{Bytes, str_eq}
use dropbox_for_ctf.Go.{Outcome, next, ret, exit, hang}
use dropbox_for_ctf.Go.Keeps.{After}
use dropbox_for_ctf.Store.{Host, World, UserRow, FileRow}
use dropbox_for_ctf.Server.Sharing.{is_share}
use dropbox_for_ctf.Server.Handlers.{Request, serve}
use dropbox_for_ctf.Server.Lifecycle.{started}
use dropbox_for_ctf.Server.Invariant.Users.{IsUsers-count-le}
use dropbox_for_ctf.Server.Invariant.Files.{IsFiles-count-le}
use dropbox_for_ctf.Server.Invariant.Shares.{IsShares-count-le}
use dropbox_for_ctf.Server.Invariant.Sound.{IsSound}
use dropbox_for_ctf.Server.Invariant.Requests.{Keeps-serve}

module _ {S : Type 0} where
  -- The state of a server that was installed and never used.
  pub record IsBlank (w : World S) : Type 0 where
    pub users : w.users ≡ []
    pub files : w.files ≡ []
    pub shares : w.shares ≡ []

  pub IsBlank-IsSound : {w : World S} → IsBlank w → IsSound w
  IsBlank-IsSound {w} blank = record {
    users = rw blank.users tt;
    files = rw blank.files tt;
    shares = rw blank.shares tt;
  }

  -- No row of a table stands for the same thing as another one.
  pub record IsUnique (w : World S) : Type 0 where
    pub users : (u : Bytes) → count_by (λ (r : UserRow). str_eq r.username u) w.users ≤ 1
    pub files : (d : Bytes) → count_by (λ (r : FileRow). str_eq r.filehash d) w.files ≤ 1
    pub shares : (u x p : Bytes) → count_by (is_share u x p) w.shares ≤ 1

  pub IsSound-IsUnique : {w : World S} → IsSound w → IsUnique w
  IsSound-IsUnique {w} sound = record {
    users = λ u. IsUsers-count-le u w.users sound.users;
    files = λ d. IsFiles-count-le w.filecount d w.files sound.files;
    shares = λ u x p. IsShares-count-le u x p w.shares sound.shares;
  }

module _ {S : Type 0} (host : Host S) (fuel : ℕ) where
  -- The state in which a request ends, whichever way it ends.
  abbrev pub end_state : {A : Type 0} → Outcome (World S) A A → World S
  end_state (next a w) = w
  end_state (ret r w) = w
  end_state (exit w) = w
  end_state (hang w) = w

  -- A request that ends the process is a step, too; a start without the finalizer is not.
  pub data Step (w : World S) : World S → Type 0 where
    served : (r : Request) → Step w (end_state (serve host fuel r w))
    system_moves : (s : S) → Step w (record w { os = s })
    database_fails : (fs : List Bool) → Step w (record w { faults = fs })
    -- an end by the finalizer and a start
    restarted : Step w (started w.filecount w)

  pub data Reach (w : World S) : World S → Type 0 where
    here : Reach w w
    after : {v x : World S} → Reach w v → Step v x → Reach w x

  end_state-IsSound :
      {A : Type 0} (o : Outcome (World S) A A) → After IsSound o → IsSound (end_state o)
  end_state-IsSound (next a w) h = h
  end_state-IsSound (ret r w) h = h
  end_state-IsSound (exit w) h = h
  end_state-IsSound (hang w) h = h

  -- Every request keeps the tables sound, whatever the operating system answers and whichever accesses
  -- to the database fail, and also where the request ends the process.
  pub serve-IsSound : (r : Request) (w : World S) → IsSound w → After IsSound (serve host fuel r w)
  serve-IsSound r w h = (Keeps-serve host fuel r).at w h

  Step-IsSound : {w v : World S} → Step w v → IsSound w → IsSound v
  Step-IsSound {w} (served r) h = end_state-IsSound (serve host fuel r w) (serve-IsSound r w h)
  Step-IsSound (system_moves s) h = record { users = h.users; files = h.files; shares = h.shares }
  Step-IsSound restarted h = record { users = h.users; files = h.files; shares = h.shares }
  Step-IsSound (database_fails fs) h = record {
    users = h.users;
    files = h.files;
    shares = h.shares;
  }

  Reach-IsSound : {w v : World S} → Reach w v → IsSound w → IsSound v
  Reach-IsSound here h = h
  Reach-IsSound (after r st) h = Step-IsSound st (Reach-IsSound r h)

  -- In every state that the server reaches from empty tables, over requests, failures and orderly
  -- restarts, no user name stands in the database twice, no digest belongs to two
  -- stored files, and no file is shared twice with one user.
  pub Reach-IsUnique : (w v : World S) → IsBlank w → Reach w v → IsUnique v
  Reach-IsUnique w v blank reached =
      IsSound-IsUnique (Reach-IsSound reached (IsBlank-IsSound blank))

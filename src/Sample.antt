-- ===== src/Sample.antt =====
-- A file system in memory and a small server state, for tests.
pub mod Lawful
pub mod Wire
use dropbox_for_ctf.Base.{
  ℕ, zero, suc, ◌+◌, ◌≡◌, refl, Bool, true, false, Option, none, some, List, [], ◌∷◌, ◌++◌, arith,
  ◌==◌, if◌then◌else◌, Bool-cases, inl, inr,
}
use dropbox_for_ctf.Text.{Bytes, lit, str_eq}
use dropbox_for_ctf.Text.Laws.{str_eq_refl, eq_of_str_eq}
use dropbox_for_ctf.FilePath.{Result, ok, err, abs}
use dropbox_for_ctf.Store.{Host, World, Stat, exists, not_exist, UserRow, FileRow, ShareRow, Cookie}

pub data Node : Type 0 where
  folder : Node
  file : Bytes → Node
  link : Bytes → Node

-- The nodes by their absolute paths, and the time.
pub record Disk : Type 0 where
  pub nodes : List (Bytes × Node)
  pub clock : ℕ

unfoldable pub find : Bytes → List (Bytes × Node) → Option Node
find p [] = none
find p ((q, n) ∷ ns) = if str_eq q p then some n else find p ns

unfoldable pub drop : Bytes → List (Bytes × Node) → List (Bytes × Node)
drop p [] = []
drop p ((q, n) ∷ ns) = let rest = drop p ns in if str_eq q p then rest else (q, n) ∷ rest

-- The working directory of the sample.
abbrev pub root : Bytes
root = lit "/srv"

abbrev pub locate : Bytes → Bytes
locate p = elim (abs (ok root) p) [ ok q ↦ q | err e ↦ p ]

abbrev pub missing_file : Bytes
missing_file = lit "no such file or directory"

-- What stands behind a link, one step far.
unfoldable pub follow : Bytes → List (Bytes × Node) → Option Node
unfolding find
follow p ns = elim (find p ns) [
  | none ↦ none
  | some folder ↦ some folder
  | some (file b) ↦ some (file b)
  | some (link t) ↦ find t ns
]

unfoldable pub read_node : Option Node → Result Bytes
read_node none = err missing_file
read_node (some folder) = err (lit "is a directory")
read_node (some (file b)) = ok b
read_node (some (link t)) = err (lit "too many links")

unfoldable pub is_link : Option Node → Result Bool
is_link none = err missing_file
is_link (some folder) = ok false
is_link (some (file b)) = ok false
is_link (some (link t)) = ok true

unfoldable pub target : Option Node → Result Bytes
target none = err missing_file
target (some folder) = err (lit "invalid argument")
target (some (file b)) = err (lit "invalid argument")
target (some (link t)) = ok t

unfoldable pub stat_node : Option Node → Stat
stat_node none = not_exist
stat_node (some n) = exists

-- A new node at a free place.
unfoldable pub create : Bytes → Node → Disk → Result (Unit {0}) × Disk
create p n d = elim (find p d.nodes) [
  | none ↦ (ok tt, record d { nodes = (p, n) ∷ d.nodes })
  | some m ↦ (err (lit "file exists"), d)
]

unfoldable pub erase : Bytes → Disk → Result (Unit {0}) × Disk
erase p d = elim (find p d.nodes) [
  | none ↦ (err missing_file, d)
  | some m ↦ (ok tt, record d { nodes = drop p d.nodes })
]

unfoldable pub memory : Host Disk
unfolding find drop follow read_node is_link target stat_node create erase
memory = record {
  getwd = λ d. ok root;
  stat = λ p d. stat_node (follow p d.nodes);
  lstat = λ p d. is_link (find p d.nodes);
  readlink = λ p d. target (find p d.nodes);
  read_file = λ p d. read_node (follow p d.nodes);
  read_dir = λ p d. ok [];
  remove = erase;
  mkdir = λ p. create (locate p) folder;
  symlink = λ t p. create p (link t);
  write_file = λ p b d. (ok tt, record d { nodes = (p, file b) ∷ d.nodes });
  now = λ d. d.clock;
  random = λ d. (7 ∷ [], d);
  digest = λ b. b;
  encode = λ b. b;
}

abbrev pub disk : Disk
disk = record {
  nodes =
      (lit "/srv/userfs/alice/notes", link (lit "/srv/filestore/file0"))
      ∷ (lit "/srv/filestore/file0", file (1 ∷ 2 ∷ []))
      ∷ (lit "/srv/userfs/bob/Shared_with_me/notes", link (lit "/srv/filestore/file0"))
      ∷ [];
  clock = 10;
}

abbrev pub cookie : Bytes
cookie = 9 ∷ []

-- alice shares her notes with bob, who may read them; both hold a session.
abbrev pub world : World Disk
world = record {
  os = disk;
  users =
      record { username = lit "alice"; passhash = lit "secret" }
      ∷ record { username = lit "bob"; passhash = lit "hidden" }
      ∷ [];
  files = record { filename = lit "file0"; filehash = 1 ∷ 2 ∷ []; numowners = 1 } ∷ [];
  shares =
      record {
        sharer = lit "alice";
        sharee = lit "bob";
        origpath = lit "/srv/userfs/alice/notes";
        shareepath = lit "/srv/userfs/bob/Shared_with_me/notes";
        perm = 0;
      }
      ∷ [];
  cookiemap =
      (lit "alice", record { sessionid = cookie; expiretime = 100 })
      ∷ (lit "bob", record { sessionid = cookie; expiretime = 100 })
      ∷ [];
  filecount = 1;
  faults = [];
}

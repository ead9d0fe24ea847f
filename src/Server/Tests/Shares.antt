-- ===== src/Server/Tests/Shares.antt =====
-- The theorems on shares at a small state.
use dropbox_for_ctf.Base.{
  ℕ, ◌<◌, ◌≤◌, ◌≡◌, refl, List, Bool-cases, inl, inr, none, false, true, [], ◌∷◌, ◌++◌, arith,
}
use dropbox_for_ctf.Text.{Bytes, lit, str_eq, slash, split, join, itoa, has_prefix}
use dropbox_for_ctf.Text.Laws.{str_eq_refl}
use dropbox_for_ctf.FilePath.{ok, clean, abs, base}
use dropbox_for_ctf.Go.{next}
use dropbox_for_ctf.Store.{World, ShareRow, is_not_exist, find_cookie, quiet}
use dropbox_for_ctf.Server.Account.{check_path, abspath}
use dropbox_for_ctf.Server.Sharing.{candidate, share_handler, unshare_handler, free_name}
use dropbox_for_ctf.Server.FreeName.{IsFreeName, free_name_first}
use dropbox_for_ctf.Server.Share.{
  IsSharing, share_grants, IsWithdrawal, unshare_restores, shared_with,
}
use dropbox_for_ctf.Server.Lend.{IsFreePlace, lent_read_only}
use dropbox_for_ctf.Server.Permission.{Reaches}
use dropbox_for_ctf.Server.Files.{download_handler, upload_handler}
use dropbox_for_ctf.Sample.Lawful.{memory-IsLawful}
use dropbox_for_ctf.Sample
use dropbox_for_ctf.Server.Share
use dropbox_for_ctf.Sample.{
  Disk, disk, world, cookie, memory, create, erase, root, locate, find, follow, drop, stat_node,
}

abbrev alice : Bytes
alice = lit "alice"

abbrev bob : Bytes
bob = lit "bob"

abbrev notes : Bytes
notes = lit "/srv/userfs/alice/notes"

abbrev lent : Bytes
lent = lit "/srv/userfs/bob/Shared_with_me/notes"

abbrev stored_path : Bytes
stored_path = lit "/srv/filestore/file0"

-- The sample before alice shared her notes.
abbrev unshared_world : World Disk
unshared_world = record world {
  shares = [];
  os = record disk {
    nodes = (notes, Sample.link stored_path) ∷ (stored_path, Sample.file (1 ∷ 2 ∷ [])) ∷ [];
  };
}

free_name_first_example :
    (n : ℕ) × (0 ≤ n)
    × (n ≤ 1)
    × IsFreeName memory (lit "/srv/userfs/bob/Shared_with_me") (lit "notes") world n
    × ((j : ℕ)
        → 0 ≤ j
        → j < n
        → ¬ IsFreeName memory (lit "/srv/userfs/bob/Shared_with_me") (lit "notes") world j)
    × (free_name memory {R = Bytes} (lit "/srv/userfs/bob/Shared_with_me") (lit "notes") 3 0 world
        ≡ next (candidate (lit "notes") n) world)
unfolding memory lit str_eq candidate itoa
free_name_first_example =
    free_name_first memory (lit "/srv/userfs/bob/Shared_with_me") (lit "notes") world 3 0 1
      (omega arith) (omega arith) refl

sharing :
    IsSharing memory alice cookie bob
      (lit "./userfs/alice/notes")
      (lit "r")
      notes
      (lit "/srv/userfs/bob/Shared_with_me")
      unshared_world
unfolding memory lit str_eq check_path abspath abs clean split join has_prefix find_cookie
sharing = record {
  session = (refl, omega arith, refl);
  allowed = refl;
  another = refl;
  proper = refl;
  known = omega arith;
  stands = refl;
  there = refl;
  owned = lit "/srv/userfs/alice/Shared_with_me";
  owned_stands = refl;
  outside = refl;
  fresh = refl;
  inbox_stands = refl;
}

abbrev inbox : Bytes
inbox = lit "/srv/userfs/bob/Shared_with_me"

-- bob has a file of the same name among his shared ones.
abbrev taken_disk : Disk
taken_disk = record disk { nodes = (lent, Sample.file []) ∷ unshared_world.os.nodes }

abbrev taken_world : World Disk
taken_world = record unshared_world { os = taken_disk }

free_lem :
    (a b c p x y : Bytes)
    → str_eq a c ≡ false
    → str_eq b c ≡ false
    → str_eq c c ≡ true
    → let ns : List (Bytes × Sample.Node) =
        (a, Sample.file x) ∷ (b, Sample.link c) ∷ (c, Sample.file y) ∷ [] in
      is_not_exist (stat_node (follow p ns)) ≡ true → find p ns ≡ none
unfolding follow find stat_node
free_lem a b c p x y e f g free = elim (Bool-cases (str_eq a p)) [
  | inl h ↦ absurd (ground (arith, h, free))
  | inr h ↦ elim (Bool-cases (str_eq b p)) [
    | inl i ↦ absurd (ground (arith, h, i, e, f, g, free))
    | inr i ↦ ground (arith, h, i, free)
  ]
]

apart : str_eq lent stored_path ≡ false
unfolding lit str_eq
apart = refl

below : str_eq notes stored_path ≡ false
unfolding lit str_eq
below = refl

linkable :
    (p : Bytes)
    → is_not_exist (memory.stat p taken_disk) ≡ true
    → (s : Disk) × (memory.symlink stored_path p taken_disk ≡ (ok tt, s))
unfolding memory create str_eq lit
linkable p free = (
  record disk { nodes = (p, Sample.link stored_path) ∷ taken_disk.nodes },
  rw (free_lem lent notes stored_path p [] (1 ∷ 2 ∷ []) apart below (str_eq_refl stored_path) free)
      refl,
)

IsSharing-taken :
    IsSharing memory alice cookie bob
      (lit "./userfs/alice/notes")
      (lit "r")
      notes
      (lit "/srv/userfs/bob/Shared_with_me")
      taken_world
unfolding memory lit str_eq check_path abspath abs clean split join has_prefix find_cookie
IsSharing-taken = record {
  session = (refl, omega arith, refl);
  allowed = refl;
  another = refl;
  proper = refl;
  known = omega arith;
  stands = refl;
  there = refl;
  owned = lit "/srv/userfs/alice/Shared_with_me";
  owned_stands = refl;
  outside = refl;
  fresh = refl;
  inbox_stands = refl;
}

share_grants_example :
    (n : ℕ) × (s : Disk) × (n ≤ 1)
    × IsFreeName memory inbox (base notes) taken_world n
    × ((j : ℕ) → j < n → ¬ IsFreeName memory inbox (base notes) taken_world j)
    × (memory.symlink stored_path (inbox ++ slash ∷ candidate (base notes) n) taken_disk
        ≡ (ok tt, s))
    × (share_handler memory 3
          (lit "./userfs/alice/notes")
          bob
          (lit "r")
          alice
          cookie
          (quiet taken_world)
        ≡ next [] (
            shared_with memory
              (Share.new_share memory alice bob notes inbox (candidate (base notes) n) (lit "r"))
              taken_world
              s))
unfolding memory lit str_eq candidate base split itoa
share_grants_example =
    share_grants memory alice cookie bob (lit "./userfs/alice/notes") (lit "r") notes inbox
      stored_path 3 1 taken_world IsSharing-taken (omega arith) refl refl refl
      (λ n free. linkable (inbox ++ slash ∷ candidate (base notes) n) free)

abbrev shared_disk : Disk
shared_disk = record disk { nodes = (lent, Sample.link stored_path) ∷ unshared_world.os.nodes }

abbrev shared_row : ShareRow
shared_row = record { sharer = alice; sharee = bob; origpath = notes; shareepath = lent; perm = 0 }

withdrawal :
    IsWithdrawal memory alice cookie bob
      (lit "./userfs/alice/notes")
      notes
      (shared_with memory shared_row unshared_world shared_disk)
unfolding memory lit str_eq check_path abspath abs clean split join has_prefix find_cookie
withdrawal = record {
  session = (refl, omega arith, refl);
  allowed = refl;
  another = refl;
  known = omega arith;
  stands = refl;
}

unshare_restores_example :
    unshare_handler memory
      (lit "./userfs/alice/notes")
      bob
      alice
      cookie
      (shared_with memory shared_row unshared_world shared_disk)
    ≡ next [] (record unshared_world {
      os = record disk { nodes = drop lent shared_disk.nodes };
      faults = [];
    })
unfolding memory lit str_eq
unshare_restores_example =
    unshare_restores memory alice cookie bob (lit "./userfs/alice/notes") notes lent 0
      unshared_world {s = shared_disk} {t = record disk { nodes = drop lent shared_disk.nodes }}
      refl withdrawal refl

free_place : IsFreePlace memory bob notes lent unshared_world
unfolding memory lit str_eq
free_place = record { free = refl; ungranted = refl; unshared = refl; elsewhere = refl }

abbrev lent_world : World Disk
lent_world = shared_with memory shared_row unshared_world shared_disk

bob-Reaches : Reaches memory bob cookie (lit "./userfs/bob/Shared_with_me/notes") lent lent_world
unfolding memory lit str_eq check_path abspath abs clean split join has_prefix find_cookie
bob-Reaches = record { session = (refl, omega arith, refl); allowed = refl; stands = refl }

lent_read_only_example :
    (share_handler memory 3
        (lit "./userfs/alice/notes")
        bob
        (lit "r")
        alice
        cookie
        (quiet unshared_world)
      ≡ next [] lent_world)
    × (download_handler memory (lit "./userfs/bob/Shared_with_me/notes") bob cookie lent_world
        ≡ next (record { body = 1 ∷ 2 ∷ []; err_text = [] }) lent_world)
    × (upload_handler memory
          (lit "./userfs/bob/Shared_with_me/notes")
          bob
          (5 ∷ [])
          cookie
          lent_world
        ≡ next (lit "Permission Denied") lent_world)
unfolding memory lit str_eq base split
lent_read_only_example =
    lent_read_only memory memory-IsLawful alice cookie bob cookie (lit "./userfs/alice/notes") notes
      inbox stored_path (lit "./userfs/bob/Shared_with_me/notes") (1 ∷ 2 ∷ []) (5 ∷ []) 2
      unshared_world {s = shared_disk} sharing free_place refl refl refl refl bob-Reaches

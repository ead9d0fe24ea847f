-- ===== src/Server/Tests/Uploads.antt =====
-- The theorems on uploads and removal at a small state.
use dropbox_for_ctf.Base.{◌≡◌, refl, true, false, [], ◌∷◌, arith}
use dropbox_for_ctf.Text.{Bytes, lit, str_eq, split, join, has_prefix}
use dropbox_for_ctf.FilePath.{clean, abs, is_abs}
use dropbox_for_ctf.Go.{next}
use dropbox_for_ctf.Store.{FileRow, find_cookie, quiet}
use dropbox_for_ctf.Server.Account.{check_path, abspath}
use dropbox_for_ctf.Server.Files.{upload_handler, download_handler, release}
use dropbox_for_ctf.Server.Session.{HasSession}
use dropbox_for_ctf.Server.Permission.{Reaches}
use dropbox_for_ctf.Server.Upload.{IsVacant, download-upload_again, stored_again}
use dropbox_for_ctf.Server.Release.{release_fault}
use dropbox_for_ctf.Server.Dedup.{remove-upload_again}
use dropbox_for_ctf.Server.Handlers.{remove_handler}
use dropbox_for_ctf.Server.Tests.Accounts.{world-IsSound}
use dropbox_for_ctf.Sample
use dropbox_for_ctf.Sample.Lawful.{memory-IsLawful}
use dropbox_for_ctf.Sample.{
  Disk, disk, world, cookie, memory, create, erase, root, locate, find, follow, drop,
}

abbrev alice : Bytes
alice = lit "alice"

pub alice_session : HasSession memory alice cookie world
unfolding memory lit str_eq find_cookie
alice_session = (refl, omega arith, refl)

alice-Reaches_new :
    Reaches memory alice cookie (lit "./userfs/alice/new") (lit "/srv/userfs/alice/new") world
unfolding memory lit str_eq check_path abspath abs clean split join has_prefix
alice-Reaches_new = record { session = alice_session; allowed = refl; stands = refl }

pub vacant :
    IsVacant memory alice cookie (lit "./userfs/alice/new") (lit "/srv/userfs/alice/new") world
unfolding memory lit str_eq abspath abs clean split join has_prefix
vacant = record {
  reach = alice-Reaches_new;
  unowned = refl;
  unlent = refl;
  inbox = lit "/srv/userfs/alice/Shared_with_me";
  inbox_stands = refl;
  outside = refl;
  free = refl;
}

abbrev pub written : Disk
written = record disk { nodes = (lit "/srv/filestore/file1", Sample.file (5 ∷ [])) ∷ disk.nodes }

abbrev pub linked : Disk
linked = record disk {
  nodes = (lit "/srv/userfs/alice/new", Sample.link (lit "/srv/filestore/file1")) ∷ written.nodes;
}

abbrev linked_again : Disk
linked_again = record disk {
  nodes = (lit "/srv/userfs/alice/new", Sample.link (lit "/srv/filestore/file0")) ∷ disk.nodes;
}

abbrev stored_notes : FileRow
stored_notes = record { filename = lit "file0"; filehash = 1 ∷ 2 ∷ []; numowners = 1 }

download-upload_again_example :
    (upload_handler memory (lit "./userfs/alice/new") alice (1 ∷ 2 ∷ []) cookie (quiet world)
      ≡ next
          (lit "End of uploadHelper")
          (stored_again memory (1 ∷ 2 ∷ []) stored_notes world linked_again))
    × (download_handler memory
          (lit "./userfs/alice/new")
          alice
          cookie
          (stored_again memory (1 ∷ 2 ∷ []) stored_notes world linked_again)
        ≡ next
            (record { body = 1 ∷ 2 ∷ []; err_text = [] })
            (stored_again memory (1 ∷ 2 ∷ []) stored_notes world linked_again))
unfolding memory lit str_eq abspath abs clean split join
download-upload_again_example =
    download-upload_again memory memory-IsLawful alice cookie (lit "./userfs/alice/new")
      (lit "/srv/userfs/alice/new") (lit "/srv/filestore/file0") (1 ∷ 2 ∷ []) (1 ∷ 2 ∷ [])
      stored_notes world {t = linked_again} vacant refl refl refl refl alice_session

abbrev stored_path : Bytes
stored_path = lit "/srv/filestore/file0"

abbrev emptied : Disk
emptied = record disk { nodes = drop stored_path disk.nodes }

-- The notes with a second owner.
abbrev owned_twice : FileRow
owned_twice = record { filename = lit "file0"; filehash = 1 ∷ 2 ∷ []; numowners = 2 }

release_fault_example :
    release memory stored_path
      (lit "file0")
      (record world { files = owned_twice ∷ []; faults = false ∷ true ∷ [] })
    ≡ next [] (record world { os = emptied; files = []; faults = [] })
unfolding memory lit str_eq
release_fault_example =
    release_fault memory stored_path (lit "file0") owned_twice
      (record world { files = owned_twice ∷ [] }) refl {s = emptied} refl

remove-upload_again_example :
    (upload_handler memory (lit "./userfs/alice/new") alice (1 ∷ 2 ∷ []) cookie (quiet world)
      ≡ next
          (lit "End of uploadHelper")
          (stored_again memory (1 ∷ 2 ∷ []) stored_notes world linked_again))
    × (remove_handler memory
          (lit "./userfs/alice/new")
          alice
          cookie
          (stored_again memory (1 ∷ 2 ∷ []) stored_notes world linked_again)
        ≡ next [] (record world { os = disk; faults = [] }))
unfolding memory lit str_eq abspath abs clean split join is_abs
remove-upload_again_example =
    remove-upload_again memory memory-IsLawful alice cookie (lit "./userfs/alice/new")
      (lit "/srv/userfs/alice/new") stored_path (1 ∷ 2 ∷ []) root stored_notes world
      {t = linked_again} {x = disk} world-IsSound vacant refl refl refl refl refl refl alice_session
      refl refl

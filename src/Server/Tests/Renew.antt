-- ===== src/Server/Tests/Renew.antt =====
-- The renewal of a lent file at the sample state.
use dropbox_for_ctf.Base.{◌≡◌, refl, [], ◌∷◌, arith}
use dropbox_for_ctf.Text.{Bytes, lit, str_eq, split, join, itoa, has_prefix}
use dropbox_for_ctf.FilePath.{clean, abs}
use dropbox_for_ctf.Go.{next}
use dropbox_for_ctf.Store.{World, FileRow, ShareRow, find_cookie, quiet}
use dropbox_for_ctf.Server.Account.{check_path, abspath}
use dropbox_for_ctf.Server.Files.{download_handler, upload_handler}
use dropbox_for_ctf.Server.Permission.{Reaches}
use dropbox_for_ctf.Server.Renew.{IsLent, IsBare, IsReplaced, renewed, lent_renewed}
use dropbox_for_ctf.Sample.Lawful.{memory-IsLawful}
use dropbox_for_ctf.Sample.{
  Disk, disk, world, cookie, memory, create, erase, find, follow, drop, file, link,
}

abbrev alice : Bytes
alice = lit "alice"

abbrev bob : Bytes
bob = lit "bob"

abbrev notes : Bytes
notes = lit "/srv/userfs/alice/notes"

abbrev typed : Bytes
typed = lit "./userfs/alice/notes"

abbrev lent : Bytes
lent = lit "/srv/userfs/bob/Shared_with_me/notes"

abbrev reading : Bytes
reading = lit "./userfs/bob/Shared_with_me/notes"

abbrev inbox : Bytes
inbox = lit "/srv/userfs/alice/Shared_with_me"

abbrev old_path : Bytes
old_path = lit "/srv/filestore/file0"

abbrev new_path : Bytes
new_path = lit "/srv/filestore/file1"

abbrev new_body : Bytes
new_body = 5 ∷ []

abbrev stored_row : FileRow
stored_row = record { filename = lit "file0"; filehash = 1 ∷ 2 ∷ []; numowners = 1 }

abbrev lent_row : ShareRow
lent_row = record { sharer = alice; sharee = bob; origpath = notes; shareepath = lent; perm = 0 }

-- The disk without the link of bob.
abbrev unlent_disk : Disk
unlent_disk = record disk { nodes = (notes, link old_path) ∷ (old_path, file (1 ∷ 2 ∷ [])) ∷ [] }

abbrev replaced_disk : Disk
replaced_disk = record disk { nodes = (notes, link new_path) ∷ (new_path, file new_body) ∷ [] }

abbrev relent_disk : Disk
relent_disk = record disk { nodes = (lent, link new_path) ∷ replaced_disk.nodes }

is_lent : IsLent memory alice cookie typed notes lent old_path stored_row lent_row world
unfolding memory lit str_eq check_path abspath abs clean split join has_prefix find_cookie
is_lent = record {
  reach = record { session = (refl, omega arith, refl); allowed = refl; stands = refl };
  owned = refl;
  once = refl;
  stored = refl;
  alone = refl;
}

is_bare : IsBare memory alice notes old_path inbox unlent_disk
unfolding memory lit str_eq check_path abspath abs clean split join has_prefix find follow
is_bare = record {
  allowed = refl;
  stands = refl;
  inbox_stands = refl;
  outside = refl;
  there = refl;
  is_link = refl;
  leads = refl;
}

is_replaced : IsReplaced memory notes old_path new_path new_body 1 unlent_disk replaced_disk
unfolding memory lit str_eq abspath abs clean split join has_prefix itoa find drop erase create
is_replaced = record {
  unlinked = record disk { nodes = (old_path, file (1 ∷ 2 ∷ [])) ∷ [] };
  unlinks = refl;
  freed = record disk { nodes = [] };
  frees = refl;
  names = refl;
  written = record disk { nodes = (new_path, file new_body) ∷ [] };
  writes = refl;
  links = refl;
}

abbrev renewed_world : World Disk
renewed_world = renewed memory old_path new_body world relent_disk

bob-Reaches : Reaches memory bob cookie reading lent renewed_world
unfolding memory lit str_eq check_path abspath abs clean split join has_prefix find_cookie
bob-Reaches = record { session = (refl, omega arith, refl); allowed = refl; stands = refl }

lent_renewed_example :
    (upload_handler memory typed alice new_body cookie (quiet world) ≡ next [] renewed_world)
    × (download_handler memory reading bob cookie renewed_world
        ≡ next (record { body = new_body; err_text = [] }) renewed_world)
unfolding memory lit str_eq split find drop erase create
lent_renewed_example =
    lent_renewed memory memory-IsLawful alice cookie typed notes lent old_path inbox new_path
      new_body stored_row lent_row bob cookie reading world {s = unlent_disk} {t = replaced_disk}
      {x = relent_disk} is_lent refl is_bare refl is_replaced refl bob-Reaches

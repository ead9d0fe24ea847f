-- ===== src/Server/Tests/Removal.antt =====
-- The theorem on the removal of a shared file at a small state.
use dropbox_for_ctf.Base.{◌≡◌, refl, [], ◌∷◌, arith}
use dropbox_for_ctf.Text.{Bytes, lit, str_eq, split, join, has_prefix}
use dropbox_for_ctf.FilePath.{clean, abs}
use dropbox_for_ctf.Go.{call}
use dropbox_for_ctf.Store.{ShareRow, find_cookie, quiet}
use dropbox_for_ctf.Server.Account.{check_path, abspath}
use dropbox_for_ctf.Server.Files.{remove}
use dropbox_for_ctf.Server.Handlers.{remove_handler}
use dropbox_for_ctf.Server.Removal.{Removes, IsRemoval, withdrawn, remove_handler_unshares}
use dropbox_for_ctf.Sample.{Disk, disk, world, cookie, memory, drop}
use dropbox_for_ctf.Server.Removal

abbrev notes : Bytes
notes = lit "/srv/userfs/alice/notes"

abbrev lent_row : ShareRow
lent_row = record {
  sharer = lit "alice";
  sharee = lit "bob";
  origpath = notes;
  shareepath = lit "/srv/userfs/bob/Shared_with_me/notes";
  perm = 0;
}

abbrev link_gone : Disk
link_gone = record disk { nodes = drop (lit "/srv/userfs/bob/Shared_with_me/notes") disk.nodes }

links_go : Removes memory (lit "/srv/userfs/bob/Shared_with_me/notes" ∷ []) disk link_gone
unfolding memory lit str_eq
links_go = Removal.Removes.first refl Removal.Removes.none_left

removal : IsRemoval memory (lit "alice") cookie (lit "./userfs/alice/notes") notes lent_row world
unfolding memory lit str_eq check_path abspath abs clean split join has_prefix find_cookie
removal = record {
  session = (refl, omega arith, refl);
  allowed = refl;
  stands = refl;
  there = refl;
  lent = refl;
}

remove_handler_unshares_example :
    remove_handler memory (lit "./userfs/alice/notes") (lit "alice") cookie (quiet world)
    ≡ call
        (remove memory (lit "./userfs/alice/notes") (lit "alice"))
        (withdrawn memory (lit "alice") notes world link_gone)
unfolding lit str_eq
remove_handler_unshares_example =
    remove_handler_unshares memory (lit "alice") cookie (lit "./userfs/alice/notes") notes lent_row
      world {t = link_gone} removal links_go

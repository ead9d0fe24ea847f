-- ===== src/Server/Tests/Permission.antt =====
-- The theorems on permissions at a small state.
use dropbox_for_ctf.Base.{◌≡◌, refl, [], ◌∷◌, arith}
use dropbox_for_ctf.Text.{Bytes, lit, str_eq, split, join, has_prefix}
use dropbox_for_ctf.FilePath.{clean, abs}
use dropbox_for_ctf.Go.{next}
use dropbox_for_ctf.Store.{find_cookie, quiet}
use dropbox_for_ctf.Server.Account.{check_path, abspath}
use dropbox_for_ctf.Server.Files.{upload_handler}
use dropbox_for_ctf.Server.Sharing.{chperm_handler}
use dropbox_for_ctf.Server.Session.{HasSession}
use dropbox_for_ctf.Server.Permission.{Reaches, IsChange, chperm_revokes, with_perm}
use dropbox_for_ctf.Sample.{world, cookie, memory}

abbrev alice : Bytes
alice = lit "alice"

abbrev bob : Bytes
bob = lit "bob"

abbrev notes : Bytes
notes = lit "/srv/userfs/alice/notes"

abbrev lent : Bytes
lent = lit "/srv/userfs/bob/Shared_with_me/notes"

alice_session : HasSession memory alice cookie world
unfolding memory lit str_eq find_cookie
alice_session = (refl, omega arith, refl)

bob_session : HasSession memory bob cookie world
unfolding memory lit str_eq find_cookie
bob_session = (refl, omega arith, refl)

bob-Reaches : Reaches memory bob cookie (lit "./userfs/bob/Shared_with_me/notes") lent world
unfolding memory lit str_eq check_path abspath abs clean split join has_prefix
bob-Reaches = record { session = bob_session; allowed = refl; stands = refl }

alice_changes : IsChange memory alice cookie bob (lit "./userfs/alice/notes") notes world
unfolding memory lit str_eq check_path abspath abs clean split join has_prefix
alice_changes = record {
  session = alice_session;
  allowed = refl;
  stands = refl;
  owned = lit "/srv/userfs/alice/Shared_with_me";
  inbox = refl;
  outside = refl;
  there = refl;
  shared = omega arith;
}

chperm_revokes_example :
    (chperm_handler memory (lit "./userfs/alice/notes") bob (lit "r") alice cookie (quiet world)
      ≡ next (lit "Permissions updated") (with_perm memory alice bob notes 0 world))
    × (upload_handler memory
          (lit "./userfs/bob/Shared_with_me/notes")
          bob
          (5 ∷ [])
          cookie
          (with_perm memory alice bob notes 0 world)
        ≡ next (lit "Permission Denied") (with_perm memory alice bob notes 0 world))
unfolding lit str_eq
chperm_revokes_example =
    chperm_revokes memory alice cookie bob cookie (lit "./userfs/alice/notes") notes
      (lit "./userfs/bob/Shared_with_me/notes") lent (5 ∷ []) _ world alice_changes bob-Reaches refl
      refl refl

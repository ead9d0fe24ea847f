-- ===== src/Client/Tests.antt =====
-- The client's theorems for one client of a small server, over a network without losses.
mod Quit
mod Dialogue
use dropbox_for_ctf.Base.{◌≡◌, refl, true, [], ◌∷◌}
use dropbox_for_ctf.Text.{Bytes, lit, str_eq, split, join, has_prefix}
use dropbox_for_ctf.FilePath.{clean, abs}
use dropbox_for_ctf.Go.{next, hang, ◌>>=◌, call}
use dropbox_for_ctf.Store.{World, find_cookie, quiet, query_row, found, count, execute, system}
use dropbox_for_ctf.Server.Account.{check_path, abspath, check_cookie, check_user}
use dropbox_for_ctf.Server.Handlers.{mkdir, in_session, message, serve, run_command, mkdir_handler}
use dropbox_for_ctf.Sample
use dropbox_for_ctf.Sample.{Disk, disk, world, cookie, memory}
use dropbox_for_ctf.Sample.Wire.{wire, wire-IsFaithful, near, near-IsServing, client}
use dropbox_for_ctf.Client.{Attempt, Client}
use dropbox_for_ctf.Client.Login.{log_in}
use dropbox_for_ctf.Client.Report.{after, verdict}
use dropbox_for_ctf.Client.Told.{mkdir_told, told_method, method_tells}
use dropbox_for_ctf.Client.Dialogue.{log_in_hangs}

abbrev alice : Bytes
alice = lit "alice"

abbrev same : Bytes → Bytes
same text = text

abbrev with_folder : World Disk
with_folder = record (quiet world) {
  os = record disk { nodes = (lit "/srv/userfs/alice/sub", Sample.folder) ∷ disk.nodes };
}

folder_made :
    serve memory 3 (in_session alice cookie (mkdir (lit "./userfs/alice/sub"))) (quiet world)
    ≡ next (message []) with_folder
unfolding serve run_command mkdir_handler check_cookie check_user check_path abspath abs clean split
    join has_prefix memory lit str_eq find_cookie query_row found count execute system ◌>>=◌
folder_made = refl

method_tells_example :
    call {R = Attempt (Unit {0})}
      (told_method
        (near memory 3)
        wire
        same
        {dir = lit "./userfs/alice/"}
        (mkdir_told {x = b's'} {p = lit "ub"}))
      client
    ≡ verdict same tt [] (after client with_folder)
unfolding lit
method_tells_example =
    method_tells memory 3 wire wire-IsFaithful (near memory 3) (near-IsServing memory 3) same
      (mkdir (lit "sub")) (mkdir (lit "./userfs/alice/sub")) [] client {v = with_folder} mkdir_told
      folder_made

abbrev moved_client : Client (World Disk)
moved_client = record client {
  link = record { connected = true; world = quiet world };
  currdir = lit "./userfs/alice/notes/";
}

log_in_hangs_example :
    (d : Client (World Disk)) × (log_in (near memory 3) wire {R = Unit} 7 client ≡ hang d)
log_in_hangs_example = log_in_hangs (near memory 3) wire 7 client refl

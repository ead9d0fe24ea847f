-- ===== src/Server/Tests/Frame.antt =====
-- The theorems on what a request changes, at a small state.
use dropbox_for_ctf.Base.{arith, ◌≤◌, ◌<◌, ◌≡◌, ◌≢◌, inr, refl, [], ◌∷◌, ◌+◌}
use dropbox_for_ctf.Text.{Bytes, lit, str_eq, itoa}
use dropbox_for_ctf.Go.Keeps.{After}
use dropbox_for_ctf.Store.{World, find_cookie}
use dropbox_for_ctf.Server.Handlers.{Request, in_session, upload, pwd, serve, run_command}
use dropbox_for_ctf.Server.Lifecycle.{started}
use dropbox_for_ctf.Server.Frame.{IsWithin}
use dropbox_for_ctf.Server.Frame.Requests.{scope_of, serve-IsWithin}
use dropbox_for_ctf.Server.Guard.{stranger_refused}
use dropbox_for_ctf.Server.Session.{reauth}
use dropbox_for_ctf.Store.Reports.{Reports}
use dropbox_for_ctf.Server.Counter.{uploads, counter_bounded}
use dropbox_for_ctf.Server.Run.{Reach, here, after, served, end_state}
use dropbox_for_ctf.Sample
use dropbox_for_ctf.Sample.{Disk, disk, world, cookie, memory, find, follow}

abbrev uploads_note : Request
uploads_note = in_session (lit "alice") cookie (upload (lit "./userfs/alice/new") (5 ∷ []))

serve-IsWithin_example :
    After (IsWithin (scope_of uploads_note) world) (serve memory 3 uploads_note world)
serve-IsWithin_example = serve-IsWithin memory 3 uploads_note world

abbrev counted : World Disk
counted = record world {
  os = record disk { nodes = (lit "./filecount.txt", Sample.file (itoa 7)) ∷ disk.nodes };
  faults = [];
}

abbrev one_upload :
    Reach memory 3
      (started 7 counted)
      (end_state memory 3 (serve memory 3 uploads_note (started 7 counted)))
one_upload = after here (served uploads_note)

abbrev uploaded : World Disk
uploaded = end_state memory 3 (serve memory 3 uploads_note (started 7 counted))

counter_bounded_example :
    (7 ≤ uploaded.filecount)
    × (uploaded.filecount ≤ 7 + uploads memory 3 one_upload)
    × (uploaded.filecount < 9223372036854775808)
counter_bounded_example =
    counter_bounded memory 3 (started 7 counted) uploaded one_upload (omega arith)

abbrev alice : Bytes
alice = lit "alice"

abbrev after_upload : World Disk
after_upload = end_state memory 3 (serve memory 3 uploads_note world)

other_cookie : (find_cookie alice world.cookiemap).sessionid ≢ 8 ∷ []
unfolding find_cookie lit str_eq
other_cookie e = cc e

stranger_refused_example :
    Reports after_upload
      (λ r. r ≡ reauth pwd)
      (run_command memory 3 alice (8 ∷ []) pwd after_upload)
stranger_refused_example =
    stranger_refused memory 3 alice world after_upload (8 ∷ []) pwd (inr other_cookie)
      (after here (served uploads_note)) (tt, refl)

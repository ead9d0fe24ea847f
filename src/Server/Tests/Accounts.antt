-- ===== src/Server/Tests/Accounts.antt =====
-- The theorems on the tables, sessions and accounts at a small state over a file system in memory.
use dropbox_for_ctf.Base.{◌+◌, ◌<◌, ◌≡◌, ◌≢◌, refl, ◌↔◌, true, false, [], ◌∷◌, arith}
use dropbox_for_ctf.Text.{Bytes, lit, str_eq, split, join, itoa, contains_slash}
use dropbox_for_ctf.FilePath.{clean, abs}
use dropbox_for_ctf.Go.{ret, next, exit}
use dropbox_for_ctf.Go.Keeps.{After}
use dropbox_for_ctf.Store.{World, find_cookie, quiet}
use dropbox_for_ctf.Store.Reports.{Reports}
use dropbox_for_ctf.Server.Account.{
  check_cookie, authenticate_handler, signup_handler, session_length,
}
use dropbox_for_ctf.Server.Handlers.{Request, Command, serve, run_command}
use dropbox_for_ctf.Server.Invariant.Sound.{IsSound}
use dropbox_for_ctf.Server.Run.{Step, Reach, IsUnique, serve-IsSound, Reach-IsUnique}
use dropbox_for_ctf.Server.Session.{HasSession, reauth, check_cookie-Reports, run_command_refused}
use dropbox_for_ctf.Server.Login.{authenticate_opens, new_session, after_login}
use dropbox_for_ctf.Server.Enrol.{authenticate-signup}
use dropbox_for_ctf.Server.Signup.{IsAcceptable, signup_strands, signed_up_at}
use dropbox_for_ctf.Sample
use dropbox_for_ctf.Server.Run
use dropbox_for_ctf.Sample.{
  Disk, disk, world, cookie, memory, create, erase, root, locate, find, follow, drop,
}

abbrev alice : Bytes
alice = lit "alice"

abbrev bob : Bytes
bob = lit "bob"

abbrev notes : Bytes
notes = lit "/srv/userfs/alice/notes"

abbrev lent : Bytes
lent = lit "/srv/userfs/bob/Shared_with_me/notes"

-- A string of the source runs once its parts are open.
pub world-IsSound : IsSound world
unfolding lit str_eq contains_slash itoa
world-IsSound = record {
  users = (refl, refl, (refl, refl, tt));
  files = ((0, omega arith, refl), omega arith, refl, refl, tt);
  shares = (refl, omega arith, refl, tt);
}

serve-IsSound_example : After IsSound (
    serve memory 3
      (Request.in_session alice cookie (Command.remove_file (lit "./userfs/alice/notes")))
      world)
serve-IsSound_example = serve-IsSound memory 3 _ world world-IsSound

bob_session : HasSession memory bob cookie world
unfolding memory lit str_eq find_cookie
bob_session = (refl, omega arith, refl)

stranger : ¬ HasSession memory bob (8 ∷ []) world
unfolding memory lit str_eq find_cookie
stranger h = cc (h.2)

run_command_refused_example :
    Reports world
      (λ r. r ≡ reauth (Command.mkdir notes))
      (run_command memory 3 bob (8 ∷ []) (Command.mkdir notes) world)
run_command_refused_example =
    run_command_refused memory world 3 bob (8 ∷ []) (Command.mkdir notes) stranger

check_cookie-Reports_example :
    Reports world
      (λ b. (b ≡ true) ↔ HasSession memory alice cookie world)
      (check_cookie memory alice cookie world)
check_cookie-Reports_example = check_cookie-Reports memory world alice cookie

blank : World Disk
blank = record world { users = []; files = []; shares = [] }

signs_up : Request
signs_up = Request.signup (lit "carol") (lit "password")

Reach-IsUnique_example : IsUnique (Run.end_state memory 3 (serve memory 3 signs_up blank))
unfolding blank
Reach-IsUnique_example =
    Reach-IsUnique memory 3 blank _ (record { users = refl; files = refl; shares = refl })
      (Reach.after Reach.here (Step.served signs_up))

authenticate_opens_example :
    (authenticate_handler memory alice (lit "secret") (quiet world)
      ≡ next
          (record { auth = true; session = new_session memory alice (lit "secret") world })
          (after_login memory alice (lit "secret") world))
    × ((s : Disk)
        → s.clock < 10 + session_length
        → HasSession memory alice
            (7 ∷ [])
            (record (after_login memory alice (lit "secret") world) { os = s }))
    × ((s : Disk) (c : Bytes)
        → c ≢ 7 ∷ []
        → ¬ HasSession memory alice c
            (record (after_login memory alice (lit "secret") world) { os = s }))
    × ((v : Bytes)
        → v ≢ alice
        → find_cookie v (after_login memory alice (lit "secret") world).cookiemap
          ≡ find_cookie v world.cookiemap)
unfolding memory lit str_eq
authenticate_opens_example =
    authenticate_opens memory alice (lit "secret") world world-IsSound.users refl

-- A name of one letter is accepted.
acceptable : IsAcceptable memory (lit "x") (lit "password") world
unfolding lit str_eq contains_slash
acceptable = record { fresh = omega arith; long = omega arith; plain = refl }

-- With the users' directory on disk, the name "." is accepted and its directory cannot be made.
dotted : World Disk
dotted = record world {
  os = record disk { nodes = (lit "/srv/userfs", Sample.Node.folder) ∷ disk.nodes };
}

dot_acceptable : IsAcceptable memory (lit ".") (lit "password") dotted
unfolding lit str_eq contains_slash dotted
dot_acceptable = record { fresh = omega arith; long = omega arith; plain = refl }

signup_strands_example :
    signup_handler memory (lit ".") (lit "password") (quiet dotted)
    ≡ exit (signed_up_at memory (lit ".") (lit "password") dotted dotted.os)
unfolding memory lit str_eq abs clean split join dotted
signup_strands_example = signup_strands memory (lit ".") (lit "password") dotted dot_acceptable refl

abbrev new_disk : Disk
new_disk = record disk {
  nodes =
      (lit "/srv/userfs/x/Shared_with_me", Sample.Node.folder)
      ∷ (lit "/srv/userfs/x", Sample.Node.folder)
      ∷ disk.nodes;
}

-- The world of the new user at a later time.
abbrev later : World Disk
later = record (signed_up_at memory (lit "x") (lit "password") world new_disk) {
  os = record disk { clock = 20 };
}

authenticate-signup_example :
    (signup_handler memory (lit "x") (lit "password") (quiet world)
      ≡ next true (signed_up_at memory (lit "x") (lit "password") world new_disk))
    × (authenticate_handler memory (lit "x") (lit "password") later
        ≡ next
            (record { auth = true; session = new_session memory (lit "x") (lit "password") later })
            (after_login memory (lit "x") (lit "password") later))
    × (authenticate_handler memory (lit "x") (lit "secret") later
        ≡ ret (record { auth = false; session = [] }) later)
    × (signup_handler memory (lit "x") (lit "mine, too") later ≡ ret false later)
unfolding memory lit str_eq abs clean split join
authenticate-signup_example =
    authenticate-signup memory (lit "x") (lit "password") world world-IsSound.users acceptable
      (lit "secret") (lit "mine, too") {t = new_disk} (record disk { clock = 20 }) refl refl
      (λ e. cc e)

-- ===== src/Server/Invariant/Requests.antt =====
-- The invariant in the other handlers and in the dispatch of a request.
use dropbox_for_ctf.Base.{ℕ, List, [], ◌∷◌}
use dropbox_for_ctf.Text.{Bytes}
use dropbox_for_ctf.Go.{Body, call}
use dropbox_for_ctf.Go.Keeps.{Keeps, Keeps-bind}
use dropbox_for_ctf.Store.{Host, World}
use dropbox_for_ctf.Server.Files.{remove, SharedAs, as_sharer, as_sharee, unshared}
use dropbox_for_ctf.Server.Handlers.{
  list_handler, mkdir_handler, unshare_all, remove_as_sharee, remove_as_sharer, remove_handler,
  pwd_handler, cd_handler, Command, Request, run_command, serve,
}
use dropbox_for_ctf.Server.Invariant.Sound.{
  IsSound, sound_rules, abs_or-IsSound, remove-IsSound, check_cookie-IsSound,
}
use dropbox_for_ctf.Server.Invariant.Uploads.{is_shared_file-IsSound}
pub use dropbox_for_ctf.Server.Invariant.Uploads.{upload_handler-IsSound, download_handler-IsSound}
pub use dropbox_for_ctf.Server.Invariant.Accounts.{
  authenticate_handler-IsSound, signup_handler-IsSound,
}
pub use dropbox_for_ctf.Server.Invariant.Grants.{
  chperm_handler-IsSound, share_handler-IsSound, unshare_handler-IsSound,
}

module _ {S : Type 0} (host : Host S) where
  pub list_handler-IsSound : (p u c : Bytes) → Keeps {W = World S} IsSound (list_handler host p u c)
  unfolding list_handler
  list_handler-IsSound p u c = search (sound_rules, check_cookie-IsSound) depth 20

  pub mkdir_handler-IsSound :
      (p u c : Bytes) → Keeps {W = World S} IsSound (mkdir_handler host p u c)
  unfolding mkdir_handler
  mkdir_handler-IsSound p u c = search (sound_rules, check_cookie-IsSound) depth 20

  unshare_all-IsSound :
      (u p : Bytes) (ps : List Bytes) → Keeps {W = World S} IsSound (unshare_all host u p ps)
  unfolding unshare_all
  unshare_all-IsSound u p [] = search sound_rules
  unshare_all-IsSound u p (q ∷ ps) = Keeps-bind _ _ (search sound_rules) λ r.
      Keeps-bind _ _ (search sound_rules)
        λ _. Keeps-bind _ _ (search sound_rules) λ _. unshare_all-IsSound u p ps

  remove_as_sharee-IsSound : (p u : Bytes) → Keeps {W = World S} IsSound (remove_as_sharee host p u)
  unfolding remove_as_sharee
  remove_as_sharee-IsSound p u = search sound_rules depth 12

  remove_as_sharer-IsSound :
      (q p u : Bytes) → Keeps {W = World S} IsSound (remove_as_sharer host q p u)
  unfolding remove_as_sharer
  remove_as_sharer-IsSound q p u =
      search (sound_rules, unshare_all-IsSound, remove-IsSound) depth 12

  -- The three ways on from `isSharedFile`.
  removal-IsSound :
      (q p u : Bytes) (shared : SharedAs)
      → Keeps {W = World S} {R = Bytes} IsSound (elim shared as (λ _. Body (World S) Bytes Bytes) [
        | unshared ↦ call (remove host q u)
        | as_sharee ↦ call (remove_as_sharee host p u)
        | as_sharer ↦ call (remove_as_sharer host q p u)
      ])
  removal-IsSound q p u unshared = search (sound_rules, remove-IsSound)
  removal-IsSound q p u as_sharee = search (sound_rules, remove_as_sharee-IsSound)
  removal-IsSound q p u as_sharer = search (sound_rules, remove_as_sharer-IsSound)

  pub remove_handler-IsSound :
      (p u c : Bytes) → Keeps {W = World S} IsSound (remove_handler host p u c)
  unfolding remove_handler
  remove_handler-IsSound p u c =
      search
        (sound_rules, removal-IsSound, check_cookie-IsSound, abs_or-IsSound, is_shared_file-IsSound)
        depth 30

  pub pwd_handler-IsSound : (u c : Bytes) → Keeps {W = World S} IsSound (pwd_handler host u c)
  unfolding pwd_handler
  pwd_handler-IsSound u c = search (sound_rules, check_cookie-IsSound) depth 20

  pub cd_handler-IsSound : (p u c : Bytes) → Keeps {W = World S} IsSound (cd_handler host p u c)
  unfolding cd_handler
  cd_handler-IsSound p u c = search (sound_rules, check_cookie-IsSound, abs_or-IsSound) depth 30

pub ruleset handler_rules = (
  sound_rules, list_handler-IsSound, mkdir_handler-IsSound, remove_handler-IsSound,
  pwd_handler-IsSound, cd_handler-IsSound, chperm_handler-IsSound, share_handler-IsSound,
  unshare_handler-IsSound, upload_handler-IsSound, download_handler-IsSound,
  authenticate_handler-IsSound, signup_handler-IsSound,
)

module _ {S : Type 0} (host : Host S) (fuel : ℕ) where
  run_command-IsSound :
      (u c : Bytes) (command : Command)
      → Keeps {W = World S} IsSound (run_command host fuel u c command)
  unfolding run_command
  run_command-IsSound u c (Command.chperm p v n) = search handler_rules
  run_command-IsSound u c _ = search handler_rules

  -- Whatever the request, the operating system's answers and the failures of the database, and
  -- however the request ends, the tables stay sound.
  pub Keeps-serve : (r : Request) → Keeps {W = World S} IsSound (serve host fuel r)
  unfolding serve
  Keeps-serve (Request.in_session u c command) = run_command-IsSound u c command
  Keeps-serve (Request.authenticate u p) = search handler_rules
  Keeps-serve (Request.signup u p) = search handler_rules

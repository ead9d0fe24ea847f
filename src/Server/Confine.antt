-- ===== src/Server/Confine.antt =====
-- Commands on paths: what every handler does with a path that `checkpath` does not accept.
use dropbox_for_ctf.Base.{ℕ, ◌≡◌, refl, ◌↔◌, Bool, true, false, not, List, []}
use dropbox_for_ctf.Text.{Bytes, lit}
use dropbox_for_ctf.Go.{Body, ◌>>=◌, ◌>>◌, return_if, call, gets}
use dropbox_for_ctf.Store.{Host, World}
use dropbox_for_ctf.Store.Reports.{Reports, Reports-call}
use dropbox_for_ctf.Server.Account.{check_path, check_cookie}
use dropbox_for_ctf.Server.Session.{HasSession, check_cookie-Reports, wrapped}
use dropbox_for_ctf.Server.Files.{upload_handler, download_handler}
use dropbox_for_ctf.Server.Sharing.{chperm_handler, share_handler, unshare_handler}
use dropbox_for_ctf.Server.Handlers.{
  list_handler, mkdir_handler, remove_handler, cd_handler, Command, chperm, share, unshare, upload,
  download, list, mkdir, remove_file, pwd, cd, Reply, message, contents, listing, run_command,
}

-- The replies to a path outside the user's root; `pwd` has no path.
abbrev pub outside : Command → Reply
outside (download p) = contents (record { body = []; err_text = lit "Path does not exist!" })
outside (list p) = listing (record { entries = []; err_text = lit "Directory does not exist!" })
outside (chperm p v n) = message (lit "You don't have access to this.")
outside (share p v n) = message (lit "You don't have access to this resource")
outside (unshare p v) = message (lit "You do not have access to this resource")
outside (upload p b) = message (lit "Path does not exist on the server!")
outside (mkdir p) = message (lit "You can't go outside of your directory!\n")
outside (remove_file p) = message (lit "This isn't something in your directory!")
outside (cd p) = message (lit "You can't go outside of your directory!\n")
outside pwd = message []

module _ {S : Type 0} (host : Host S) (u : Bytes) (w : World S) where
  -- The command has a path that `checkpath` does not accept.
  abbrev pub IsOutside : Command → Type 0
  IsOutside (chperm p v n) = check_path host p u w.os ≡ false
  IsOutside (share p v n) = check_path host p u w.os ≡ false
  IsOutside (unshare p v) = check_path host p u w.os ≡ false
  IsOutside (upload p b) = check_path host p u w.os ≡ false
  IsOutside (download p) = check_path host p u w.os ≡ false
  IsOutside (list p) = check_path host p u w.os ≡ false
  IsOutside (mkdir p) = check_path host p u w.os ≡ false
  IsOutside (remove_file p) = check_path host p u w.os ≡ false
  IsOutside (cd p) = check_path host p u w.os ≡ false
  IsOutside pwd = ⊥

  -- `checkCookie`, then `checkpath`
  abbrev guarded : {R : Type 0} → Bytes → Bytes → R → R → Body (World S) R R → Body (World S) R R
  guarded c path r t k = call (check_cookie host u c) >>= λ valid.
      return_if (not valid) r
      >> (gets (λ v. check_path host path u v.os) >>= λ allow. return_if (not allow) t >> k)

  beyond :
      {R : Type 0} (path : Bytes) (t : R) (k : Body (World S) R R) (fs : List Bool) (allow : Bool)
      → allow ≡ false
      → Reports w (λ x. x ≡ t) ((return_if (not allow) t >> k) (record w { faults = fs }))
  unfolding ◌>>=◌
  beyond path t k fs true e = cc e
  beyond path t k fs false e = (refl, (fs, refl))

  -- A function that begins with the two tests ends at the second one.
  confined :
      {R : Type 0} (c path : Bytes) (r t : R) (k : Body (World S) R R)
      → HasSession host u c w
      → check_path host path u w.os ≡ false
      → Reports w (λ x. x ≡ t) (guarded c path r t k w)
  confined {R} c path r t k session out =
      Reports-call w _ _ _ _ (check_cookie-Reports host w u c) λ valid fs tells. go valid fs tells
    where
      go :
          (valid : Bool) (fs : List Bool)
          → (valid ≡ true) ↔ HasSession host u c w
          → Reports w
              (λ x. x ≡ t)
              ((return_if (not valid) r
                  >> (gets (λ v. check_path host path u v.os) >>= λ allow.
                      return_if (not allow) t >> k))
                (record w { faults = fs }))
      go true fs tells = unfold ◌>>=◌ in beyond path t k fs (check_path host path u w.os) out
      go false fs tells = cc (tells.1 session)

  pub run_command_confined :
      (fuel : ℕ) (c : Bytes) (command : Command)
      → HasSession host u c w
      → IsOutside command
      → Reports w (λ x. x ≡ outside command) (run_command host fuel u c command w)
  unfolding run_command chperm_handler share_handler unshare_handler upload_handler download_handler
      list_handler mkdir_handler remove_handler cd_handler
  run_command_confined fuel c (chperm p v n) s h =
      wrapped host w _ message _ (confined c p _ _ _ s h)
  run_command_confined fuel c (share p v n) s h =
      wrapped host w _ message _ (confined c p _ _ _ s h)
  run_command_confined fuel c (unshare p v) s h =
      wrapped host w _ message _ (confined c p _ _ _ s h)
  run_command_confined fuel c (upload p b) s h = wrapped host w _ message _ (confined c p _ _ _ s h)
  run_command_confined fuel c (download p) s h =
      wrapped host w _ contents _ (confined c p _ _ _ s h)
  run_command_confined fuel c (list p) s h = wrapped host w _ listing _ (confined c p _ _ _ s h)
  run_command_confined fuel c (mkdir p) s h = wrapped host w _ message _ (confined c p _ _ _ s h)
  run_command_confined fuel c (remove_file p) s h =
      wrapped host w _ message _ (confined c p _ _ _ s h)
  run_command_confined fuel c pwd s h = absurd h
  run_command_confined fuel c (cd p) s h = wrapped host w _ message _ (confined c p _ _ _ s h)

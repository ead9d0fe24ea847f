-- ===== src/Server/Handlers.antt =====
-- Directories and removal (listHandler, mkdirHandler, removeHandler, pwdHandler, cdHandler), and
-- the dispatch of a request to its handler.
use dropbox_for_ctf.Base.{ℕ, Bool, not, ◌&&◌, List, [], ◌∷◌, ◌++◌, map, select_by, delete_by}
use dropbox_for_ctf.Text.{Bytes, lit, slash, str_eq, trim_prefix}
use dropbox_for_ctf.FilePath.{clean}
use dropbox_for_ctf.Go.{Body, Func, ◌>>=◌, ◌>>◌, pure, gets, return_if, or_return, call}
use dropbox_for_ctf.Store.{Host, World, is_not_exist, prepare, run, execute, query, system}
use dropbox_for_ctf.Server.Account.{
  check_path, check_cookie, AuthReturn, authenticate_handler, signup_handler,
}
use dropbox_for_ctf.Server.Files.{
  abs_or, text, as_sharer, as_sharee, unshared, is_shared_file, remove, upload_handler,
  DownloadReturn, download_handler,
}
use dropbox_for_ctf.Server.Sharing.{chperm_handler, share_handler, unshare_handler}

-- `internal.DirEnt`
pub record DirEnt : Type 0 where
  pub is_dir : Bool
  pub name : Bytes

-- `ListReturn`
pub record ListReturn : Type 0 where
  pub entries : List DirEnt
  pub err_text : Bytes

-- `PWDReturn`
pub record PwdReturn : Type 0 where
  pub path : Bytes
  pub err_text : Bytes

abbrev list_error : Bytes → ListReturn
list_error e = record { entries = []; err_text = e }

abbrev pwd_error : Bytes → PwdReturn
pwd_error e = record { path = []; err_text = e }

module _ {S : Type 0} (host : Host S) where
  unfoldable pub list_handler : Bytes → Bytes → Bytes → Func (World S) ListReturn
  list_handler path username cookie = do
    valid ← call (check_cookie host username cookie)
    return_if (not valid) (list_error (lit "reauth"))
    allow ← gets (λ w. check_path host path username w.os)
    return_if (not allow) (list_error (lit "Directory does not exist!"))
    read ← gets (λ w. host.read_dir path w.os)
    fis ← or_return read list_error
    pure (record { entries = map (λ (d, n). record { is_dir = d; name = n }) fis; err_text = [] })

  unfoldable pub mkdir_handler : Bytes → Bytes → Bytes → Func (World S) Bytes
  mkdir_handler path username cookie = do
    valid ← call (check_cookie host username cookie)
    return_if (not valid) (lit "reauth")
    allow ← gets (λ w. check_path host path username w.os)
    return_if (not allow) (lit "You can't go outside of your directory!\n")
    made ← system (host.mkdir path)
    or_return made text
    pure []

  -- The loop of `removeHandler`: each sharee's link, then its row.
  unfoldable pub unshare_all : Bytes → Bytes → List Bytes → Body (World S) Bytes (Unit {0})
  unshare_all username fullpath [] = pure tt
  unshare_all username fullpath (shareepath ∷ rest) = do
    removed ← system (host.remove shareepath)
    or_return removed (λ _. lit "Could not unshare with someone")
    run λ w. record w {
      shares =
          delete_by
            (λ r.
              str_eq r.sharer username
              && (str_eq r.origpath fullpath && str_eq r.shareepath shareepath))
            w.shares;
    }
    unshare_all username fullpath rest

  -- `removeHandler` for a file that was shared with the user: the link and the row go.
  unfoldable pub remove_as_sharee : Bytes → Bytes → Func (World S) Bytes
  remove_as_sharee fullpath username = do
    removed ← system (host.remove fullpath)
    or_return removed text
    execute λ w. record w {
      shares = delete_by (λ r. str_eq r.sharee username && str_eq r.shareepath fullpath) w.shares;
    }
    pure []

  -- `removeHandler` for a file that the user shares: every sharee loses it first.
  unfoldable pub remove_as_sharer : Bytes → Bytes → Bytes → Func (World S) Bytes
  unfolding unshare_all
  remove_as_sharer path fullpath username = do
    sharee_list ← query (λ w.
        map (λ r. r.shareepath)
          (select_by (λ r. str_eq r.sharer username && str_eq r.origpath fullpath) w.shares))
    prepare
    unshare_all username fullpath sharee_list
    call (remove host path username)

  unfoldable pub remove_handler : Bytes → Bytes → Bytes → Func (World S) Bytes
  unfolding remove_as_sharee remove_as_sharer
  remove_handler path username cookie = do
    valid ← call (check_cookie host username cookie)
    return_if (not valid) (lit "reauth")
    allow ← gets (λ w. check_path host path username w.os)
    return_if (not allow) (lit "This isn't something in your directory!")
    fullpath ← abs_or host (clean path) (λ _. [])
    missing ← gets (λ w. is_not_exist (host.stat fullpath w.os))
    return_if missing (lit "That resource doesn't exist!\n")
    shared ← call (is_shared_file host fullpath)
    elim shared [
      | unshared ↦ call (remove host path username)
      | as_sharee ↦ call (remove_as_sharee fullpath username)
      | as_sharer ↦ call (remove_as_sharer path fullpath username)
    ]

  unfoldable pub pwd_handler : Bytes → Bytes → Func (World S) PwdReturn
  pwd_handler username cookie = do
    valid ← call (check_cookie host username cookie)
    return_if (not valid) (pwd_error (lit "reauth"))
    wd ← gets (λ w. host.getwd w.os)
    path ← or_return wd pwd_error
    pure (record { path = path; err_text = [] })

  unfoldable pub cd_handler : Bytes → Bytes → Bytes → Func (World S) Bytes
  cd_handler path username cookie = do
    valid ← call (check_cookie host username cookie)
    return_if (not valid) (lit "reauth")
    allow ← gets (λ w. check_path host path username w.os)
    return_if (not allow) (lit "You can't go outside of your directory!\n")
    desiredpath ← abs_or host (clean path) (λ _. [])
    missing ← gets (λ w. is_not_exist (host.stat desiredpath w.os))
    return_if missing (lit "That resource doesn't exist!\n")
    totrim ← abs_or host (lit "./userfs") (λ _. [])
    pure ((lit "./userfs" ++ trim_prefix desiredpath totrim) ++ slash ∷ [])

-- The requests that `main` registers handlers for, without the session's cookie.
pub data Command : Type 0 where
  chperm : Bytes → Bytes → Bytes → Command
  share : Bytes → Bytes → Bytes → Command
  unshare : Bytes → Bytes → Command
  upload : Bytes → Bytes → Command
  download : Bytes → Command
  list : Bytes → Command
  mkdir : Bytes → Command
  remove_file : Bytes → Command
  pwd : Command
  cd : Bytes → Command

pub data Request : Type 0 where
  -- user name, cookie
  in_session : Bytes → Bytes → Command → Request
  authenticate : Bytes → Bytes → Request
  signup : Bytes → Bytes → Request

pub data Reply : Type 0 where
  message : Bytes → Reply
  contents : DownloadReturn → Reply
  listing : ListReturn → Reply
  directory : PwdReturn → Reply
  login : AuthReturn → Reply
  signed_up : Bool → Reply

module _ {S : Type 0} (host : Host S) (fuel : ℕ) where
  unfoldable pub run_command : Bytes → Bytes → Command → Func (World S) Reply
  run_command u c (chperm path sharee newperm) = do
    r ← call (chperm_handler host path sharee newperm u c)
    pure (message r)
  run_command u c (share path sharee perms) = do
    r ← call (share_handler host fuel path sharee perms u c)
    pure (message r)
  run_command u c (unshare path sharee) = do
    r ← call (unshare_handler host path sharee u c)
    pure (message r)
  run_command u c (upload path body) = do
    r ← call (upload_handler host path u body c)
    pure (message r)
  run_command u c (download path) = do r ← call (download_handler host path u c); pure (contents r)
  run_command u c (list path) = do r ← call (list_handler host path u c); pure (listing r)
  run_command u c (mkdir path) = do r ← call (mkdir_handler host path u c); pure (message r)
  run_command u c (remove_file path) = do r ← call (remove_handler host path u c); pure (message r)
  run_command u c pwd = do r ← call (pwd_handler host u c); pure (directory r)
  run_command u c (cd path) = do r ← call (cd_handler host path u c); pure (message r)

  unfoldable pub serve : Request → Func (World S) Reply
  unfolding run_command
  serve (in_session u c command) = run_command u c command
  serve (authenticate u password) = do
    r ← call (authenticate_handler host u password)
    pure (login r)
  serve (signup u password) = do r ← call (signup_handler host u password); pure (signed_up r)

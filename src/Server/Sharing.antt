-- ===== src/Server/Sharing.antt =====
-- Sharing: chpermHandler, shareHandler, unshareHandler.
use dropbox_for_ctf.Base.{
  ℕ, zero, suc, Bool, not, ◌&&◌, ◌||◌, [], ◌∷◌, ◌++◌, ◌==◌, count_by, first_by, delete_by,
  update_by, if◌then◌else◌,
}
use mathlib.Core.Option
use dropbox_for_ctf.Text.{Bytes, lit, slash, str_eq, has_prefix, itoa}
use dropbox_for_ctf.FilePath.{clean, base}
use dropbox_for_ctf.Go.{Body, Func, next, hang, ◌>>=◌, ◌>>◌, pure, gets, return_if, or_return, call}
use dropbox_for_ctf.Store.{
  Host, World, ShareRow, row_or, is_not_exist, prepare, run, execute, query_row, system, count,
}
use dropbox_for_ctf.Server.Account.{user_root, check_path, check_cookie}
use dropbox_for_ctf.Server.Files.{abs_or, text}

-- `sharer=? AND sharee=? AND origpath=?`
abbrev pub is_share : Bytes → Bytes → Bytes → ShareRow → Bool
is_share sharer sharee origpath r =
    str_eq r.sharer sharer && (str_eq r.sharee sharee && str_eq r.origpath origpath)

-- `perm` as it is stored: 1 for "rw" and 0 for "r"
abbrev pub perm_of : Bytes → ℕ
perm_of permissions = if str_eq permissions (lit "rw") then 1 else 0

abbrev pub is_perm : Bytes → Bool
is_perm permissions = str_eq permissions (lit "rw") || str_eq permissions (lit "r")

-- The name tried in round `i`: the file's own, then with a number in front.
unfoldable pub candidate : Bytes → ℕ → Bytes
candidate filename zero = filename
candidate filename (suc i) = itoa (suc i) ++ filename

module _ {S : Type 0} (host : Host S) where
  unfoldable pub chperm_handler : Bytes → Bytes → Bytes → Bytes → Bytes → Func (World S) Bytes
  chperm_handler path sharee newperm username cookie = do
    valid ← call (check_cookie host username cookie)
    return_if (not valid) (lit "reauth")
    allow ← gets (λ w. check_path host path username w.os)
    return_if (not allow) (lit "You don't have access to this.")
    owner_shared ←
        abs_or host (user_root username ++ lit "/Shared_with_me") (λ _. lit "Oops, abs failed!")
    fullpath ← abs_or host (clean path) (λ _. [])
    return_if (has_prefix fullpath owner_shared) (lit "Dude, you don't own this!")
    missing ← gets (λ w. is_not_exist (host.stat fullpath w.os))
    return_if missing (lit "That resource doesn't exist!\n")
    found ← count (λ w. count_by (is_share username sharee fullpath) w.shares)
    return_if (found == 0) (lit "File not shared with this person.")
    prepare
    return_if (not (is_perm newperm)) (lit "Permissions can only be r or rw")
    run λ w. record w {
      shares =
          update_by (is_share username sharee fullpath) (λ r. record r { perm = perm_of newperm })
            w.shares;
    }
    pure (lit "Permissions updated")

  -- The loop that looks for a free name, on fuel.
  unfoldable pub free_name : {R : Type 0} → Bytes → Bytes → ℕ → ℕ → Body (World S) R Bytes
  free_name dir filename zero i w = hang w
  free_name dir filename (suc fuel) i w =
      let rest = free_name dir filename fuel (suc i) w in
      if is_not_exist (host.stat (dir ++ slash ∷ candidate filename i) w.os)
      then next (candidate filename i) w
      else rest

  -- `shareHandler` behind the checks of its arguments.
  unfoldable pub grant : ℕ → Bytes → Bytes → Bytes → ℕ → Func (World S) Bytes
  grant fuel username sharee fullpath perm = do
    shared ← count (λ w. count_by (is_share username sharee fullpath) w.shares)
    return_if (shared == 1) (
        lit
          "You already shared this with this user! If you want to change permissions, use chperm.\n")
    path_to_sharee ←
        abs_or host (user_root sharee ++ lit "/Shared_with_me/")
          (λ _. lit "Something went wrong :(\n")
    filename ← free_name path_to_sharee (base fullpath) fuel 0
    filedata ← gets (λ w. host.lstat fullpath w.os)
    is_link ← or_return filedata (λ _. lit "This is not a file or we could not locate it!\n")
    return_if (not is_link) (lit "There seems to have been an issue")
    link ← gets (λ w. host.readlink fullpath w.os)
    newpath ← or_return link (λ _. lit "Something went wrong and we couldn't access your file\n")
    linked ← system (host.symlink newpath (path_to_sharee ++ slash ∷ filename))
    or_return linked (λ _. lit "Could not share!")
    execute λ w. record w {
      shares =
          w.shares
          ++ record {
            sharer = username;
            sharee = sharee;
            origpath = fullpath;
            shareepath = path_to_sharee ++ slash ∷ filename;
            perm = perm;
          }
            ∷ [];
    }
    pure []

  unfoldable pub share_handler : ℕ → Bytes → Bytes → Bytes → Bytes → Bytes → Func (World S) Bytes
  unfolding grant
  share_handler fuel path sharee permissions username cookie = do
    valid ← call (check_cookie host username cookie)
    return_if (not valid) (lit "reauth")
    allow ← gets (λ w. check_path host path username w.os)
    return_if (not allow) (lit "You don't have access to this resource")
    return_if (str_eq username sharee) (lit "You can't share it with yourself, silly!")
    return_if (not (is_perm permissions)) (lit "Permissions can only be either r or rw\n")
    found ← count (λ w. count_by (λ r. str_eq r.username sharee) w.users)
    return_if (found == 0) (lit "The user you're trying to share with doesn't exist!\n")
    fullpath ← abs_or host (clean path) (λ _. [])
    missing ← gets (λ w. is_not_exist (host.stat fullpath w.os))
    return_if missing (lit "That resource doesn't exist!\n")
    owner_shared ←
        abs_or host (user_root username ++ lit "/Shared_with_me") (λ _. lit "Oops, abs failed!")
    return_if (has_prefix fullpath owner_shared) (lit "Dude, you don't own this!")
    call (grant fuel username sharee fullpath (perm_of permissions))

  unfoldable pub unshare_handler : Bytes → Bytes → Bytes → Bytes → Func (World S) Bytes
  unshare_handler path sharee username cookie = do
    valid ← call (check_cookie host username cookie)
    return_if (not valid) (lit "reauth")
    allow ← gets (λ w. check_path host path username w.os)
    return_if (not allow) (lit "You do not have access to this resource")
    return_if (str_eq username sharee) (lit "You can't share it with yourself, silly!")
    found ← count (λ w. count_by (λ r. str_eq r.username sharee) w.users)
    return_if (found == 0) (lit "The user you're trying to unshare with doesn't exist!\n")
    fullpath ← abs_or host (clean path) (λ _. [])
    shared ← count (λ w. count_by (is_share username sharee fullpath) w.shares)
    return_if (not (shared == 1)) (lit "You have not shared this file with the specified user.\n")
    scanned ← query_row (λ w.
        Option.map (λ r. r.shareepath) (first_by (is_share username sharee fullpath) w.shares))
    removed ← system (host.remove (row_or [] scanned))
    or_return removed text
    execute λ w. record w { shares = delete_by (is_share username sharee fullpath) w.shares }
    pure []

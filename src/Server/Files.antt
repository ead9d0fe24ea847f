-- ===== src/Server/Files.antt =====
-- Uploads with deduplication, removal and downloads: remove, uploadHelper, sharerUpload, getPerms,
-- isSharedFile, uploadHandler, downloadHandler.
use dropbox_for_ctf.Base.{
  ℕ, ◌+◌, ◌-◌, not, ◌&&◌, List, [], ◌∷◌, ◌++◌, ltb, ◌==◌, map, count_by, first_by, select_by,
  delete_by, update_by, last_or, if◌then◌else◌,
}
use mathlib.Core.Option
use dropbox_for_ctf.Text.{Bytes, lit, str_eq, has_prefix, split, itoa}
use dropbox_for_ctf.Go.{Body, Func, ◌>>=◌, ◌>>◌, pure, gets, modify, return_if, or_return, call}
use dropbox_for_ctf.Store.{
  Host, World, row_or, is_no_rows, is_exists, execute, query_row, or_exit, query, system, count,
}
use dropbox_for_ctf.Server.Account.{user_root, abspath, check_path, check_cookie}

-- `DownloadReturn`
pub record DownloadReturn : Type 0 where
  pub body : Bytes
  pub err_text : Bytes

-- The three results of `isSharedFile`: "sharer", "sharee" and "".
pub data SharedAs : Type 0 where
  as_sharer as_sharee unshared : SharedAs

abbrev pub text : Bytes → Bytes
text e = e

module _ {S : Type 0} (host : Host S) where
  -- `p, err := filepath.Abs(path); if err != nil { return f(err) }`
  unfoldable pub abs_or : {R : Type 0} → Bytes → (Bytes → R) → Body (World S) R Bytes
  abs_or path f = do r ← gets (λ w. abspath host path w.os); or_return r f

  -- The database's part of `remove`, once the link is gone: one owner less, or the stored file goes.
  unfoldable pub release : Bytes → Bytes → Func (World S) Bytes
  release newpath origin_name = do
    scanned ←
        query_row (λ w.
          Option.map (λ r. r.numowners) (first_by (λ r. str_eq r.filename origin_name) w.files))
    let new_num = row_or 0 scanned - 1
    if ltb 0 new_num
        then (do
          execute λ w. record w {
            files =
                update_by (λ r. str_eq r.filename origin_name)
                  (λ r. record r { numowners = new_num }) w.files;
          }
          pure [])
        else (do
          removed ← system (host.remove newpath)
          or_return removed text
          execute λ w. record w { files = delete_by (λ r. str_eq r.filename origin_name) w.files }
          pure [])

  unfoldable pub remove : Bytes → Bytes → Func (World S) Bytes
  unfolding abs_or release
  remove path username = do
    allow ← gets (λ w. check_path host path username w.os)
    return_if (not allow) (lit "You can't go outside of your directory!\n")
    place ← abs_or path text
    filedata ← gets (λ w. host.lstat place w.os)
    is_link ← or_return filedata text
    if is_link
        then (do
          link ← gets (λ w. host.readlink place w.os)
          newpath ← or_return link text
          removed ← system (host.remove place)
          or_return removed text
          call (release newpath (last_or [] (split newpath))))
        else (do
          notallow ← abs_or (user_root username ++ lit "/Shared_with_me") text
          return_if (str_eq place notallow) (lit "You can't remove your Shared directory!\n")
          removed ← system (host.remove place)
          or_return removed (λ _. lit "That directory isn't empty!\n")
          pure [])

  -- `uploadHelper` for a body that no stored file has
  unfoldable pub store_new : Bytes → Bytes → Bytes → Func (World S) Bytes
  store_new storepath hash body = do
    filecount ← gets (λ w. w.filecount)
    place ← abs_or (lit "./filestore/file" ++ itoa filecount) (λ _. lit "Couldn't upload :(")
    written ← system (host.write_file place body)
    or_return written (λ _. lit "Couldn't upload :(")
    linked ← system (host.symlink place storepath)
    or_return linked (λ _. lit "Couldn't upload :(")
    execute λ w. record w {
      files =
          w.files
          ++ record { filename = lit "file" ++ itoa w.filecount; filehash = hash; numowners = 1 }
            ∷ [];
    }
    modify λ w. record w { filecount = w.filecount + 1 }
    pure []

  -- `uploadHelper` for a body that is stored already
  unfoldable pub store_again : Bytes → Bytes → Func (World S) Bytes
  store_again storepath hash = do
    scanned ←
        query_row
          (λ w. Option.map (λ r. r.filename) (first_by (λ r. str_eq r.filehash hash) w.files))
    found ← or_exit scanned
    place ← abs_or (lit "./filestore/" ++ found) (λ _. lit "Couldn't upload :(")
    linked ← system (host.symlink place storepath)
    or_return linked (λ _. lit "Couldn't upload :(")
    owners ←
        query_row
          (λ w. Option.map (λ r. r.numowners) (first_by (λ r. str_eq r.filehash hash) w.files))
    let new_num = row_or 0 owners + 1
    execute λ w. record w {
      files =
          update_by (λ r. str_eq r.filehash hash) (λ r. record r { numowners = new_num }) w.files;
    }
    pure (lit "End of uploadHelper")

  unfoldable pub upload_helper : Bytes → Bytes → Bytes → Func (World S) Bytes
  unfolding remove store_new store_again
  upload_helper storepath username body = do
    prefix ← abs_or (user_root username ++ lit "/Shared_with_me") (λ _. lit "Error finding path...")
    return_if (has_prefix storepath prefix) (lit "You cannot upload a new file to Shared_with_me")
    old ← gets (λ w. is_exists (host.stat storepath w.os))
    _ ← if old then call (remove storepath username) else pure []
    let hash = host.digest body
    found ← count (λ w. count_by (λ r. str_eq r.filehash hash) w.files)
    if found == 0 then call (store_new storepath hash body) else call (store_again storepath hash)

  -- The loop over the sharees' links.
  unfoldable pub remove_links : List Bytes → Body (World S) Bytes (Unit {0})
  remove_links [] = pure tt
  remove_links (shareepath ∷ rest) = do
    removed ← system (host.remove shareepath)
    or_return removed (λ _. lit "Error removing from sharee")
    remove_links rest

  -- The links are made anew; an error of `os.Symlink` is ignored.
  unfoldable pub relink : Bytes → List Bytes → Body (World S) Bytes (Unit {0})
  relink realfile [] = pure tt
  relink realfile (shareepath ∷ rest) = do
    _ ← system (host.symlink realfile shareepath)
    relink realfile rest

  unfoldable pub sharer_upload : Bytes → Bytes → Bytes → Func (World S) Bytes
  unfolding upload_helper remove_links relink
  sharer_upload sharer origpath body = do
    sharee_list ← query (λ w.
        map (λ r. r.shareepath)
          (select_by (λ r. str_eq r.sharer sharer && str_eq r.origpath origpath) w.shares))
    remove_links sharee_list
    _ ← call (upload_helper origpath sharer body)
    link ← gets (λ w. host.readlink origpath w.os)
    realfile ← or_return link (λ _. lit "Something went wrong and we couldn't access your file\n")
    relink realfile sharee_list
    pure []

  unfoldable pub get_perms : Bytes → Bytes → Func (World S) ℕ
  get_perms path sharee = do
    scanned ← query_row (λ w.
        Option.map (λ r. r.perm)
          (first_by (λ r. str_eq r.shareepath path && str_eq r.sharee sharee) w.shares))
    or_exit scanned

  -- Any outcome of the first query but `sql.ErrNoRows` counts as a sharer.
  unfoldable pub is_shared_file : Bytes → Func (World S) SharedAs
  is_shared_file path = do
    first ←
        query_row
          (λ w. Option.map (λ r. r.sharer) (first_by (λ r. str_eq r.origpath path) w.shares))
    second ←
        query_row
          (λ w. Option.map (λ r. r.sharee) (first_by (λ r. str_eq r.shareepath path) w.shares))
    if not (is_no_rows first)
        then pure as_sharer
        else (if not (is_no_rows second) then pure as_sharee else pure unshared)

  -- The part of `uploadHandler` for a file that another user shared.
  unfoldable pub sharee_upload : Bytes → Bytes → Bytes → Func (World S) Bytes
  unfolding sharer_upload get_perms
  sharee_upload storepath username body = do
    perms ← call (get_perms storepath username)
    return_if (perms == 0) (lit "Permission Denied")
    scanned ← query_row (λ w. first_by (λ r. str_eq r.shareepath storepath) w.shares)
    found ← or_exit scanned
    _ ← call (sharer_upload found.sharer found.origpath body)
    pure (lit "File Shared!")

  unfoldable pub upload_handler : Bytes → Bytes → Bytes → Bytes → Func (World S) Bytes
  unfolding sharee_upload is_shared_file
  upload_handler path username body cookie = do
    valid ← call (check_cookie host username cookie)
    return_if (not valid) (lit "reauth")
    allow ← gets (λ w. check_path host path username w.os)
    return_if (not allow) (lit "Path does not exist on the server!")
    storepath ← abs_or path text
    shared ← call (is_shared_file storepath)
    elim shared [
      | unshared ↦ call (upload_helper storepath username body)
      | as_sharer ↦ call (sharer_upload username storepath body)
      | as_sharee ↦ call (sharee_upload storepath username body)
    ]

  -- `DownloadReturn{Err: e}`
  download_error : Bytes → DownloadReturn
  download_error e = record { body = []; err_text = e }

  unfoldable pub download_handler : Bytes → Bytes → Bytes → Func (World S) DownloadReturn
  unfolding download_error
  download_handler path username cookie = do
    valid ← call (check_cookie host username cookie)
    return_if (not valid) (download_error (lit "reauth"))
    allow ← gets (λ w. check_path host path username w.os)
    return_if (not allow) (download_error (lit "Path does not exist!"))
    place ← abs_or path download_error
    filedata ← gets (λ w. host.lstat place w.os)
    is_link ← or_return filedata download_error
    return_if (not is_link) (download_error (lit "Path does not exist!"))
    link ← gets (λ w. host.readlink place w.os)
    newpath ← or_return link download_error
    contents ← gets (λ w. host.read_file newpath w.os)
    body ← or_return contents download_error
    pure (record { body = body; err_text = [] })

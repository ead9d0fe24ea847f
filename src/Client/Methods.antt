-- ===== src/Client/Methods.antt =====
-- client/client.go: the methods of Client.
use dropbox_for_ctf.Base.{Option, some, List, [], ◌∷◌, ◌++◌, if◌then◌else◌}
use dropbox_for_ctf.Text.{Bytes, lit, has_prefix, trim_prefix}
use dropbox_for_ctf.Go.{Body, Func, ◌>>=◌, ◌>>◌, pure, gets, modify}
use dropbox_for_ctf.Rpc.Dispatch.{Codec}
use dropbox_for_ctf.Rpc.Remote.{Network}
use dropbox_for_ctf.Server.Handlers.{DirEnt, ListReturn, PwdReturn}
use dropbox_for_ctf.Server.Files.{DownloadReturn}
use dropbox_for_ctf.Server.Methods.{
  GoType, string_type, list_return_type, pwd_return_type, download_return_type, Value, string_value,
  bytes_value, list_value, pwd_value, download_value,
}
use dropbox_for_ctf.Client.{
  Attempt, done, Client, print, string_of, strings, call_server, check_session, check_reply,
}

-- The variables that the structures are decoded into.
abbrev pub download_of : Option Value → DownloadReturn
download_of (some (download_value r)) = r
download_of v = record { body = []; err_text = [] }

abbrev pub list_of : Option Value → ListReturn
list_of (some (list_value r)) = r
list_of v = record { entries = []; err_text = [] }

abbrev pub pwd_of : Option Value → PwdReturn
pwd_of (some (pwd_value r)) = r
pwd_of v = record { path = []; err_text = [] }

module _ {W : Type 0} (errorf : Bytes → Bytes) where
  -- What `CD` does with the reply: a path becomes the current directory, another text is shown.
  unfoldable pub move : Bytes → Body (Client W) (Attempt (Unit {0})) (Unit {0})
  unfolding check_session print
  move [] = pure tt
  move (b ∷ bs) = do
    check_session errorf (b ∷ bs)
    if has_prefix (b ∷ bs) (lit "./")
        then (modify λ c. record c { currdir = b ∷ bs })
        else print (b ∷ bs)

module _ {W : Type 0} (network : Network W) (codec : Codec GoType Value)
    (errorf : Bytes → Bytes) where
  -- A method whose reply is a text: the call with these arguments, and the check of the reply.
  unfoldable pub tell : Bytes → (Client W → List Value) → Func (Client W) (Attempt (Unit {0}))
  unfolding call_server check_reply
  tell method arguments = do
    vs ← gets arguments
    v ← call_server network codec method string_type vs
    check_reply errorf (string_of v)
    pure (done tt)

  unfoldable pub chperm_remote : Bytes → Bytes → Bytes → Func (Client W) (Attempt (Unit {0}))
  unfolding tell
  chperm_remote path sharee perm =
      tell (lit "chperm")
        λ c. strings ((c.currdir ++ path) ∷ sharee ∷ perm ∷ c.user ∷ c.sessionid ∷ [])

  unfoldable pub share_remote : Bytes → Bytes → Bytes → Func (Client W) (Attempt (Unit {0}))
  unfolding tell
  share_remote path sharee perm =
      tell (lit "share")
        λ c. strings ((c.currdir ++ path) ∷ sharee ∷ perm ∷ c.user ∷ c.sessionid ∷ [])

  unfoldable pub unshare_remote : Bytes → Bytes → Func (Client W) (Attempt (Unit {0}))
  unfolding tell
  unshare_remote path sharee =
      tell (lit "unshare") λ c. strings ((c.currdir ++ path) ∷ sharee ∷ c.user ∷ c.sessionid ∷ [])

  unfoldable pub upload_remote : Bytes → Bytes → Func (Client W) (Attempt (Unit {0}))
  unfolding tell
  upload_remote path body = tell (lit "upload") λ c.
      string_value (c.currdir ++ path)
      ∷ string_value c.user
      ∷ bytes_value body
      ∷ string_value c.sessionid
      ∷ []

  unfoldable pub download_remote : Bytes → Func (Client W) (Attempt Bytes)
  unfolding call_server check_reply
  download_remote path = do
    vs ← gets λ c. strings ((c.currdir ++ path) ∷ c.user ∷ c.sessionid ∷ [])
    v ← call_server network codec (lit "download") download_return_type vs
    check_reply errorf (download_of v).err_text
    pure (done (download_of v).body)

  unfoldable pub list_remote : Bytes → Func (Client W) (Attempt (List DirEnt))
  unfolding call_server check_reply
  list_remote path = do
    vs ← gets λ c. strings ((c.currdir ++ path) ∷ c.user ∷ c.sessionid ∷ [])
    v ← call_server network codec (lit "list") list_return_type vs
    check_reply errorf (list_of v).err_text
    pure (done (list_of v).entries)

  -- `Mkdir` and `Remove`: no call for an empty path.
  unfoldable pub tell_of_path : Bytes → Bytes → Func (Client W) (Attempt (Unit {0}))
  unfolding tell print
  tell_of_path method [] = print (lit "Usage: rm <filename>\n") >> pure (done tt)
  tell_of_path method (b ∷ bs) =
      tell method λ c. strings ((c.currdir ++ b ∷ bs) ∷ c.user ∷ c.sessionid ∷ [])

  unfoldable pub mkdir_remote : Bytes → Func (Client W) (Attempt (Unit {0}))
  unfolding tell_of_path
  mkdir_remote path = tell_of_path (lit "mkdir") path

  unfoldable pub remove_remote : Bytes → Func (Client W) (Attempt (Unit {0}))
  unfolding tell_of_path
  remove_remote path = tell_of_path (lit "remove") path

  unfoldable pub pwd_remote : Func (Client W) (Attempt Bytes)
  unfolding call_server check_reply
  pwd_remote = do
    vs ← gets λ c. strings (c.user ∷ c.sessionid ∷ [])
    v ← call_server network codec (lit "pwd") pwd_return_type vs
    check_reply errorf (pwd_of v).err_text
    dir ← gets λ c. trim_prefix c.currdir (lit "./userfs")
    pure (done dir)

  unfoldable pub cd_remote : Bytes → Func (Client W) (Attempt (Unit {0}))
  unfolding call_server move
  cd_remote path = do
    vs ← gets λ c. strings ((c.currdir ++ path) ∷ c.user ∷ c.sessionid ∷ [])
    v ← call_server network codec (lit "cd") string_type vs
    move errorf (string_of v)
    pure (done tt)

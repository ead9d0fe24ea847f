-- ===== src/Server/Methods.antt =====
-- The methods that main registers for remote calls: their names, their types as lib/support/rpc sees
-- them, and how a request of the server is written as a call.
pub mod Table
pub mod Registered
pub mod Serve
pub mod Call
pub mod Arbitrary
use dropbox_for_ctf.Base.{ℕ, Bool, Option, none, some, List, [], ◌∷◌, ◌==◌}
use dropbox_for_ctf.Text.{Bytes, lit}
use dropbox_for_ctf.Go.{Body, Func, ◌>>=◌, ◌>>◌, pure, exit_process, call}
use dropbox_for_ctf.Store.{Host, World}
use dropbox_for_ctf.Rpc.Reflect.{Kind, Shape, scalar, slice, struct, TypeTable}
use dropbox_for_ctf.Rpc.Dispatch.{Function, Handler, Registry, register_handler, register_finalizer}
use dropbox_for_ctf.Server.Account.{AuthReturn, authenticate_handler, signup_handler}
use dropbox_for_ctf.Server.Files.{DownloadReturn, upload_handler, download_handler}
use dropbox_for_ctf.Server.Sharing.{chperm_handler, share_handler, unshare_handler}
use dropbox_for_ctf.Server.Handlers.{
  ListReturn, PwdReturn, list_handler, mkdir_handler, remove_handler, pwd_handler, cd_handler,
  Command, chperm, share, unshare, upload, download, list, mkdir, remove_file, pwd, cd, Request,
  in_session, authenticate, signup, Reply, message, contents, listing, directory, login, signed_up,
}
use dropbox_for_ctf.Server.Lifecycle.{finalizer}

-- The types of the handlers' arguments and results, and of the parts of these.
pub data GoType : Type 0 where
  string_type byte_type bytes_type bool_type dir_ent_type dir_ents_type : GoType
  list_return_type pwd_return_type download_return_type auth_return_type : GoType

-- The values of these types.
pub data Value : Type 0 where
  string_value bytes_value : Bytes → Value
  bool_value : Bool → Value
  list_value : ListReturn → Value
  pwd_value : PwdReturn → Value
  download_value : DownloadReturn → Value
  auth_value : AuthReturn → Value

abbrev pub type_of : Value → GoType
type_of (string_value s) = string_type
type_of (bytes_value b) = bytes_type
type_of (bool_value b) = bool_type
type_of (list_value r) = list_return_type
type_of (pwd_value r) = pwd_return_type
type_of (download_value r) = download_return_type
type_of (auth_value r) = auth_return_type

abbrev pub every_type : List GoType
every_type =
    string_type ∷ byte_type ∷ bytes_type ∷ bool_type ∷ dir_ent_type ∷ dir_ents_type
    ∷ list_return_type ∷ pwd_return_type ∷ download_return_type ∷ auth_return_type ∷ []

abbrev pub shape_of : GoType → Shape GoType
shape_of string_type = scalar Kind.string
shape_of byte_type = scalar Kind.uint8
shape_of bytes_type = slice byte_type
shape_of bool_type = scalar Kind.bool
shape_of dir_ent_type = struct ((lit "IsDir_", bool_type) ∷ (lit "Name_", string_type) ∷ [])
shape_of dir_ents_type = slice dir_ent_type
shape_of list_return_type = struct ((lit "Entries", dir_ents_type) ∷ (lit "Err", string_type) ∷ [])
shape_of pwd_return_type = struct ((lit "Path", string_type) ∷ (lit "Err", string_type) ∷ [])
shape_of download_return_type = struct ((lit "Body", bytes_type) ∷ (lit "Err", string_type) ∷ [])
shape_of auth_return_type = struct ((lit "Auth", bool_type) ∷ (lit "Session", string_type) ∷ [])

abbrev pub index_of : GoType → ℕ
index_of string_type = 0
index_of byte_type = 1
index_of bytes_type = 2
index_of bool_type = 3
index_of dir_ent_type = 4
index_of dir_ents_type = 5
index_of list_return_type = 6
index_of pwd_return_type = 7
index_of download_return_type = 8
index_of auth_return_type = 9

abbrev pub name_of : GoType → Bytes
name_of string_type = lit "string"
name_of byte_type = lit "uint8"
name_of bytes_type = lit "[]uint8"
name_of bool_type = lit "bool"
name_of dir_ent_type = lit "internal.DirEnt"
name_of dir_ents_type = lit "[]internal.DirEnt"
name_of list_return_type = lit "internal.ListReturn"
name_of pwd_return_type = lit "internal.PWDReturn"
name_of download_return_type = lit "internal.DownloadReturn"
name_of auth_return_type = lit "internal.AuthReturn"

abbrev pub go_types : TypeTable GoType
go_types = record { shape = shape_of; same = λ t u. index_of t == index_of u; type_name = name_of }

module _ {S : Type 0} (host : Host S) (fuel : ℕ) where
  -- `reflect` panics on arguments of other types or in another number.
  unfoldable pub chperm_body : List Value → Func (World S) (List Value)
  chperm_body
        (string_value p ∷ string_value v ∷ string_value n ∷ string_value u ∷ string_value c ∷ []) =
      do r ← call (chperm_handler host p v n u c); pure (string_value r ∷ [])
  chperm_body _ = exit_process

  unfoldable pub share_body : List Value → Func (World S) (List Value)
  share_body
        (string_value p ∷ string_value v ∷ string_value n ∷ string_value u ∷ string_value c ∷ []) =
      do r ← call (share_handler host fuel p v n u c); pure (string_value r ∷ [])
  share_body _ = exit_process

  unfoldable pub unshare_body : List Value → Func (World S) (List Value)
  unshare_body (string_value p ∷ string_value v ∷ string_value u ∷ string_value c ∷ []) = do
    r ← call (unshare_handler host p v u c)
    pure (string_value r ∷ [])
  unshare_body _ = exit_process

  unfoldable pub upload_body : List Value → Func (World S) (List Value)
  upload_body (string_value p ∷ string_value u ∷ bytes_value b ∷ string_value c ∷ []) = do
    r ← call (upload_handler host p u b c)
    pure (string_value r ∷ [])
  upload_body _ = exit_process

  unfoldable pub download_body : List Value → Func (World S) (List Value)
  download_body (string_value p ∷ string_value u ∷ string_value c ∷ []) = do
    r ← call (download_handler host p u c)
    pure (download_value r ∷ [])
  download_body _ = exit_process

  unfoldable pub list_body : List Value → Func (World S) (List Value)
  list_body (string_value p ∷ string_value u ∷ string_value c ∷ []) = do
    r ← call (list_handler host p u c)
    pure (list_value r ∷ [])
  list_body _ = exit_process

  unfoldable pub mkdir_body : List Value → Func (World S) (List Value)
  mkdir_body (string_value p ∷ string_value u ∷ string_value c ∷ []) = do
    r ← call (mkdir_handler host p u c)
    pure (string_value r ∷ [])
  mkdir_body _ = exit_process

  unfoldable pub remove_body : List Value → Func (World S) (List Value)
  remove_body (string_value p ∷ string_value u ∷ string_value c ∷ []) = do
    r ← call (remove_handler host p u c)
    pure (string_value r ∷ [])
  remove_body _ = exit_process

  unfoldable pub pwd_body : List Value → Func (World S) (List Value)
  pwd_body (string_value u ∷ string_value c ∷ []) = do
    r ← call (pwd_handler host u c)
    pure (pwd_value r ∷ [])
  pwd_body _ = exit_process

  unfoldable pub cd_body : List Value → Func (World S) (List Value)
  cd_body (string_value p ∷ string_value u ∷ string_value c ∷ []) = do
    r ← call (cd_handler host p u c)
    pure (string_value r ∷ [])
  cd_body _ = exit_process

  unfoldable pub authenticate_body : List Value → Func (World S) (List Value)
  authenticate_body (string_value u ∷ string_value p ∷ []) = do
    r ← call (authenticate_handler host u p)
    pure (auth_value r ∷ [])
  authenticate_body _ = exit_process

  unfoldable pub signup_body : List Value → Func (World S) (List Value)
  signup_body (string_value u ∷ string_value p ∷ []) = do
    r ← call (signup_handler host u p)
    pure (bool_value r ∷ [])
  signup_body _ = exit_process

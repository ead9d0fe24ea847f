-- ===== src/Server/Tests/Remote.antt =====
-- The theorems on remote calls at small servers.
use dropbox_for_ctf.Base.{
  ℕ, zero, suc, ◌≡◌, refl, ap, sym, ◌∙◌, ◌⊎◌, ==_iff, true, false, none, some, List, [], ◌∷◌, arith,
}
use dropbox_for_ctf.Text.{Bytes, lit, str_eq, split, join, has_prefix}
use dropbox_for_ctf.FilePath.{clean, abs, ok}
use dropbox_for_ctf.Go.{next, exit, ◌>>=◌}
use dropbox_for_ctf.Store.{World, find_cookie, quiet, query_row, found, count, execute, system}
use dropbox_for_ctf.Rpc.Reflect.{seen, fine, bad, valid_type}
use dropbox_for_ctf.Rpc.Reflect.Spec.{IsTable, IsSendable}
use dropbox_for_ctf.Rpc.Reflect.Valid.{valid_type_decides}
use dropbox_for_ctf.Rpc.Dispatch.{Registry, find_handler, register_handler, is_some}
use dropbox_for_ctf.Rpc.Register.{IsHandler, handler_of, register_handler_decides}
use dropbox_for_ctf.Rpc.Remote.{Link, remote_call}
use dropbox_for_ctf.Rpc.Pool.{Heap, read_slice, send_response}
use dropbox_for_ctf.Rpc.Pool.Reuse.{response_reused}
use dropbox_for_ctf.Server.Account.{check_path, abspath, check_cookie, check_user}
use dropbox_for_ctf.Server.Handlers.{
  mkdir, in_session, Reply, message, serve, run_command, mkdir_handler,
}
use dropbox_for_ctf.Server.Handlers
use dropbox_for_ctf.Server.Methods.{
  GoType, string_type, byte_type, bytes_type, bool_type, dir_ent_type, dir_ents_type,
  list_return_type, pwd_return_type, download_return_type, auth_return_type, Value, string_value,
  every_type, go_types, index_of, upload_body,
}
use dropbox_for_ctf.Server.Methods.Table.{function, method_of, arguments_of, value_of}
use dropbox_for_ctf.Server.Methods.Call.{remote_call_serves}
use dropbox_for_ctf.Sample
use dropbox_for_ctf.Sample.{Disk, disk, world, cookie, memory, create, find, locate, root}
use dropbox_for_ctf.Sample.Wire.{wire, wire-IsFaithful, near, near-IsServing}

type_from : List GoType → ℕ → GoType
type_from [] n = string_type
type_from (t ∷ ts) zero = t
type_from (t ∷ ts) (suc n) = type_from ts n

type_at : ℕ → GoType
type_at = type_from every_type

type_at-index_of : (t : GoType) → type_at (index_of t) ≡ t
unfolding type_at type_from
type_at-index_of string_type = refl
type_at-index_of byte_type = refl
type_at-index_of bytes_type = refl
type_at-index_of bool_type = refl
type_at-index_of dir_ent_type = refl
type_at-index_of dir_ents_type = refl
type_at-index_of list_return_type = refl
type_at-index_of pwd_return_type = refl
type_at-index_of download_return_type = refl
type_at-index_of auth_return_type = refl

index_of-injective : (t u : GoType) → index_of t ≡ index_of u → t ≡ u
index_of-injective t u e = sym (type_at-index_of t) ∙ ap type_at e ∙ type_at-index_of u

every_type-all : (t : GoType) → seen go_types t every_type ≡ true
unfolding seen
every_type-all string_type = refl
every_type-all byte_type = refl
every_type-all bytes_type = refl
every_type-all bool_type = refl
every_type-all dir_ent_type = refl
every_type-all dir_ents_type = refl
every_type-all list_return_type = refl
every_type-all pwd_return_type = refl
every_type-all download_return_type = refl
every_type-all auth_return_type = refl

go_types-IsTable : IsTable go_types every_type
unfolding seen
go_types-IsTable = record {
  same_iff =
      λ t u. (λ h. index_of-injective t u ((==_iff _ _).0 h), λ e. (==_iff _ _).1 (ap index_of e));
  listed = every_type-all;
}

valid_type_decides_example :
    ((m : List GoType) × (valid_type go_types 11 list_return_type ≡ fine m)
      × IsSendable go_types list_return_type)
    ⊎ ((e : Bytes) × (valid_type go_types 11 list_return_type ≡ bad e)
        × ¬ IsSendable go_types list_return_type)
valid_type_decides_example =
    valid_type_decides go_types every_type go_types-IsTable 11 list_return_type (omega arith)

abbrev empty : Registry GoType Value (World Disk)
empty = record { handlers = []; finalizer = none }

register_handler_decides_example :
    let f =
      function
        (string_type ∷ string_type ∷ bytes_type ∷ string_type ∷ [])
        string_type
        (upload_body memory 3) in
    ((is_some (find_handler (lit "upload") empty.handlers) ≡ false)
      × IsHandler go_types f
      × (register_handler go_types 11 {R = Unit} (lit "upload") f empty
          ≡ next tt (record empty { handlers = (lit "upload", handler_of go_types f) ∷ [] })))
    ⊎ (¬ ((is_some (find_handler (lit "upload") empty.handlers) ≡ false) × IsHandler go_types f)
        × (register_handler go_types 11 {R = Unit} (lit "upload") f empty ≡ exit empty))
register_handler_decides_example =
    register_handler_decides go_types every_type go_types-IsTable 11 (omega arith) (lit "upload")
      (function (string_type ∷ string_type ∷ bytes_type ∷ string_type ∷ []) string_type
        (upload_body memory 3))
      empty

abbrev with_folder : World Disk
with_folder = record (quiet world) {
  os = record disk { nodes = (lit "/srv/userfs/alice/sub", Sample.folder) ∷ disk.nodes };
}

abbrev makes_folder : Handlers.Request
makes_folder = in_session (lit "alice") cookie (mkdir (lit "./userfs/alice/sub"))

folder_made : serve memory 3 makes_folder (quiet world) ≡ next (message []) with_folder
unfolding serve run_command mkdir_handler check_cookie check_user check_path abspath abs clean split
    join has_prefix memory lit str_eq find_cookie query_row found count execute system ◌>>=◌
folder_made = refl

abbrev unconnected : Link (World Disk)
unconnected = record { connected = false; world = quiet world }

remote_call_serves_example :
    remote_call
      (near memory 3)
      wire
      (lit "mkdir")
      (some string_type)
      (string_value (lit "./userfs/alice/sub")
        ∷ string_value (lit "alice")
        ∷ string_value cookie
        ∷ [])
      unconnected
    ≡ next (ok (some (string_value []))) (record { connected = true; world = with_folder })
unfolding method_of arguments_of value_of
remote_call_serves_example =
    remote_call_serves memory 3 wire wire-IsFaithful (near memory 3) (near-IsServing memory 3)
      makes_folder (message []) unconnected {v = with_folder} folder_made

abbrev no_buffers : Heap
no_buffers = record { arrays = λ i. []; allocated = 0; pool = [] }

abbrev two_bytes : Bytes
two_bytes = 1 ∷ 2 ∷ []

abbrev other_bytes : Bytes
other_bytes = 3 ∷ 4 ∷ []

response_reused_example :
    (read_slice
        (send_response 8 false two_bytes no_buffers).0
        (send_response 8 false two_bytes no_buffers).1
      ≡ two_bytes)
    × (read_slice
          (send_response 8 false two_bytes no_buffers).0
          (send_response 8 false other_bytes (send_response 8 false two_bytes no_buffers).1).1
        ≡ other_bytes)
response_reused_example =
    response_reused 8 false false two_bytes other_bytes no_buffers
      (record { reset = tt; used = tt }) refl

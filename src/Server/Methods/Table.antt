-- ===== src/Server/Methods/Table.antt =====
-- main's registrations, and the call that a request of the server is sent as.
use dropbox_for_ctf.Base.{ℕ, true, false, some, List, [], ◌∷◌}
use dropbox_for_ctf.Text.{Bytes, lit}
use dropbox_for_ctf.Go.{Body, Func, ◌>>◌}
use dropbox_for_ctf.Store.{Host, World}
use dropbox_for_ctf.Rpc.Dispatch.{Function, Handler, Registry, register_handler, register_finalizer}
use dropbox_for_ctf.Server.Lifecycle.{finalizer}
use dropbox_for_ctf.Server.Handlers.{
  chperm, share, unshare, upload, download, list, mkdir, remove_file, pwd, cd, Request, in_session,
  authenticate, signup, Reply, message, contents, listing, directory, login, signed_up,
}
use dropbox_for_ctf.Server.Methods.{
  GoType, string_type, bytes_type, bool_type, list_return_type, pwd_return_type,
  download_return_type, auth_return_type, Value, string_value, bytes_value, bool_value, list_value,
  pwd_value, download_value, auth_value, go_types, chperm_body, share_body, unshare_body,
  upload_body, download_body, list_body, mkdir_body, remove_body, pwd_body, cd_body,
  authenticate_body, signup_body,
}

-- A function of fixed arguments with one result.
abbrev pub function :
    {S : Type 0}
    → List GoType
    → GoType
    → (List Value → Func (World S) (List Value))
    → Function GoType Value (World S)
function ins out body = record {
  is_func = true;
  variadic = false;
  ins = ins;
  outs = out ∷ [];
  body = body;
}

abbrev pub handler :
    {S : Type 0}
    → List GoType
    → GoType
    → (List Value → Func (World S) (List Value))
    → Handler GoType Value (World S)
handler ins out body = record { f = body; args = ins; ret = some out }

module _ {S : Type 0} (host : Host S) (fuel : ℕ) where
  -- The registrations of `main`, in its order; `types` is the fuel for the check of the types.
  unfoldable pub register_all :
      {R : Type 0} → ℕ → Body (Registry GoType Value (World S)) R (Unit {0})
  register_all types = do
    register_handler go_types types (lit "unshare") (
        function (string_type ∷ string_type ∷ string_type ∷ string_type ∷ []) string_type
          (unshare_body host fuel))
    register_handler go_types types (lit "chperm") (
        function (string_type ∷ string_type ∷ string_type ∷ string_type ∷ string_type ∷ [])
          string_type (chperm_body host fuel))
    register_handler go_types types (lit "share") (
        function (string_type ∷ string_type ∷ string_type ∷ string_type ∷ string_type ∷ [])
          string_type (share_body host fuel))
    register_handler go_types types (lit "upload") (
        function (string_type ∷ string_type ∷ bytes_type ∷ string_type ∷ []) string_type
          (upload_body host fuel))
    register_handler go_types types (lit "download") (
        function (string_type ∷ string_type ∷ string_type ∷ []) download_return_type
          (download_body host fuel))
    register_handler go_types types (lit "list") (
        function (string_type ∷ string_type ∷ string_type ∷ []) list_return_type
          (list_body host fuel))
    register_handler go_types types (lit "mkdir")
        (function (string_type ∷ string_type ∷ string_type ∷ []) string_type (mkdir_body host fuel))
    register_handler go_types types (lit "remove") (
        function (string_type ∷ string_type ∷ string_type ∷ []) string_type (remove_body host fuel))
    register_handler go_types types (lit "pwd")
        (function (string_type ∷ string_type ∷ []) pwd_return_type (pwd_body host fuel))
    register_handler go_types types (lit "cd")
        (function (string_type ∷ string_type ∷ string_type ∷ []) string_type (cd_body host fuel))
    register_finalizer (finalizer host)
    register_handler go_types types (lit "authenticate")
        (function (string_type ∷ string_type ∷ []) auth_return_type (authenticate_body host fuel))
    register_handler go_types types (lit "signup")
        (function (string_type ∷ string_type ∷ []) bool_type (signup_body host fuel))

  -- What `handlers` holds after that.
  unfoldable pub methods : List (Bytes × Handler GoType Value (World S))
  methods =
      (
        lit "unshare",
        handler (string_type ∷ string_type ∷ string_type ∷ string_type ∷ []) string_type
            (unshare_body host fuel),
      )
      ∷ (
        lit "chperm",
        handler (string_type ∷ string_type ∷ string_type ∷ string_type ∷ string_type ∷ [])
            string_type (chperm_body host fuel),
      )
      ∷ (
        lit "share",
        handler (string_type ∷ string_type ∷ string_type ∷ string_type ∷ string_type ∷ [])
            string_type (share_body host fuel),
      )
      ∷ (
        lit "upload",
        handler (string_type ∷ string_type ∷ bytes_type ∷ string_type ∷ []) string_type
            (upload_body host fuel),
      )
      ∷ (
        lit "download",
        handler (string_type ∷ string_type ∷ string_type ∷ []) download_return_type
            (download_body host fuel),
      )
      ∷ (
        lit "list",
        handler (string_type ∷ string_type ∷ string_type ∷ []) list_return_type
            (list_body host fuel),
      )
      ∷ (
        lit "mkdir",
        handler (string_type ∷ string_type ∷ string_type ∷ []) string_type (mkdir_body host fuel),
      )
      ∷ (
        lit "remove",
        handler (string_type ∷ string_type ∷ string_type ∷ []) string_type (remove_body host fuel),
      )
      ∷ (lit "pwd", handler (string_type ∷ string_type ∷ []) pwd_return_type (pwd_body host fuel))
      ∷ (
        lit "cd",
        handler (string_type ∷ string_type ∷ string_type ∷ []) string_type (cd_body host fuel),
      )
      ∷ (
        lit "authenticate",
        handler (string_type ∷ string_type ∷ []) auth_return_type (authenticate_body host fuel),
      )
      ∷ (lit "signup", handler (string_type ∷ string_type ∷ []) bool_type (signup_body host fuel))
      ∷ []

-- The name and the arguments of the call.
unfoldable pub method_of : Request → Bytes
method_of (in_session u c (chperm p v n)) = lit "chperm"
method_of (in_session u c (share p v n)) = lit "share"
method_of (in_session u c (unshare p v)) = lit "unshare"
method_of (in_session u c (upload p b)) = lit "upload"
method_of (in_session u c (download p)) = lit "download"
method_of (in_session u c (list p)) = lit "list"
method_of (in_session u c (mkdir p)) = lit "mkdir"
method_of (in_session u c (remove_file p)) = lit "remove"
method_of (in_session u c pwd) = lit "pwd"
method_of (in_session u c (cd p)) = lit "cd"
method_of (authenticate u p) = lit "authenticate"
method_of (signup u p) = lit "signup"

unfoldable pub arguments_of : Request → List Value
arguments_of (in_session u c (chperm p v n)) =
    string_value p ∷ string_value v ∷ string_value n ∷ string_value u ∷ string_value c ∷ []
arguments_of (in_session u c (share p v n)) =
    string_value p ∷ string_value v ∷ string_value n ∷ string_value u ∷ string_value c ∷ []
arguments_of (in_session u c (unshare p v)) =
    string_value p ∷ string_value v ∷ string_value u ∷ string_value c ∷ []
arguments_of (in_session u c (upload p b)) =
    string_value p ∷ string_value u ∷ bytes_value b ∷ string_value c ∷ []
arguments_of (in_session u c (download p)) = string_value p ∷ string_value u ∷ string_value c ∷ []
arguments_of (in_session u c (list p)) = string_value p ∷ string_value u ∷ string_value c ∷ []
arguments_of (in_session u c (mkdir p)) = string_value p ∷ string_value u ∷ string_value c ∷ []
arguments_of (in_session u c (remove_file p)) =
    string_value p ∷ string_value u ∷ string_value c ∷ []
arguments_of (in_session u c pwd) = string_value u ∷ string_value c ∷ []
arguments_of (in_session u c (cd p)) = string_value p ∷ string_value u ∷ string_value c ∷ []
arguments_of (authenticate u p) = string_value u ∷ string_value p ∷ []
arguments_of (signup u p) = string_value u ∷ string_value p ∷ []

unfoldable pub value_of : Reply → Value
value_of (message s) = string_value s
value_of (contents r) = download_value r
value_of (listing r) = list_value r
value_of (directory r) = pwd_value r
value_of (login r) = auth_value r
value_of (signed_up b) = bool_value b

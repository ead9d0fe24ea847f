-- ===== src/Server/Methods/Serve.antt =====
-- A remote call of a registered method, and the server's own dispatch.
use dropbox_for_ctf.Base.{ℕ, ◌≡◌, refl, sym, ap, ◌∙◌, some, List, [], ◌∷◌, map}
use mathlib.Core.Path.{fun_ext}
use dropbox_for_ctf.Text.{Bytes, lit, str_eq}
use dropbox_for_ctf.FilePath.{Result}
use dropbox_for_ctf.Go.{Func, ◌>>=◌, call, pure}
use dropbox_for_ctf.Go.Step.{call-bind_pure}
use dropbox_for_ctf.Store.{Host, World}
use dropbox_for_ctf.Rpc.Dispatch.{Codec, Handler, find_handler, answer, respond, request}
use dropbox_for_ctf.Rpc.Dispatch
use dropbox_for_ctf.Rpc.Serve.{Encodes, request-Encodes}
use dropbox_for_ctf.Server.Account.{authenticate_handler, signup_handler}
use dropbox_for_ctf.Server.Files.{upload_handler, download_handler}
use dropbox_for_ctf.Server.Sharing.{chperm_handler, share_handler, unshare_handler}
use dropbox_for_ctf.Server.Handlers.{
  list_handler, mkdir_handler, remove_handler, pwd_handler, cd_handler, chperm, share, unshare,
  upload, download, list, mkdir, remove_file, pwd, cd, Request, in_session, authenticate, signup,
  Reply, message, contents, listing, directory, login, signed_up, run_command, serve,
}
use dropbox_for_ctf.Server.Methods.{
  GoType, string_type, bool_type, list_return_type, pwd_return_type, download_return_type,
  auth_return_type, Value, string_value, bool_value, list_value, pwd_value, download_value,
  auth_value, type_of, chperm_body, share_body, unshare_body, upload_body, download_body, list_body,
  mkdir_body, remove_body, pwd_body, cd_body, authenticate_body, signup_body,
}
use dropbox_for_ctf.Server.Methods.Table.{methods, method_of, arguments_of, value_of}

module _ {S : Type 0} (codec : Codec GoType Value) where
  -- The server's reply, encoded.
  abbrev pub encoded : Func (World S) Reply → Func (World S) (Result Bytes)
  encoded m = call m >>= λ reply. respond codec (codec.encode (value_of reply))

  -- A handler's result as a list of values, and as a reply, is sent as the same bytes.
  same_answer :
      {A : Type 0} (m : Func (World S) A) (value : A → Value) (reply : A → Reply) (t : GoType)
      → ((a : A) → value_of (reply a) ≡ value a)
      → (w : World S)
      → (call (call m >>= λ a. pure (value a ∷ [])) >>= λ rets. answer codec (some t) rets) w
        ≡ encoded (call m >>= λ a. pure (reply a)) w
  unfolding answer respond ◌>>=◌
  same_answer m value reply t same w =
      call-bind_pure m (λ a. value a ∷ []) (λ rets. answer codec (some t) rets) w
      ∙ ap (λ (v : _ → Value). (call m >>= λ a. answer codec (some t) (v a ∷ [])) w)
          (fun_ext (λ a. sym (same a)))
      ∙ sym (call-bind_pure m reply (λ r. respond codec (codec.encode (value_of r))) w)

module _ {S : Type 0} (host : Host S) (fuel : ℕ) (codec : Codec GoType Value) where
  -- The request of the remote call.
  abbrev pub called : Request → List Bytes → Dispatch.Request
  called r bs = record { name = method_of r; args = bs }

  found :
      (r : Request) (h : Handler GoType Value (World S)) (bs : List Bytes) (w : World S)
      → find_handler (method_of r) (methods host fuel) ≡ some h
      → h.args ≡ map type_of (arguments_of r)
      → Encodes codec type_of (arguments_of r) bs
      → request codec (methods host fuel) (called r bs) w
        ≡ (call (h.f (arguments_of r)) >>= λ rets. answer codec h.ret rets) w
  found r h bs w e f sent =
      request-Encodes codec type_of (methods host fuel) h (called r bs) (arguments_of r) w e f sent

  -- The remote call of a request, with its arguments encoded, is served as the request itself is, and
  -- the reply is sent back encoded, whichever of the twelve methods it is and however it ends.
  pub request_serves :
      (r : Request) (bs : List Bytes) (w : World S)
      → Encodes codec type_of (arguments_of r) bs
      → request codec (methods host fuel) (called r bs) w ≡ encoded codec (serve host fuel r) w
  unfolding serve run_command methods method_of arguments_of find_handler lit str_eq value_of
      chperm_body share_body unshare_body upload_body download_body list_body mkdir_body remove_body
      pwd_body cd_body authenticate_body signup_body
  request_serves (in_session u c (chperm p v n)) bs w sent =
      found (in_session u c (chperm p v n)) _ bs w refl refl sent
      ∙ same_answer codec (chperm_handler host p v n u c) string_value message string_type
          (λ a. refl) w
  request_serves (in_session u c (share p v n)) bs w sent =
      found (in_session u c (share p v n)) _ bs w refl refl sent
      ∙ same_answer codec (share_handler host fuel p v n u c) string_value message string_type
          (λ a. refl) w
  request_serves (in_session u c (unshare p v)) bs w sent =
      found (in_session u c (unshare p v)) _ bs w refl refl sent
      ∙ same_answer codec (unshare_handler host p v u c) string_value message string_type
          (λ a. refl) w
  request_serves (in_session u c (upload p b)) bs w sent =
      found (in_session u c (upload p b)) _ bs w refl refl sent
      ∙ same_answer codec (upload_handler host p u b c) string_value message string_type (λ a. refl)
          w
  request_serves (in_session u c (download p)) bs w sent =
      found (in_session u c (download p)) _ bs w refl refl sent
      ∙ same_answer codec (download_handler host p u c) download_value contents download_return_type
          (λ a. refl) w
  request_serves (in_session u c (list p)) bs w sent =
      found (in_session u c (list p)) _ bs w refl refl sent
      ∙ same_answer codec (list_handler host p u c) list_value listing list_return_type (λ a. refl)
          w
  request_serves (in_session u c (mkdir p)) bs w sent =
      found (in_session u c (mkdir p)) _ bs w refl refl sent
      ∙ same_answer codec (mkdir_handler host p u c) string_value message string_type (λ a. refl) w
  request_serves (in_session u c (remove_file p)) bs w sent =
      found (in_session u c (remove_file p)) _ bs w refl refl sent
      ∙ same_answer codec (remove_handler host p u c) string_value message string_type (λ a. refl) w
  request_serves (in_session u c pwd) bs w sent =
      found (in_session u c pwd) _ bs w refl refl sent
      ∙ same_answer codec (pwd_handler host u c) pwd_value directory pwd_return_type (λ a. refl) w
  request_serves (in_session u c (cd p)) bs w sent =
      found (in_session u c (cd p)) _ bs w refl refl sent
      ∙ same_answer codec (cd_handler host p u c) string_value message string_type (λ a. refl) w
  request_serves (authenticate u p) bs w sent =
      found (authenticate u p) _ bs w refl refl sent
      ∙ same_answer codec (authenticate_handler host u p) auth_value login auth_return_type
          (λ a. refl) w
  request_serves (signup u p) bs w sent =
      found (signup u p) _ bs w refl refl sent
      ∙ same_answer codec (signup_handler host u p) bool_value signed_up bool_type (λ a. refl) w

-- ===== src/Server/Methods/Call.antt =====
-- A call from the client's side, over a network that brings it to the server.
use dropbox_for_ctf.Base.{ℕ, ◌≡◌, refl, ◌∙◌, arith, true, Option, some, List, [], ◌∷◌, ◌++◌, All}
use dropbox_for_ctf.Text.{Bytes}
use dropbox_for_ctf.FilePath.{Result, ok}
use dropbox_for_ctf.Go.{next, ◌>>=◌, call, pure}
use dropbox_for_ctf.Go.Step.{bind-next, call-next}
use dropbox_for_ctf.Store.{Host, World}
use dropbox_for_ctf.Rpc.Dispatch.{Codec, Handler, respond, request}
use dropbox_for_ctf.Rpc.Dispatch
use dropbox_for_ctf.Rpc.Serve.{Encodes}
use dropbox_for_ctf.Rpc.Remote.{
  Network, Link, over, dial, redial, encode_args, decode_return, send, wait_for, remote_call,
}
use dropbox_for_ctf.Server.Handlers.{
  chperm, share, unshare, upload, download, list, mkdir, remove_file, pwd, cd, Request, in_session,
  authenticate, signup, Reply, serve,
}
use dropbox_for_ctf.Server.Methods.{
  GoType, Value, string_value, bytes_value, bool_value, list_value, pwd_value, download_value,
  auth_value, type_of,
}
use dropbox_for_ctf.Server.Methods.Table.{methods, method_of, arguments_of, value_of}
use dropbox_for_ctf.Server.Methods.Serve.{called, request_serves}

-- A string or a byte slice, for which gob writes no description of a type.
abbrev pub IsPlain : Value → Type 0
IsPlain (string_value s) = Unit
IsPlain (bytes_value b) = Unit
IsPlain (bool_value b) = ⊥
IsPlain (list_value r) = ⊥
IsPlain (pwd_value r) = ⊥
IsPlain (download_value r) = ⊥
IsPlain (auth_value r) = ⊥

-- What the program relies on of encoding/gob: a value is written as some bytes, at least one, and read
-- back from them; and what an encoder has written before does not matter to a plain value.
pub record IsFaithful (codec : Codec GoType Value) : Type 0 where
  pub encodes :
      (v : Value)
      → (c : ℕ) × (bs : Bytes) × (codec.encode v ≡ ok (c ∷ bs))
        × (codec.decode (type_of v) (c ∷ bs) ≡ ok v)
  pub plain :
      (done : List Value) (v : Value) → IsPlain v → codec.encode_after done v ≡ codec.encode v

-- What the program relies on of net/rpc: the server can be dialled, and an exchange with it is one run
-- of `request`.
pub record IsServing {S : Type 0} (host : Host S) (fuel : ℕ) (codec : Codec GoType Value)
    (network : Network (World S)) : Type 0 where
  pub dials : (w : World S) → network.dial w ≡ (ok tt, w)
  pub exchanges :
      (req : Dispatch.Request) (r : Result Bytes) (w v : World S)
      → request codec (methods host fuel) req w ≡ next r v
      → network.exchange req w ≡ some (r, v)

arguments-IsPlain : (r : Request) → All IsPlain (arguments_of r)
unfolding arguments_of
arguments-IsPlain (in_session u c (chperm p v n)) = (tt, (tt, (tt, (tt, (tt, tt)))))
arguments-IsPlain (in_session u c (share p v n)) = (tt, (tt, (tt, (tt, (tt, tt)))))
arguments-IsPlain (in_session u c (unshare p v)) = (tt, (tt, (tt, (tt, tt))))
arguments-IsPlain (in_session u c (upload p b)) = (tt, (tt, (tt, (tt, tt))))
arguments-IsPlain (in_session u c (download p)) = (tt, (tt, (tt, tt)))
arguments-IsPlain (in_session u c (list p)) = (tt, (tt, (tt, tt)))
arguments-IsPlain (in_session u c (mkdir p)) = (tt, (tt, (tt, tt)))
arguments-IsPlain (in_session u c (remove_file p)) = (tt, (tt, (tt, tt)))
arguments-IsPlain (in_session u c pwd) = (tt, (tt, tt))
arguments-IsPlain (in_session u c (cd p)) = (tt, (tt, (tt, tt)))
arguments-IsPlain (authenticate u p) = (tt, (tt, tt))
arguments-IsPlain (signup u p) = (tt, (tt, tt))

module _ {S : Type 0} (codec : Codec GoType Value) (faithful : IsFaithful codec)
    (network : Network (World S)) where
  encode_args-IsPlain :
      {R : Type 0} (done vs : List Value) (s : Link (World S))
      → All IsPlain vs
      → (bs : List Bytes) × Encodes codec type_of vs bs
        × (encode_args network codec {R = R} done vs s ≡ next bs s)
  unfolding encode_args ◌>>=◌
  encode_args-IsPlain done [] s h = ([], tt, refl)
  encode_args-IsPlain {R} done (v ∷ vs) s h =
      let (c, b, e, d) = faithful.encodes v in
      let (bs, sent, rest) = encode_args-IsPlain {R = R} (done ++ v ∷ []) vs s h.1 in
      ((c ∷ b) ∷ bs, (d, sent), ground (arith, faithful.plain done v h.0, e, rest))

module _ {S : Type 0} (host : Host S) (fuel : ℕ) (codec : Codec GoType Value)
    (faithful : IsFaithful codec) (network : Network (World S))
    (serving : IsServing host fuel codec network) where
  dial-opens :
      (s : Link (World S))
      → call {R = Result (Option Value)} (dial network) s
        ≡ next (ok tt) (record { connected = true; world = s.world })
  unfolding dial redial over ◌>>=◌
  dial-opens s = ground (arith, serving.dials s.world)

  exchange-serves :
      (r : Request) (reply : Reply) (bs : List Bytes) (b : Bytes) (w : World S) {v : World S}
      → serve host fuel r w ≡ next reply v
      → Encodes codec type_of (arguments_of r) bs
      → codec.encode (value_of reply) ≡ ok b
      → network.exchange (called host fuel codec r bs) w ≡ some (ok b, v)
  unfolding respond pure
  exchange-serves r reply bs b w {v} served sent e =
      serving.exchanges (called host fuel codec r bs) (ok b) w v (
        request_serves host fuel codec r bs w sent
        ∙ bind-next (call (serve host fuel r)) _ (call-next (serve host fuel r) served)
        ∙ rw e refl)

  -- A remote call is the server's dispatch at a distance: where the server ends a request with a reply, the
  -- call of the request's method with its arguments gives that reply, in the state that the server is left
  -- in, over a connection that is open already and over a new one.
  pub remote_call_serves :
      (r : Request) (reply : Reply) (s : Link (World S)) {v : World S}
      → serve host fuel r s.world ≡ next reply v
      → remote_call network codec (method_of r) (some (type_of (value_of reply))) (arguments_of r) s
        ≡ next (ok (some (value_of reply))) (record { connected = true; world = v })
  unfolding remote_call send wait_for decode_return ◌>>=◌
  remote_call_serves r reply s {v} served =
      let (c, b, e, d) = faithful.encodes (value_of reply) in
      let (bs, sent, f) =
        encode_args-IsPlain codec faithful network {R = Option Value} [] (arguments_of r)
          (record { connected = true; world = s.world }) (arguments-IsPlain r) in
      ground (arith, dial-opens s, f, exchange-serves r reply bs (c ∷ b) s.world served sent e, d)

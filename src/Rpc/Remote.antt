-- ===== src/Rpc/Remote.antt =====
-- lib/support/rpc/client.go: the calling side.
use dropbox_for_ctf.Base.{Bool, true, false, Option, none, some, List, if◌then◌else◌, [], ◌∷◌, ◌++◌}
use dropbox_for_ctf.Text.{Bytes, lit}
use dropbox_for_ctf.FilePath.{Result, ok, err}
use dropbox_for_ctf.Go.{
  Body, Func, next, hang, ◌>>=◌, ◌>>◌, pure, return, gets, modify, or_return, call,
}
use dropbox_for_ctf.Rpc.Dispatch.{Codec, Request}

-- net/rpc: to open a connection, and to call `Server.Request` over it. The error of the second is
-- what the server's method returned, or what became of the connection; without an answer and without an
-- end of the connection the call goes on for ever, which is `none`.
pub record Network (W : Type 0) : Type 0 where
  pub dial : W → Result (Unit {0}) × W
  pub exchange : Request → W → Option (Result Bytes × W)

-- `ServerRemote`: whether `c` is not nil, with what stands behind it.
pub record Link (W : Type 0) : Type 0 where
  pub connected : Bool
  pub world : W

module _ {W : Type 0} (network : Network W) where
  unfoldable pub over : {A R : Type 0} → (W → Result A × W) → Body (Link W) R (Result A)
  over f s = let (r, w) = f s.world in next r (record s { world = w })

  unfoldable pub wait_for :
      {A R : Type 0} → (W → Option (Result A × W)) → Body (Link W) R (Result A)
  wait_for f s = elim (f s.world) [ none ↦ hang s | some (r, w) ↦ next r (record s { world = w }) ]

  -- `rpc.Dial`, and `s.c` by its error
  unfoldable pub redial : Func (Link W) (Result (Unit {0}))
  unfolding over
  redial = do
    r ← over network.dial
    or_return r err
    modify λ s. record s { connected = true }
    pure (ok tt)

  unfoldable pub dial : Func (Link W) (Result (Unit {0}))
  unfolding redial
  dial = do connected ← gets (λ s. s.connected); if connected then pure (ok tt) else redial

module _ {W T V : Type 0} (network : Network W) (codec : Codec T V) where
  -- The loop over the arguments; all are written by one encoder, which has written `done` before.
  unfoldable pub encode_args :
      {R : Type 0} → List V → List V → Body (Link W) (Result R) (List Bytes)
  encode_args done [] = pure []
  encode_args done (v ∷ vs) = do
    b ← or_return (codec.encode_after done v) (λ e. err (lit "local: " ++ e))
    bs ← encode_args (done ++ v ∷ []) vs
    pure (b ∷ bs)

  -- The response, by the type of what `ret` points to, or by `ret == nil`.
  unfoldable pub decode_return : Option T → Bytes → Result (Option V)
  decode_return none [] = ok none
  decode_return none (b ∷ bs) = err (lit "local: expected 0 return values; got 1")
  decode_return (some t) [] = err (lit "local: expected 1 return value; got 0")
  decode_return (some t) (b ∷ bs) = elim (codec.decode t (b ∷ bs)) [
    | ok v ↦ ok (some v)
    | err e ↦ err (lit "local: " ++ e)
  ]

  -- `s.c.Call("Server.Request", req, &resp)`; an error closes the connection for good.
  unfoldable pub send : {R : Type 0} → Request → Body (Link W) (Result R) Bytes
  unfolding wait_for
  send req = do
    r ← wait_for network (network.exchange req)
    elim r [
      | ok b ↦ pure b
      | err e ↦ do modify λ s. record s { connected = false }; return (err (lit "remote: " ++ e))
    ]

  -- `Call`
  unfoldable pub remote_call : Bytes → Option T → List V → Func (Link W) (Result (Option V))
  unfolding dial encode_args decode_return send
  remote_call method ret vs = do
    dialled ← call (dial network)
    or_return dialled err
    bs ← encode_args [] vs
    b ← send (record { name = method; args = bs })
    pure (decode_return ret b)

-- ===== src/Rpc/Dispatch.antt =====
-- lib/support/rpc/server.go and reflect.go: the registry of handlers, and what a request does.
use dropbox_for_ctf.Base.{
  ℕ, suc, not, Bool, true, false, Option, none, some, List, [], ◌∷◌, ◌++◌, ◌==◌, if◌then◌else◌,
}
use dropbox_for_ctf.Text.{Bytes, lit, str_eq, itoa}
use dropbox_for_ctf.FilePath.{Result, ok, err}
use dropbox_for_ctf.Go.{
  Body, Func, hang, ◌>>=◌, ◌>>◌, pure, return, exit_process, gets, modify, return_if, or_return,
  call,
}
use dropbox_for_ctf.Rpc.Reflect.{TypeTable, Verdict, fine, bad, starved, valid_type}

-- encoding/gob, on the values `V` and types `T` of a program: a fresh encoder or decoder for each
-- call, but for `encode_after`, where the same encoder has written the given values before.
pub record Codec (T V : Type 0) : Type 0 where
  pub encode : V → Result Bytes
  pub encode_after : List V → V → Result Bytes
  pub decode : T → Bytes → Result V

abbrev pub count_of : {A : Type 0} → List A → ℕ
count_of [] = 0
count_of (x ∷ xs) = suc (count_of xs)

-- What `reflect` tells of the function that is registered, and the function.
pub record Function (T V W : Type 0) : Type 0 where
  pub is_func : Bool
  pub variadic : Bool
  pub ins : List T
  pub outs : List T
  -- `Value.Call`, with the list of results
  pub body : List V → Func W (List V)

-- `handler`
pub record Handler (T V W : Type 0) : Type 0 where
  pub f : List V → Func W (List V)
  pub args : List T
  pub ret : Option T

-- `rpcType.Request`
pub record Request : Type 0 where
  pub name : Bytes
  pub args : List Bytes

module _ {T V W : Type 0} (codec : Codec T V) where
  -- The loop that decodes the arguments, for lists of one length.
  unfoldable pub decode_args : List T → List Bytes → Body W (Result Bytes) (List V)
  decode_args [] bs = pure []
  decode_args (t ∷ ts) [] = pure []
  decode_args (t ∷ ts) (b ∷ bs) = do
    v ← or_return (codec.decode t b) err
    vs ← decode_args ts bs
    pure (v ∷ vs)

module _ {T V W : Type 0} where
  -- `handlers[name]`
  unfoldable pub find_handler : Bytes → List (Bytes × Handler T V W) → Option (Handler T V W)
  find_handler name [] = none
  find_handler name ((n, h) ∷ hs) = if str_eq n name then some h else find_handler name hs

module _ {T V W : Type 0} (codec : Codec T V) where
  -- `return fmt.Errorf("error after calling function: %v", err)` or the response
  unfoldable pub respond : Result Bytes → Func W (Result Bytes)
  respond (ok b) = pure (ok b)
  respond (err e) = pure (err (lit "error after calling function: " ++ e))

  -- What is sent back for the results of the function; `ret[0]` of no result is a panic.
  unfoldable pub answer : Option T → List V → Func W (Result Bytes)
  unfolding respond
  answer none vs = pure (ok [])
  answer (some t) [] = exit_process
  answer (some t) (v ∷ vs) = respond (codec.encode v)

  -- `handleRequest`: the response's `Return`, or the error.
  unfoldable pub handle_request : Handler T V W → Request → Func W (Result Bytes)
  unfolding decode_args answer
  handle_request h req = do
    return_if (not (count_of req.args == count_of h.args)) (
        err (
          lit "expected "
          ++ itoa (count_of h.args)
          ++ lit " arguments; got "
          ++ itoa (count_of req.args)))
    args ← decode_args codec h.args req.args
    rets ← call (h.f args)
    answer h.ret rets

  -- `request`, once it holds the mutex
  unfoldable pub request : List (Bytes × Handler T V W) → Request → Func W (Result Bytes)
  unfolding find_handler handle_request
  request handlers req = elim (find_handler req.name handlers) [
    | none ↦ pure (err (lit "no method with name: " ++ req.name))
    | some h ↦ handle_request h req
  ]

-- The package's variables `handlers` and `finalizer`.
pub record Registry (T V W : Type 0) : Type 0 where
  pub handlers : List (Bytes × Handler T V W)
  pub finalizer : Option (Func W (Unit {0}))

-- `if err := validType(t); err != nil { return h, … }`
unfoldable pub require_valid : {T X R : Type 0} → Bytes → Verdict T → Body X (Result R) (Unit {0})
require_valid text (fine m) = pure tt
require_valid text (bad e) = return (err (text ++ e))
require_valid text starved = hang

-- A panic ends the process.
unfoldable pub or_panic : {X R A : Type 0} → Result A → Body X R A
or_panic (ok a) = pure a
or_panic (err e) = exit_process

abbrev pub is_some : {A : Type 0} → Option A → Bool
is_some none = false
is_some (some a) = true

module _ {T : Type 0} (table : TypeTable T) (fuel : ℕ) where
  -- The cases of `typ.NumOut()`.
  unfoldable pub result_type : {R X : Type 0} → List T → Body X (Result R) (Option T)
  unfolding require_valid
  result_type [] = pure none
  result_type (t ∷ []) = do
    require_valid (lit "handler has bad return value: ") (valid_type table fuel t)
    pure (some t)
  result_type (t ∷ u ∷ ts) = return (err (lit "handler must have 0 or 1 return values"))

  unfoldable pub check_ins : {R X : Type 0} → List T → Body X (Result R) (Unit {0})
  unfolding require_valid
  check_ins [] = pure tt
  check_ins (t ∷ ts) = do require_valid [] (valid_type table fuel t); check_ins ts

module _ {T V W : Type 0} (table : TypeTable T) (fuel : ℕ) where
  -- `getHandler`
  unfoldable pub get_handler : {X : Type 0} → Function T V W → Func X (Result (Handler T V W))
  unfolding result_type check_ins
  get_handler f = do
    return_if (not f.is_func) (err (lit "handler has non-function type"))
    ret ← result_type table fuel f.outs
    return_if f.variadic (err (lit "handler cannot have a variadic argument"))
    check_ins table fuel f.ins
    pure (ok (record { f = f.body; args = f.ins; ret = ret }))

  -- `RegisterHandler`
  unfoldable pub register_handler :
      {R : Type 0} → Bytes → Function T V W → Body (Registry T V W) R (Unit {0})
  unfolding get_handler or_panic find_handler
  register_handler name f = do
    taken ← gets (λ r. is_some (find_handler name r.handlers))
    if taken then exit_process else pure tt
    made ← call (get_handler f)
    h ← or_panic made
    modify λ r. record r { handlers = r.handlers ++ (name, h) ∷ [] }

-- `RegisterFinalizer`
unfoldable pub register_finalizer :
    {T V W R : Type 0} → Func W (Unit {0}) → Body (Registry T V W) R (Unit {0})
register_finalizer f = do
  taken ← gets (λ r. is_some r.finalizer)
  if taken then exit_process else pure tt
  modify λ r. record r { finalizer = some f }

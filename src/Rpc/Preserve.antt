-- ===== src/Rpc/Preserve.antt =====
-- What every registered function preserves, in a request of any name with any arguments.
use dropbox_for_ctf.Base.{
  Option, none, some, List, [], ◌∷◌, ◌++◌, All, ◌≡◌, refl, inl, inr, Bool-cases, arith,
}
use dropbox_for_ctf.Text.{Bytes, lit, str_eq}
use dropbox_for_ctf.FilePath.{Result, ok, err}
use dropbox_for_ctf.Go.{Body, pure}
use dropbox_for_ctf.Go.Keeps.{Keeps, keeps_rules, Keeps-bind}
use dropbox_for_ctf.Rpc.Dispatch.{
  Codec, Handler, Request, decode_args, find_handler, respond, answer, handle_request, request,
}

-- The function of the handler keeps `P`, for any list of arguments.
pub record IsSafe {T V W : Type 0} (P : W → Type 0) (entry : Bytes × Handler T V W) : Type 0 where
  pub call : (vs : List V) → Keeps P (entry.1.f vs)

module _ {T V W : Type 0} {P : W → Type 0} (codec : Codec T V) where
  Keeps-decode_args : (ts : List T) (bs : List Bytes) → Keeps P (decode_args codec ts bs)
  unfolding decode_args
  Keeps-decode_args [] bs = search keeps_rules
  Keeps-decode_args (t ∷ ts) [] = search keeps_rules
  Keeps-decode_args (t ∷ ts) (b ∷ bs) =
      Keeps-bind _ _ (search keeps_rules)
        λ v. Keeps-bind _ _ (Keeps-decode_args ts bs) λ vs. search keeps_rules

  Keeps-respond : (r : Result Bytes) → Keeps P (respond codec r)
  unfolding respond
  Keeps-respond (ok b) = search keeps_rules
  Keeps-respond (err e) = search keeps_rules

  Keeps-answer : (t : Option T) (vs : List V) → Keeps P (answer codec t vs)
  unfolding answer
  Keeps-answer none vs = search keeps_rules
  Keeps-answer (some t) [] = search keeps_rules
  Keeps-answer (some t) (v ∷ vs) = Keeps-respond (codec.encode v)

  Keeps-handle_request :
      (h : Handler T V W) (req : Request)
      → ((vs : List V) → Keeps P (h.f vs))
      → Keeps P (handle_request codec h req)
  unfolding handle_request
  Keeps-handle_request h req safe = search (keeps_rules, Keeps-decode_args, Keeps-answer) depth 12

module _ {T V W : Type 0} (P : W → Type 0) where
  find_handler-IsSafe :
      (name : Bytes) (hs : List (Bytes × Handler T V W)) {h : Handler T V W}
      → All (IsSafe P) hs
      → find_handler name hs ≡ some h
      → (vs : List V) → Keeps P (h.f vs)
  unfolding find_handler
  find_handler-IsSafe name [] safe e vs = cc e
  find_handler-IsSafe name ((n, k) ∷ hs) {h} safe e vs = elim (Bool-cases (str_eq n name)) [
    | inl same ↦ ground (arith, safe.0.call vs, same, e)
    | inr other ↦ find_handler-IsSafe name hs {h = h} safe.1 (ground (arith, other, e)) vs
  ]

  Keeps-dispatch :
      (codec : Codec T V) (req : Request) (o : Option (Handler T V W))
      → ((h : Handler T V W) → o ≡ some h → (vs : List V) → Keeps P (h.f vs))
      → Keeps P (elim o as (λ _. Body W (Result Bytes) (Result Bytes)) [
        | none ↦ pure (err (lit "no method with name: " ++ req.name))
        | some h ↦ handle_request codec h req
      ])
  Keeps-dispatch codec req none safe = search keeps_rules
  Keeps-dispatch codec req (some h) safe = Keeps-handle_request codec h req (safe h refl)

  -- Every request keeps what all registered functions keep.
  pub Keeps-request :
      (codec : Codec T V) (hs : List (Bytes × Handler T V W)) (req : Request)
      → All (IsSafe P) hs
      → Keeps P (request codec hs req)
  unfolding request
  Keeps-request codec hs req safe =
      Keeps-dispatch codec req (find_handler req.name hs)
        λ h e. find_handler-IsSafe req.name hs safe e

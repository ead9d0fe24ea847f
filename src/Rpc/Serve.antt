-- ===== src/Rpc/Serve.antt =====
-- A request whose arguments are decoded as they were sent.
use dropbox_for_ctf.Base.{◌≡◌, refl, some, List, [], ◌∷◌, arith, map}
use dropbox_for_ctf.Text.{Bytes}
use dropbox_for_ctf.FilePath.{ok}
use dropbox_for_ctf.Go.{next, ◌>>=◌, call}
use dropbox_for_ctf.Rpc.Dispatch.{
  Codec, Handler, Request, count_of, decode_args, answer, handle_request, find_handler, request,
}

module _ {T V : Type 0} (codec : Codec T V) (type_of : V → T) where
  -- The bytes are decoded to the values.
  abbrev pub Encodes : List V → List Bytes → Type 0
  Encodes [] [] = Unit
  Encodes (v ∷ vs) (b ∷ bs) = (codec.decode (type_of v) b ≡ ok v) × Encodes vs bs
  Encodes [] (b ∷ bs) = ⊥
  Encodes (v ∷ vs) [] = ⊥

  Encodes-count :
      (vs : List V) (bs : List Bytes) → Encodes vs bs → count_of bs ≡ count_of (map type_of vs)
  Encodes-count [] [] h = refl
  Encodes-count (v ∷ vs) (b ∷ bs) h = omega (arith, Encodes-count vs bs h.1)
  Encodes-count [] (b ∷ bs) h = absurd h
  Encodes-count (v ∷ vs) [] h = absurd h

module _ {T V W : Type 0} (codec : Codec T V) (type_of : V → T) where
  decode_args-Encodes :
      (vs : List V) (bs : List Bytes) (w : W)
      → Encodes codec type_of vs bs
      → decode_args {W = W} codec (map type_of vs) bs w ≡ next vs w
  unfolding decode_args ◌>>=◌
  decode_args-Encodes [] [] w h = refl
  decode_args-Encodes (v ∷ vs) (b ∷ bs) w h = ground (arith, h.0, decode_args-Encodes vs bs w h.1)
  decode_args-Encodes [] (b ∷ bs) w h = absurd h
  decode_args-Encodes (v ∷ vs) [] w h = absurd h

  handle_request-Encodes :
      (h : Handler T V W) (req : Request) (vs : List V) (w : W)
      → h.args ≡ map type_of vs
      → Encodes codec type_of vs req.args
      → handle_request codec h req w ≡ (call (h.f vs) >>= λ rets. answer codec h.ret rets) w
  unfolding handle_request ◌>>=◌
  handle_request-Encodes h req vs w e sent = ground (
    arith,
    e,
    Encodes-count codec type_of vs req.args sent,
    decode_args-Encodes vs req.args w sent,
  )

  pub request-Encodes :
      (handlers : List (Bytes × Handler T V W)) (h : Handler T V W) (req : Request) (vs : List V)
      (w : W)
      → find_handler req.name handlers ≡ some h
      → h.args ≡ map type_of vs
      → Encodes codec type_of vs req.args
      → request codec handlers req w ≡ (call (h.f vs) >>= λ rets. answer codec h.ret rets) w
  unfolding request ◌>>=◌
  request-Encodes handlers h req vs w f e sent =
      rw (f, request) (handle_request-Encodes h req vs w e sent)

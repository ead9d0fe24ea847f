-- ===== src/Client/Report.antt =====
-- The client's methods, over a network that brings each call to the server.
use dropbox_for_ctf.Base.{
  ℕ, ◌≡◌, refl, ap, ◌∙◌, arith, true, some, List, [], ◌∷◌, ◌++◌, if◌then◌else◌,
}
use dropbox_for_ctf.Text.{Bytes, lit, str_eq}
use dropbox_for_ctf.Go.{Outcome, next, exit, Body, ◌>>=◌, ◌>>◌, call, pure}
use dropbox_for_ctf.Go.Step.{call-bind_next}
use dropbox_for_ctf.Store.{Host, World}
use dropbox_for_ctf.Rpc.Dispatch.{Codec}
use dropbox_for_ctf.Rpc.Remote.{Network, remote_call}
use dropbox_for_ctf.Server.Handlers.{Request, Reply, serve}
use dropbox_for_ctf.Server.Methods.{GoType, Value, type_of}
use dropbox_for_ctf.Server.Methods.Table.{method_of, arguments_of, value_of}
use dropbox_for_ctf.Server.Methods.Call.{IsFaithful, IsServing, remote_call_serves}
use dropbox_for_ctf.Client.{
  Attempt, done, failed, plain, Client, print, over_link, call_server, check_session, check_reply,
}

-- The client once the server is left in `v`.
abbrev pub after : {W : Type 0} → Client W → W → Client W
after c v = record c { link = record { connected = true; world = v } }

-- What a method ends with for the error text of a reply, empty for a success with the result `a`.
abbrev pub verdict :
    {W R A : Type 0} → (Bytes → Bytes) → A → Bytes → Client W → Outcome (Client W) R (Attempt A)
verdict errorf a [] c = next (done a) c
verdict errorf a (b ∷ bs) c =
    if str_eq (b ∷ bs) (lit "reauth")
    then exit
        (record c { stdout = c.stdout ++ lit "Your session has expired. Please log in again.\n" })
    else next (failed (plain (errorf (b ∷ bs)))) c

check_reply-verdict :
    {W R A : Type 0} (errorf : Bytes → Bytes) (a : A) (text : Bytes) (c : Client W)
    → call {R = R} (check_reply errorf text >> pure (done a)) c ≡ verdict errorf a text c
unfolding check_reply check_session print ◌>>=◌
check_reply-verdict errorf a [] c = refl
check_reply-verdict errorf a (b ∷ bs) c = ground arith

-- A call of the server, and what is made of its reply.
pub asked :
    {W R A V : Type 0} (errorf : Bytes → Bytes) (m : Body (Client W) (Attempt A) V)
    (text : V → Bytes) (result : V → A) (c d : Client W) {a : V}
    → m c ≡ next a d
    → call {R = R} (m >>= λ v. check_reply errorf (text v) >> pure (done (result v))) c
      ≡ verdict errorf (result a) (text a) d
asked errorf m text result c d {a} e =
    call-bind_next m (λ v. check_reply errorf (text v) >> pure (done (result v))) e
    ∙ check_reply-verdict errorf (result a) (text a) d

module _ {S : Type 0} (host : Host S) (fuel : ℕ) (codec : Codec GoType Value)
    (faithful : IsFaithful codec) (network : Network (World S))
    (serving : IsServing host fuel codec network) where
  pub call_server-serves :
      {A : Type 0} (r : Request) (reply : Reply) (vs : List Value) (c : Client (World S))
      {v : World S}
      → vs ≡ arguments_of r
      → serve host fuel r c.link.world ≡ next reply v
      → call_server {A = A} network codec (method_of r) (type_of (value_of reply)) vs c
        ≡ next (some (value_of reply)) (after c v)
  unfolding call_server over_link ◌>>=◌
  call_server-serves r reply vs c {v} e served = ground (
    arith,
    ap (λ xs. remote_call network codec (method_of r) (some (type_of (value_of reply))) xs c.link) e
        ∙ remote_call_serves host fuel codec faithful network serving r reply c.link served,
  )

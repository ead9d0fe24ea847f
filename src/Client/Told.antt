-- ===== src/Client/Told.antt =====
-- The six methods whose reply is a text.
use dropbox_for_ctf.Base.{ℕ, ◌≡◌, refl, List, ◌∷◌, ◌++◌}
use dropbox_for_ctf.Text.{Bytes}
use dropbox_for_ctf.Go.{next, Func, ◌>>=◌, call}
use dropbox_for_ctf.Store.{Host, World}
use dropbox_for_ctf.Rpc.Dispatch.{Codec}
use dropbox_for_ctf.Rpc.Remote.{Network}
use dropbox_for_ctf.Server.Handlers.{
  Command, chperm, share, unshare, upload, mkdir, remove_file, Request, in_session, message, serve,
}
use dropbox_for_ctf.Server.Methods.{GoType, Value, string_type}
use dropbox_for_ctf.Server.Methods.Table.{method_of, arguments_of, value_of}
use dropbox_for_ctf.Server.Methods.Call.{IsFaithful, IsServing}
use dropbox_for_ctf.Client.{Attempt, Client, call_server, string_of}
use dropbox_for_ctf.Client.Methods.{
  tell, tell_of_path, chperm_remote, share_remote, unshare_remote, upload_remote, mkdir_remote,
  remove_remote,
}
use dropbox_for_ctf.Client.Report.{after, verdict, asked, call_server-serves}

-- The methods of this kind: the command each is called with, and the request it makes from the
-- directory `dir`. For an empty path the last two make none.
pub data IsTold (dir : Bytes) : Command → Command → Type 0 where
  chperm_told : {p v n : Bytes} → IsTold dir (chperm p v n) (chperm (dir ++ p) v n)
  share_told : {p v n : Bytes} → IsTold dir (share p v n) (share (dir ++ p) v n)
  unshare_told : {p v : Bytes} → IsTold dir (unshare p v) (unshare (dir ++ p) v)
  upload_told : {p b : Bytes} → IsTold dir (upload p b) (upload (dir ++ p) b)
  mkdir_told : {x : ℕ} {p : Bytes} → IsTold dir (mkdir (x ∷ p)) (mkdir (dir ++ x ∷ p))
  remove_told : {x : ℕ} {p : Bytes} → IsTold dir (remove_file (x ∷ p)) (remove_file (dir ++ x ∷ p))

module _ {W : Type 0} (network : Network W) (codec : Codec GoType Value)
    (errorf : Bytes → Bytes) where
  -- The client's method for a command.
  unfoldable pub told_method :
      {dir : Bytes} {k r : Command} → IsTold dir k r → Func (Client W) (Attempt (Unit {0}))
  told_method (chperm_told {p} {v} {n}) = chperm_remote network codec errorf p v n
  told_method (share_told {p} {v} {n}) = share_remote network codec errorf p v n
  told_method (unshare_told {p} {v}) = unshare_remote network codec errorf p v
  told_method (upload_told {p} {b}) = upload_remote network codec errorf p b
  told_method (mkdir_told {x} {p}) = mkdir_remote network codec errorf (x ∷ p)
  told_method (remove_told {x} {p}) = remove_remote network codec errorf (x ∷ p)

module _ {S : Type 0} (host : Host S) (fuel : ℕ) (codec : Codec GoType Value)
    (faithful : IsFaithful codec) (network : Network (World S))
    (serving : IsServing host fuel codec network) (errorf : Bytes → Bytes) where
  tell-verdict :
      {R : Type 0} (r : Request) (text : Bytes) (c : Client (World S)) {v : World S}
      (arguments : Client (World S) → List Value)
      → arguments c ≡ arguments_of r
      → serve host fuel r c.link.world ≡ next (message text) v
      → call {R = R} (tell network codec errorf (method_of r) arguments) c
        ≡ verdict errorf tt text (after c v)
  unfolding tell value_of ◌>>=◌
  tell-verdict r text c {v} arguments e served =
      asked errorf (call_server network codec (method_of r) string_type (arguments c)) string_of
        (λ v. tt) c (after c v)
        (call_server-serves host fuel codec faithful network serving r (message text) (arguments c)
          c e served)

  -- What the user of one of these methods is told is what the server replied: where the server ends
  -- the request with a text, the method succeeds if it is empty, ends the client if it is `reauth`, and
  -- otherwise returns it as an error that is not fatal; the server is left in the state that it ended in.
  pub method_tells :
      (k r : Command) (text : Bytes) (c : Client (World S)) {v : World S}
      (told : IsTold c.currdir k r)
      → serve host fuel (in_session c.user c.sessionid r) c.link.world ≡ next (message text) v
      → call {R = Attempt (Unit {0})} (told_method network codec errorf told) c
        ≡ verdict errorf tt text (after c v)
  unfolding told_method chperm_remote share_remote unshare_remote upload_remote mkdir_remote
      remove_remote tell_of_path method_of arguments_of
  method_tells k r text c chperm_told served =
      tell-verdict (in_session c.user c.sessionid r) text c _ refl served
  method_tells k r text c share_told served =
      tell-verdict (in_session c.user c.sessionid r) text c _ refl served
  method_tells k r text c unshare_told served =
      tell-verdict (in_session c.user c.sessionid r) text c _ refl served
  method_tells k r text c upload_told served =
      tell-verdict (in_session c.user c.sessionid r) text c _ refl served
  method_tells k r text c mkdir_told served =
      tell-verdict (in_session c.user c.sessionid r) text c _ refl served
  method_tells k r text c remove_told served =
      tell-verdict (in_session c.user c.sessionid r) text c _ refl served

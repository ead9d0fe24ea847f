-- ===== src/Client/Transfer.antt =====
-- A file from one client to the server and back.
use dropbox_for_ctf.Base.{ℕ, ◌≡◌, refl, ap, ◌∙◌, [], ◌++◌}
use dropbox_for_ctf.Text.{Bytes, lit, itoa}
use dropbox_for_ctf.FilePath.{ok}
use dropbox_for_ctf.Go.{next, ◌>>=◌, call, pure}
use dropbox_for_ctf.Go.Step.{bind-next, call-next}
use dropbox_for_ctf.Store.{Host, World, quiet}
use dropbox_for_ctf.Rpc.Dispatch.{Codec}
use dropbox_for_ctf.Rpc.Remote.{Network}
use dropbox_for_ctf.Server.Account.{abspath}
use dropbox_for_ctf.Server.Files.{DownloadReturn, upload_handler, download_handler}
use dropbox_for_ctf.Server.Session.{HasSession}
use dropbox_for_ctf.Server.Upload.{IsLawful, holders, IsVacant, download-upload_new, stored_new}
use dropbox_for_ctf.Server.Handlers.{
  upload, download, in_session, message, contents, run_command, serve,
}
use dropbox_for_ctf.Server.Methods.{GoType, Value, download_return_type}
use dropbox_for_ctf.Server.Methods.Table.{method_of, arguments_of, value_of}
use dropbox_for_ctf.Server.Methods.Call.{IsFaithful, IsServing}
use dropbox_for_ctf.Client.{Attempt, done, Client, call_server}
use dropbox_for_ctf.Client.Methods.{upload_remote, download_remote, download_of}
use dropbox_for_ctf.Client.Report.{after, verdict, asked, call_server-serves}
use dropbox_for_ctf.Client.Told.{upload_told, told_method, method_tells}

module _ {S : Type 0} (host : Host S) (fuel : ℕ) where
  serve-upload :
      (u k p body r : Bytes) (w : World S) {v : World S}
      → upload_handler host p u body k w ≡ next r v
      → serve host fuel (in_session u k (upload p body)) w ≡ next (message r) v
  unfolding serve run_command pure
  serve-upload u k p body r w e =
      bind-next (call (upload_handler host p u body k)) _
        (call-next (upload_handler host p u body k) e)

  serve-download :
      (u k p : Bytes) (r : DownloadReturn) (w : World S) {v : World S}
      → download_handler host p u k w ≡ next r v
      → serve host fuel (in_session u k (download p)) w ≡ next (contents r) v
  unfolding serve run_command pure
  serve-download u k p r w e =
      bind-next (call (download_handler host p u k)) _ (call-next (download_handler host p u k) e)

module _ {S : Type 0} (host : Host S) (fuel : ℕ) (codec : Codec GoType Value)
    (faithful : IsFaithful codec) (network : Network (World S))
    (serving : IsServing host fuel codec network) (errorf : Bytes → Bytes) where
  download-verdict :
      {R : Type 0} (p : Bytes) (r : DownloadReturn) (c : Client (World S)) {v : World S}
      → serve host fuel (in_session c.user c.sessionid (download (c.currdir ++ p))) c.link.world
        ≡ next (contents r) v
      → call {R = R} (download_remote network codec errorf p) c
        ≡ verdict errorf r.body r.err_text (after c v)
  unfolding download_remote value_of method_of arguments_of ◌>>=◌
  download-verdict p r c {v} served =
      let q = in_session c.user c.sessionid (download (c.currdir ++ p)) in
      asked errorf (call_server network codec (method_of q) download_return_type (arguments_of q))
        (λ x. (download_of x).err_text) (λ x. (download_of x).body) c (after c v)
        (call_server-serves host fuel codec faithful network serving q (contents r) (arguments_of q)
          c refl served)

  -- A body that no stored file has goes from the client to a free place below its directory and comes back:
  -- with a database that does not fail and a session that lasts, `Upload` succeeds, and `Download` of the
  -- same path then gives that body.
  pub download-upload_remote :
      IsLawful host
      → (p place stored body : Bytes) (c : Client (World S)) (w : World S) {s t : S}
      → c.link.world ≡ quiet w
      → IsVacant host c.user c.sessionid (c.currdir ++ p) place w
      → holders host (host.digest body) w ≡ 0
      → abspath host (lit "./filestore/file" ++ itoa w.filecount) w.os ≡ ok stored
      → host.write_file stored body w.os ≡ (ok tt, s)
      → host.symlink stored place s ≡ (ok tt, t)
      → HasSession host c.user c.sessionid (stored_new host body w t)
      → (call {R = Attempt (Unit {0})} (upload_remote network codec errorf p body) c
          ≡ next (done tt) (after c (stored_new host body w t)))
        × (call {R = Attempt Bytes}
              (download_remote network codec errorf p)
              (after c (stored_new host body w t))
            ≡ next (done body) (after c (stored_new host body w t)))
  unfolding told_method
  download-upload_remote law p place stored body c w {s} {t} start v absent e f g session =
      let (up, down) =
        download-upload_new host law c.user c.sessionid (c.currdir ++ p) place stored body w v
          absent e f g session in
      let served = serve-upload host fuel c.user c.sessionid (c.currdir ++ p) body [] _ up in
      (
        method_tells host fuel codec faithful network serving errorf (upload p body) _ [] c
            upload_told
            (ap (serve host fuel (in_session c.user c.sessionid (upload (c.currdir ++ p) body)))
                start
              ∙ served),
        download-verdict p (record { body = body; err_text = [] })
            (after c (stored_new host body w t))
            (serve-download host fuel c.user c.sessionid (c.currdir ++ p) _ _ down),
      )

-- ===== src/Client/Copy.antt =====
-- The client under its command line (client/client.go: main, lib/support/client/cli.go), and a file
-- that is copied over the server.
use dropbox_for_ctf.Base.{ℕ, Option, ◌≡◌, ◌∙◌, arith, [], ◌∷◌, ◌++◌}
use dropbox_for_ctf.Text.{Bytes, lit, str_eq, itoa}
use dropbox_for_ctf.FilePath.{ok}
use dropbox_for_ctf.Go.{next, Func, ◌>>=◌, ◌>>◌, call}
use dropbox_for_ctf.Go.Step.{bind-next}
use dropbox_for_ctf.Store.{Host, World, quiet}
use dropbox_for_ctf.Rpc.Dispatch.{Codec}
use dropbox_for_ctf.Rpc.Remote.{Network}
use dropbox_for_ctf.Server.Account.{abspath}
use dropbox_for_ctf.Server.Session.{HasSession}
use dropbox_for_ctf.Server.Upload.{IsLawful, holders, IsVacant, stored_new}
use dropbox_for_ctf.Server.Methods.{GoType, Value}
use dropbox_for_ctf.Server.Methods.Call.{IsFaithful, IsServing}
use dropbox_for_ctf.Client.{Failure, Attempt, done, Client}
use dropbox_for_ctf.Client.Methods.{
  upload_remote, download_remote, remove_remote, list_remote, mkdir_remote, pwd_remote, cd_remote,
  share_remote, unshare_remote, chperm_remote,
}
use dropbox_for_ctf.Client.Report.{after}
use dropbox_for_ctf.Client.Transfer.{download-upload_remote}
use dropbox_for_ctf.Client.Shell.{Api, Local, Shell, ask, attempt, settle, on_disk}
use dropbox_for_ctf.Client.Shell.Lines.{upload_line, download_line, save}
use dropbox_for_ctf.Client.Shell.Loop.{obey}

-- `Client` as an implementation of the interface.
abbrev pub client_api :
    {W : Type 0} → Network W → Codec GoType Value → (Bytes → Bytes) → Api (Client W)
client_api network codec errorf = record {
  upload = upload_remote network codec errorf;
  download = download_remote network codec errorf;
  remove = remove_remote network codec errorf;
  list = list_remote network codec errorf;
  mkdir = mkdir_remote network codec errorf;
  pwd = pwd_remote network codec errorf;
  cd = cd_remote network codec errorf;
  share = share_remote network codec errorf;
  unshare = unshare_remote network codec errorf;
  chperm = chperm_remote network codec errorf;
}

module _ {X D : Type 0} where
  pub ask-call :
      {A R : Type 0} (m : Func X A) (s : Shell X D) {a : A} {x : X}
      → call {R = A} m s.client ≡ next a x
      → ask {R = R} m s ≡ next a (record s { client = x })
  unfolding ask call
  ask-call m s e = ground (arith, e)

module _ {X D : Type 0} (api : Api X) (files : Local D) where
  obey-upload :
      (here there body : Bytes) (s : Shell X D) {x : X}
      → files.read_file here s.disk ≡ ok body
      → call {R = Attempt (Unit {0})} (api.upload there body) s.client ≡ next (done tt) x
      → obey api files (lit "upload") (here ∷ there ∷ []) s ≡ next tt (record s { client = x })
  unfolding obey upload_line attempt settle lit str_eq ◌>>=◌
  obey-upload here there body s {x} e f =
      ground (arith, e, ask-call {R = Option Failure} (api.upload there body) s f)

  obey-download :
      (there here body : Bytes) (s : Shell X D) {x : X} {d : D}
      → call {R = Attempt Bytes} (api.download there) s.client ≡ next (done body) x
      → files.write_file here body s.disk ≡ (ok tt, d)
      → obey api files (lit "download") (there ∷ here ∷ []) s
        ≡ next tt (record s { client = x; disk = d })
  unfolding obey download_line attempt settle save on_disk lit str_eq ◌>>=◌
  obey-download there here body s {x} {d} e f =
      ground (arith, f, ask-call {R = Option Failure} (api.download there) s e)

module _ {S D : Type 0} (host : Host S) (fuel : ℕ) (codec : Codec GoType Value)
    (faithful : IsFaithful codec) (network : Network (World S))
    (serving : IsServing host fuel codec network) (errorf : Bytes → Bytes) (files : Local D) where
  -- The command `upload` followed by `download` copies a file of the user over the server: with a database that
  -- does not fail, a session that lasts, a body that no stored file has and a free place, the local copy is
  -- written with the bytes that were read, and nothing is printed.
  pub download-upload_copies :
      IsLawful host
      → (here there copy place stored body : Bytes) (s : Shell (Client (World S)) D) (w : World S)
        {x t : S} {d : D}
      → s.client.link.world ≡ quiet w
      → IsVacant host s.client.user s.client.sessionid (s.client.currdir ++ there) place w
      → holders host (host.digest body) w ≡ 0
      → abspath host (lit "./filestore/file" ++ itoa w.filecount) w.os ≡ ok stored
      → host.write_file stored body w.os ≡ (ok tt, x)
      → host.symlink stored place x ≡ (ok tt, t)
      → HasSession host s.client.user s.client.sessionid (stored_new host body w t)
      → files.read_file here s.disk ≡ ok body
      → files.write_file copy body s.disk ≡ (ok tt, d)
      → (obey (client_api network codec errorf) files (lit "upload") (here ∷ there ∷ [])
            >> obey (client_api network codec errorf) files (lit "download") (there ∷ copy ∷ []))
          s
        ≡ next tt (record s { client = after s.client (stored_new host body w t); disk = d })
  download-upload_copies law here there copy place stored body s w {x} {t} start v absent e f g
        session read wrote =
      let api = client_api network codec errorf in
      let (up, down) =
        download-upload_remote host fuel codec faithful network serving errorf law there place
          stored body s.client w start v absent e f g session in
      bind-next (obey api files (lit "upload") (here ∷ there ∷ [])) _
        (obey-upload api files here there body s read up)
      ∙ obey-download api files there copy body
          (record s { client = after s.client (stored_new host body w t) }) down wrote

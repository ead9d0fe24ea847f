-- ===== src/Client/Typed.antt =====
-- Lines that a user types: a file that is copied over the server.
use dropbox_for_ctf.Base.{ℕ, ◌≡◌, refl, [], ◌∷◌, ◌++◌}
use dropbox_for_ctf.Text.{Bytes, lit, itoa}
use dropbox_for_ctf.FilePath.{ok}
use dropbox_for_ctf.Go.{next, ◌>>◌}
use dropbox_for_ctf.Store.{Host, World, quiet}
use dropbox_for_ctf.Rpc.Dispatch.{Codec}
use dropbox_for_ctf.Rpc.Remote.{Network}
use dropbox_for_ctf.Server.Account.{abspath}
use dropbox_for_ctf.Server.Session.{HasSession}
use dropbox_for_ctf.Server.Upload.{IsLawful, holders, IsVacant, stored_new}
use dropbox_for_ctf.Server.Methods.{GoType, Value}
use dropbox_for_ctf.Server.Methods.Call.{IsFaithful, IsServing}
use dropbox_for_ctf.Client.{Client}
use dropbox_for_ctf.Client.Report.{after}
use dropbox_for_ctf.Client.Copy.{client_api, download-upload_copies}
use dropbox_for_ctf.Client.Shell.{Local, Shell, fields}
use dropbox_for_ctf.Client.Shell.Loop.{obey_line}
use dropbox_for_ctf.Client.Shell.Words.{IsWord, typed, fields-typed}

-- The two commands, as lines.
abbrev pub upload_typed : Bytes → Bytes → Bytes
upload_typed here there = typed (lit "upload" ∷ here ∷ there ∷ [])

abbrev pub download_typed : Bytes → Bytes → Bytes
download_typed there copy = typed (lit "download" ∷ there ∷ copy ∷ [])

upload-IsWord : IsWord (lit "upload")
unfolding lit
upload-IsWord = (refl, (refl, (refl, (refl, (refl, (refl, tt))))))

download-IsWord : IsWord (lit "download")
unfolding lit
download-IsWord = (refl, (refl, (refl, (refl, (refl, (refl, (refl, (refl, tt))))))))

module _ {S D : Type 0} (host : Host S) (fuel : ℕ) (codec : Codec GoType Value)
    (faithful : IsFaithful codec) (network : Network (World S))
    (serving : IsServing host fuel codec network) (errorf : Bytes → Bytes) (files : Local D) where
  -- A user who types the line `upload here there` and then the line `download there copy` copies a file over
  -- the server: with paths without blanks, a database that does not fail, a session that lasts, a body that no
  -- stored file has and a free place, the local copy is written with the bytes that were read, and nothing is
  -- printed.
  pub typed_copies :
      IsLawful host
      → (here there copy place stored body : Bytes) (s : Shell (Client (World S)) D) (w : World S)
        {x t : S} {d : D}
      → IsWord here
      → IsWord there
      → IsWord copy
      → s.client.link.world ≡ quiet w
      → IsVacant host s.client.user s.client.sessionid (s.client.currdir ++ there) place w
      → holders host (host.digest body) w ≡ 0
      → abspath host (lit "./filestore/file" ++ itoa w.filecount) w.os ≡ ok stored
      → host.write_file stored body w.os ≡ (ok tt, x)
      → host.symlink stored place x ≡ (ok tt, t)
      → HasSession host s.client.user s.client.sessionid (stored_new host body w t)
      → files.read_file here s.disk ≡ ok body
      → files.write_file copy body s.disk ≡ (ok tt, d)
      → (obey_line (client_api network codec errorf) files (fields (upload_typed here there))
            >> obey_line
                (client_api network codec errorf)
                files
                (fields (download_typed there copy)))
          s
        ≡ next tt (record s { client = after s.client (stored_new host body w t); disk = d })
  unfolding obey_line
  typed_copies law here there copy place stored body s w wh wt wc start v absent e f g session read
        wrote =
      rw
        (
          fields-typed (lit "upload" ∷ here ∷ there ∷ []) (upload-IsWord, (wh, (wt, tt))),
          fields-typed (lit "download" ∷ there ∷ copy ∷ []) (download-IsWord, (wt, (wc, tt))),
        )
        (download-upload_copies host fuel codec faithful network serving errorf files law here there
          copy place stored body s w start v absent e f g session read wrote)

-- ===== src/Server/Tests/Copy.antt =====
-- A file that is copied over a small server, and the end of a client's command line.
use dropbox_for_ctf.Base.{◌≡◌, refl, [], ◌∷◌}
use dropbox_for_ctf.Text.{Bytes, lit, str_eq, split, join, itoa}
use dropbox_for_ctf.FilePath.{clean, abs, ok}
use dropbox_for_ctf.Go.{next, ◌>>◌}
use dropbox_for_ctf.Store.{World}
use dropbox_for_ctf.Server.Account.{abspath}
use dropbox_for_ctf.Sample.{Disk, world, memory}
use dropbox_for_ctf.Sample.Lawful.{memory-IsLawful}
use dropbox_for_ctf.Server.Upload.{stored_new}
use dropbox_for_ctf.Server.Tests.Uploads.{alice_session, vacant, written, linked}
use dropbox_for_ctf.Client.{Client}
use dropbox_for_ctf.Client.Report.{after}
use dropbox_for_ctf.Client.Copy.{client_api}
use dropbox_for_ctf.Client.Typed.{upload_typed, download_typed, typed_copies}
use dropbox_for_ctf.Client.Shell.{Api, Local, Shell, fields}
use dropbox_for_ctf.Client.Shell.Loop.{obey_line}
use dropbox_for_ctf.Sample.Wire.{wire, wire-IsFaithful, near, near-IsServing, client}

-- A disk of one file, under every name.
abbrev one_file : Local Bytes
one_file = record { read_file = λ p d. ok d; write_file = λ p b d. (ok tt, b) }

abbrev shell : Shell (Client (World Disk)) Bytes
shell = record { client = client; disk = 5 ∷ []; stdout = []; stderr = [] }

abbrev near_api : Api (Client (World Disk))
near_api = client_api (near memory 3) wire (λ text. text)

typed_copies_example :
    (obey_line near_api one_file (fields (upload_typed (lit "old") (lit "new")))
        >> obey_line near_api one_file (fields (download_typed (lit "new") (lit "copy"))))
      shell
    ≡ next tt (record shell {
      client = after client (stored_new memory (5 ∷ []) world linked);
      disk = 5 ∷ [];
    })
unfolding memory lit str_eq abspath abs clean split join itoa
typed_copies_example =
    typed_copies memory 3 wire wire-IsFaithful (near memory 3) (near-IsServing memory 3)
      (λ text. text) one_file memory-IsLawful (lit "old") (lit "new") (lit "copy")
      (lit "/srv/userfs/alice/new") (lit "/srv/filestore/file1") (5 ∷ []) shell world {x = written}
      {t = linked} {d = 5 ∷ []} (refl, (refl, (refl, tt))) (refl, (refl, (refl, tt)))
      (refl, (refl, (refl, (refl, tt)))) refl vacant refl refl refl refl alice_session refl refl

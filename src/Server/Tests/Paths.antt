-- ===== src/Server/Tests/Paths.antt =====
-- The theorems on paths at concrete paths.
use dropbox_for_ctf.Base.{◌≡◌, refl, ◌↔◌, true, ◌++◌}
use dropbox_for_ctf.Text.{Bytes, lit, split, join, has_prefix, contains_slash}
use dropbox_for_ctf.FilePath.{err, element, clean, abs, is_abs}
use dropbox_for_ctf.Store.{Host}
use dropbox_for_ctf.Server.Account.{user_root, check_path, abspath}
use dropbox_for_ctf.Server.Paths.{check_path_exact, check_path_sibling}
use dropbox_for_ctf.Sample.{Disk, disk, memory, root}

abbrev bob : Bytes
bob = lit "bob"

abbrev notes : Bytes
notes = lit "/srv/userfs/alice/notes"

check_path_sibling_example : check_path memory (user_root (bob ++ lit "by")) bob disk ≡ true
unfolding lit element contains_slash
check_path_sibling_example =
    check_path_sibling memory root disk (unfold memory in refl) (unfold lit is_abs in refl) bob
      (lit "by") refl refl refl refl

check_path_exact_example :
    (check_path memory (lit "./userfs/alice/notes") bob disk ≡ true)
    ↔ ((x : Bytes) × (notes ≡ lit "/srv/userfs/bob" ++ x))
unfolding memory lit abspath abs clean split join is_abs has_prefix
check_path_exact_example =
    check_path_exact memory root disk refl refl (lit "./userfs/alice/notes") bob {p = notes}
      {r = lit "/srv/userfs/bob"} refl refl

-- The sample with a working directory that is gone.
adrift : Host Disk
unfolding memory
adrift = record memory { getwd = λ d. err (lit "getwd failed") }

-- ===== src/Server/Lend.antt =====
-- A file that is lent for reading: shareHandler, then the sharee's downloads and uploads.
use dropbox_for_ctf.Base.{
  ℕ, suc, ◌≡◌, refl, true, false, none, List, [], ◌∷◌, ◌++◌, arith, count_by, first_by, Bool,
}
use dropbox_for_ctf.Text.{Bytes, lit, slash, str_eq}
use dropbox_for_ctf.Text.Laws.{str_eq_refl}
use dropbox_for_ctf.FilePath.{ok, base}
use dropbox_for_ctf.Go.{next}
use dropbox_for_ctf.Store.{Host, World, ShareRow, quiet, is_not_exist}
use dropbox_for_ctf.Server.Files.{upload_handler, download_handler}
use dropbox_for_ctf.Server.Sharing.{perm_of, candidate, free_name, share_handler}
use dropbox_for_ctf.Server.Permission.{Reaches, is_grant, upload_denied}
use dropbox_for_ctf.Server.Share.{IsSharing, new_share, shared_with, share_named, first_by-append}
use dropbox_for_ctf.Server.Upload.{IsLawful, download_link}

reading_only : perm_of (lit "r") ≡ 0
unfolding lit str_eq
reading_only = refl

first_by-append_none :
    (p : ShareRow → Bool) (rows : List ShareRow) (r : ShareRow)
    → first_by p rows ≡ none
    → p r ≡ false
    → first_by p (rows ++ r ∷ []) ≡ none
first_by-append_none p [] r absent miss = ground (arith, miss)
first_by-append_none p (x ∷ rows) r absent miss =
    ground (arith, absent, first_by-append_none p rows r, miss)

module _ {S : Type 0} (host : Host S) where
  free_at_once :
      (inbox file : Bytes) (fuel : ℕ) (w : World S)
      → is_not_exist (host.stat (inbox ++ slash ∷ file) w.os) ≡ true
      → free_name host {R = Bytes} inbox file (suc fuel) 0 w ≡ next file w
  unfolding free_name candidate
  free_at_once inbox file fuel w free = ground (arith, free)

  -- What is relied on of the sharee's place: the file's own name is free there, and no row has it yet.
  pub record IsFreePlace (v place link : Bytes) (w : World S) : Type 0 where
    pub free : is_not_exist (host.stat link w.os) ≡ true
    pub ungranted : count_by (is_grant link v) w.shares ≡ 0
    pub unshared : first_by (λ r. str_eq r.origpath link) w.shares ≡ none
    pub elsewhere : str_eq place link ≡ false

  -- A file that a user shares with the permission "r", under a name that is free, can be downloaded by the
  -- sharee from the new link, as long as the sharee holds a session, and the download gives what the owner's
  -- link leads to. The sharee cannot upload over it.
  pub lent_read_only :
      IsLawful host
      → (u c v d path place inbox target reading body other : Bytes) (fuel : ℕ) (w : World S)
        {s : S}
      → let link : Bytes = inbox ++ slash ∷ base place in
        let lent : World S =
          shared_with host (new_share host u v place inbox (base place) (lit "r")) w s in
        IsSharing host u c v path (lit "r") place inbox w
        → IsFreePlace v place link w
        → host.lstat place w.os ≡ ok true
        → host.readlink place w.os ≡ ok target
        → host.read_file target w.os ≡ ok body
        → host.symlink target link w.os ≡ (ok tt, s)
        → Reaches host v d reading link lent
        → (share_handler host (suc fuel) path v (lit "r") u c (quiet w) ≡ next [] lent)
          × (download_handler host reading v d lent
              ≡ next (record { body = body; err_text = [] }) lent)
          × (upload_handler host reading v other d lent ≡ next (lit "Permission Denied") lent)
  lent_read_only law u c v d path place inbox target reading body other fuel w {s} k vacant is_link
        leads holds linked reach =
      let link : Bytes = inbox ++ slash ∷ base place in
      let row = new_share host u v place inbox (base place) (lit "r") in
      let lent = shared_with host row w s in
      let granted : is_grant link v row ≡ true = rw (str_eq_refl link, str_eq_refl v) refl in
      (
        share_named host u c v path (lit "r") place inbox (base place) target (suc fuel) w k
            (free_at_once inbox (base place) fuel (quiet w) vacant.free) is_link leads linked,
        download_link host v d reading link target body lent reach
            (law.lstat-symlink target link w.os s linked)
            (law.readlink-symlink target link w.os s linked)
            (law.read-symlink target link target body w.os s linked holds),
        upload_denied host v d reading link other row lent reach
            (first_by-append_none _ w.shares row vacant.unshared vacant.elsewhere)
            (first_by-append _ w.shares row vacant.ungranted granted) reading_only,
      )

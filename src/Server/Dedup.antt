-- ===== src/Server/Dedup.antt =====
-- An upload of a body that is stored already, and the removal of the uploaded file.
use dropbox_for_ctf.Base.{
  ℕ, ◌+◌, ◌≤◌, ◌≡◌, refl, ap, ◌∙◌, true, false, none, some, List, [], ◌∷◌, ◌++◌, arith, count_by,
  first_by, update_by, first_by-uncounted, update_by-uncounted, Bool-cases, inl, inr, last_or,
}
use mathlib.Core.Path.{subst}
use dropbox_for_ctf.Text.{Bytes, lit, str_eq, split}
use dropbox_for_ctf.Text.Laws.{eq_of_str_eq, str_eq_refl}
use dropbox_for_ctf.FilePath.{ok, clean, is_abs}
use dropbox_for_ctf.Go.{next, ◌>>=◌}
use dropbox_for_ctf.Store.{
  Host, World, FileRow, is_not_exist, query_row, found, execute, system, quiet,
}
use dropbox_for_ctf.Server.Account.{abspath}
use dropbox_for_ctf.Server.Files.{abs_or, release, remove, is_shared_file, upload_handler}
use dropbox_for_ctf.Server.Handlers.{remove_handler}
use dropbox_for_ctf.Server.Session.{HasSession, check_cookie-accepts}
use dropbox_for_ctf.Server.Invariant.Sound.{IsSound}
use dropbox_for_ctf.Server.Paths.{abspath-clean}
use dropbox_for_ctf.Server.Upload.{IsLawful, IsVacant, stored_again, upload_again, Reaches-later}
use dropbox_for_ctf.Server.Permission.{Reaches}
use dropbox_for_ctf.Server.Invariant.Files.{IsFiles, set_owners}

-- The row of a digest, with one owner more, in a sound table.
module _ (h : Bytes) where
  abbrev more : FileRow → List FileRow → List FileRow
  more r = update_by (λ x. str_eq x.filehash h) (set_owners (r.numowners + 1))

  abbrev fewer : FileRow → List FileRow → List FileRow
  fewer r = update_by (λ x. str_eq x.filename r.filename) (set_owners r.numowners)

  more-head :
      (c : ℕ) (r : FileRow) (fs : List FileRow)
      → IsFiles c (r ∷ fs)
      → str_eq r.filehash h ≡ true
      → (fewer r (more r (r ∷ fs)) ≡ r ∷ fs)
        × (first_by (λ x. str_eq x.filename r.filename) (more r (r ∷ fs))
            ≡ some (set_owners (r.numowners + 1) r))
  more-head c r fs v hit =
      let rest : count_by (λ (y : FileRow). str_eq y.filehash h) fs ≡ 0 =
        subst (λ z. count_by (λ (y : FileRow). str_eq y.filehash z) fs ≡ 0)
          (eq_of_str_eq r.filehash h hit) v.3 in
      let same =
        update_by-uncounted (λ (y : FileRow). str_eq y.filehash h) (set_owners (r.numowners + 1)) fs
          rest in
      let back =
        update_by-uncounted (λ (y : FileRow). str_eq y.filename r.filename) (set_owners r.numowners)
          fs v.2 in
      rw (hit, str_eq_refl r.filename, same, back) (refl, refl)

  other-name :
      (c : ℕ) (x r : FileRow) (fs : List FileRow)
      → IsFiles c (x ∷ fs)
      → first_by (λ y. str_eq y.filehash h) fs ≡ some r
      → str_eq x.filename r.filename ≡ false
  other-name c x r fs v e = ground (
    arith,
    first_by-uncounted (λ y. str_eq y.filehash h) (λ y. str_eq y.filename x.filename) fs {x = r} e
        v.2,
    eq_of_str_eq x.filename r.filename,
    str_eq_refl r.filename,
  )

  -- The owner that was added is taken away again, from the row of the same name.
  abbrev Undone : FileRow → List FileRow → Type 0
  Undone r fs =
      (fewer r (more r fs) ≡ fs)
      × (first_by (λ x. str_eq x.filename r.filename) (more r fs)
          ≡ some (set_owners (r.numowners + 1) r))
      × (1 ≤ r.numowners)

  more-Undone :
      (c : ℕ) (r : FileRow) (fs : List FileRow)
      → IsFiles c fs
      → first_by (λ x. str_eq x.filehash h) fs ≡ some r
      → Undone r fs
  more-Undone c r [] v e = cc e
  more-Undone c r (x ∷ fs) v e = elim (Bool-cases (str_eq x.filehash h)) [
    | inl hit ↦
        let same : x ≡ r = ground (arith, hit, e) in
        let (back, found) = more-head c x fs v hit in
        subst (λ y. Undone y (x ∷ fs)) same (back, found, v.1)
    | inr other ↦
        let deeper : first_by (λ y. str_eq y.filehash h) fs ≡ some r = ground (arith, other, e) in
        let (back, found, owned) = more-Undone c r fs v.4 deeper in
        (
          rw (other, other-name c x r fs v deeper) (ap (λ ys. x ∷ ys) back),
          rw (other, other-name c x r fs v deeper) found,
          owned,
        )
  ]

module _ {S : Type 0} (host : Host S) where
  -- A link of the user's own, to a file that others may own, too; nobody shares it.
  pub record IsLinked (u c path place stored filename : Bytes) (w : World S) : Type 0 where
    pub reach : Reaches host u c path place w
    pub cleaned : abspath host (clean path) w.os ≡ ok place
    pub there : is_not_exist (host.stat place w.os) ≡ false
    pub unowned : first_by (λ r. str_eq r.origpath place) w.shares ≡ none
    pub unlent : first_by (λ r. str_eq r.shareepath place) w.shares ≡ none
    pub is_link : host.lstat place w.os ≡ ok true
    pub leads : host.readlink place w.os ≡ ok stored
    pub named : last_or [] (split stored) ≡ filename

  remove_owned :
      (u c path place stored : Bytes) (r : FileRow) (w : World S) {x : S}
      → IsLinked u c path place stored r.filename w
      → 1 ≤ r.numowners
      → first_by (λ y. str_eq y.filename r.filename) w.files ≡ some (set_owners (r.numowners + 1) r)
      → host.remove place w.os ≡ (ok tt, x)
      → remove_handler host path u c (quiet w)
        ≡ next [] (record w {
          os = x;
          files = update_by (λ y. str_eq y.filename r.filename) (set_owners r.numowners) w.files;
          faults = [];
        })
  unfolding remove_handler remove release is_shared_file abs_or query_row found execute system ◌>>=◌
  remove_owned u c path place stored r w k owned row gone = ground (
    arith,
    check_cookie-accepts host w u c k.reach.session,
    k.reach.allowed,
    k.reach.stands,
    k.cleaned,
    k.there,
    k.unowned,
    k.unlent,
    k.is_link,
    k.leads,
    k.named,
  )

  -- A user uploads a body that is stored already to a free place, and removes the file again. The upload
  -- writes no file and adds an owner, and the removal takes that owner and the link away, and no stored
  -- file: the tables, the counter and the sessions are the ones from before.
  pub remove-upload_again :
      IsLawful host
      → (u c path place stored body dir : Bytes) (r : FileRow) (w : World S) {t x : S} → IsSound w
      → IsVacant host u c path place w
      → first_by (λ y. str_eq y.filehash (host.digest body)) w.files ≡ some r
      → abspath host (lit "./filestore/" ++ r.filename) w.os ≡ ok stored
      → last_or [] (split stored) ≡ r.filename
      → host.getwd w.os ≡ ok dir
      → is_abs dir ≡ true
      → host.symlink stored place w.os ≡ (ok tt, t)
      → HasSession host u c (stored_again host body r w t)
      → is_not_exist (host.stat place t) ≡ false
      → host.remove place t ≡ (ok tt, x)
      → (upload_handler host path u body c (quiet w)
          ≡ next (lit "End of uploadHelper") (stored_again host body r w t))
        × (remove_handler host path u c (stored_again host body r w t)
            ≡ next [] (record w { os = x; faults = [] }))
  remove-upload_again law u c path place stored body dir r w {t} {x} sound k known e named cwd
        rooted linked session there gone =
      let v = stored_again host body r w t in
      let stays = law.getwd-symlink stored place w.os t linked in
      let reach = Reaches-later host u c path place w v k.reach stays session in
      let (back, found, owned) =
        more-Undone (host.digest body) w.filecount r w.files sound.files known in
      (
        upload_again host u c path place stored body r w k known e linked,
        remove_owned u c path place stored r v
              (record {
                reach = reach;
                cleaned = abspath-clean host dir t (stays ∙ cwd) rooted path ∙ reach.stands;
                there = there;
                unowned = k.unowned;
                unlent = k.unlent;
                is_link = law.lstat-symlink stored place w.os t linked;
                leads = law.readlink-symlink stored place w.os t linked;
                named = named;
              })
              owned found gone
            ∙ ap (λ fs. next [] (record w { os = x; files = fs; faults = [] })) back,
      )

-- ===== src/Server/Removal.antt =====
-- removeHandler for a file that the user shares.
use dropbox_for_ctf.Base.{
  ◌≡◌, refl, ap, ◌∙◌, Bool, true, false, ◌&&◌, some, List, [], ◌∷◌, map, arith, select_by, first_by,
  delete_by, delete_by_comm, delete_by_absorb, Bool-cases, inl, inr,
}
use dropbox_for_ctf.Text.{Bytes, str_eq}
use dropbox_for_ctf.Text.Laws.{str_eq_refl}
use dropbox_for_ctf.FilePath.{ok, clean}
use dropbox_for_ctf.Go.{Func, next, ◌>>=◌, call}
use dropbox_for_ctf.Store.{
  Host, World, ShareRow, query, query_row, prepare, run, system, access, draw, quiet,
}
use dropbox_for_ctf.Store.{is_not_exist}
use dropbox_for_ctf.Server.Account.{abspath, check_path}
use dropbox_for_ctf.Server.Files.{abs_or, remove, is_shared_file}
use dropbox_for_ctf.Server.Handlers.{unshare_all, remove_as_sharer, remove_handler}
use dropbox_for_ctf.Server.Session.{HasSession, check_cookie-accepts}

-- The rows by which `u` shares the file at `p`, and the one of them for the sharee's link `q`.
abbrev pub is_lent : Bytes → Bytes → ShareRow → Bool
is_lent u p r = str_eq r.sharer u && str_eq r.origpath p

abbrev is_lent_at : Bytes → Bytes → Bytes → ShareRow → Bool
is_lent_at u p q r = str_eq r.sharer u && (str_eq r.origpath p && str_eq r.shareepath q)

abbrev sharee_paths : Bytes → Bytes → List ShareRow → List Bytes
sharee_paths u p rows = map (λ r. r.shareepath) (select_by (is_lent u p) rows)

-- The loop's effect on the table.
abbrev delete_each : Bytes → Bytes → List Bytes → List ShareRow → List ShareRow
delete_each u p [] rows = rows
delete_each u p (q ∷ qs) rows = delete_each u p qs (delete_by (is_lent_at u p q) rows)

delete_each-other :
    (u p : Bytes) (qs : List Bytes) (r : ShareRow) (rows : List ShareRow)
    → is_lent u p r ≡ false
    → delete_each u p qs (r ∷ rows) ≡ r ∷ delete_each u p qs rows
delete_each-other u p [] r rows other = refl
delete_each-other u p (q ∷ qs) r rows other =
    ground (arith, delete_each-other u p qs r (delete_by (is_lent_at u p q) rows) other)

delete_each-delete_by :
    (u p q : Bytes) (qs : List Bytes) (rows : List ShareRow)
    → delete_each u p qs (delete_by (is_lent_at u p q) rows)
      ≡ delete_by (is_lent_at u p q) (delete_each u p qs rows)
delete_each-delete_by u p q [] rows = refl
delete_each-delete_by u p q (x ∷ qs) rows =
    ap (delete_each u p qs) (delete_by_comm (is_lent_at u p x) (is_lent_at u p q) rows)
    ∙ delete_each-delete_by u p q qs (delete_by (is_lent_at u p x) rows)

-- The loop deletes the row of each link, at the latest when it gets to it.
delete_by-own :
    (u p : Bytes) (r : ShareRow) (rows : List ShareRow)
    → is_lent u p r ≡ true
    → delete_by (is_lent_at u p r.shareepath) (r ∷ rows)
      ≡ delete_by (is_lent_at u p r.shareepath) rows
delete_by-own u p r rows lent = ground (arith, str_eq_refl r.shareepath)

narrower : (u p q : Bytes) (r : ShareRow) → is_lent u p r ≡ false → is_lent_at u p q r ≡ false
narrower u p q r other = ground arith

-- The loop over the links of all sharees deletes all rows that share the file.
delete_each-all :
    (u p : Bytes) (rows : List ShareRow)
    → delete_each u p (sharee_paths u p rows) rows ≡ delete_by (is_lent u p) rows
delete_each-all u p [] = refl
delete_each-all u p (r ∷ rows) = elim (Bool-cases (is_lent u p r)) [
  | inl lent ↦
      let q = r.shareepath in
      let qs = sharee_paths u p rows in
      rw lent (
        ap (delete_each u p qs) (delete_by-own u p r rows lent)
        ∙ delete_each-delete_by u p q qs rows
        ∙ ap (delete_by (is_lent_at u p q)) (delete_each-all u p rows)
        ∙ delete_by_absorb (is_lent_at u p q) (is_lent u p) (narrower u p q) rows)
  | inr other ↦ rw other (
      delete_each-other u p (sharee_paths u p rows) r rows other
      ∙ ap (λ rs. r ∷ rs) (delete_each-all u p rows))
]

module _ {S : Type 0} (host : Host S) where
  -- The files are removed one after the other, and each removal succeeds.
  pub data Removes : List Bytes → S → S → Type 0 where
    none_left : {s : S} → Removes [] s s
    first :
        {p : Bytes} {ps : List Bytes} {s t v : S}
        → host.remove p s ≡ (ok tt, t)
        → Removes ps t v
        → Removes (p ∷ ps) s v

  unshare_all-Removes :
      (u p : Bytes) (ps : List Bytes) (w : World S) {s t : S}
      → Removes ps s t
      → unshare_all host u p ps (record w { os = s; faults = [] })
        ≡ next tt (record w { os = t; shares = delete_each u p ps w.shares; faults = [] })
  unfolding unshare_all system run access draw ◌>>=◌
  unshare_all-Removes u p [] w none_left = refl
  unshare_all-Removes u p (q ∷ ps) w {s} (first {t} e rest) = ground (
    arith,
    e,
    unshare_all-Removes u p ps (record w { shares = delete_by (is_lent_at u p q) w.shares }) rest,
  )

  -- The state in which nobody has a share of the file from `u` any more.
  abbrev pub withdrawn : Bytes → Bytes → World S → S → World S
  withdrawn u place w t = record w {
    os = t;
    shares = delete_by (is_lent u place) w.shares;
    faults = [];
  }

  remove_as_sharer-Removes :
      (u path place : Bytes) (w : World S) {t : S}
      → Removes (sharee_paths u place w.shares) w.os t
      → remove_as_sharer host path place u (quiet w)
        ≡ call (remove host path u) (withdrawn u place w t)
  unfolding remove_as_sharer query prepare access draw ◌>>=◌
  remove_as_sharer-Removes u path place w {t} gone = ground (
    arith,
    unshare_all-Removes u place (sharee_paths u place w.shares) w gone,
    delete_each-all u place w.shares,
  )

  call_twice :
      (m : Func (World S) Bytes) (w : World S)
      → call {R = Bytes} (call {R = Bytes} m) w ≡ call {R = Bytes} m w
  unfolding call
  call_twice m w = ground arith

  -- What the user asks for in the removal of a file of the own that is shared.
  pub record IsRemoval (u c path place : Bytes) (r : ShareRow) (w : World S) : Type 0 where
    pub session : HasSession host u c w
    pub allowed : check_path host path u w.os ≡ true
    pub stands : abspath host (clean path) w.os ≡ ok place
    pub there : is_not_exist (host.stat place w.os) ≡ false
    pub lent : first_by (λ s. str_eq s.origpath place) w.shares ≡ some r

  -- The owner removes a shared file: every sharee's link is removed, every row by which the owner shares
  -- the file is deleted, and then the file is removed the way that an unshared file is.
  pub remove_handler_unshares :
      (u c path place : Bytes) (r : ShareRow) (w : World S) {t : S}
      → IsRemoval u c path place r w
      → Removes (sharee_paths u place w.shares) w.os t
      → remove_handler host path u c (quiet w) ≡ call (remove host path u) (withdrawn u place w t)
  unfolding remove_handler is_shared_file abs_or query_row ◌>>=◌
  remove_handler_unshares u c path place r w {t} k gone = ground (
    arith,
    check_cookie-accepts host w u c k.session,
    k.allowed,
    k.stands,
    k.there,
    k.lent,
    remove_as_sharer-Removes u path place w gone,
    call_twice (remove host path u) (withdrawn u place w t),
  )

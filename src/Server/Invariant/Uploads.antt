-- ===== src/Server/Invariant/Uploads.antt =====
-- The invariant in uploads: what uploadHelper knows of the table where it inserts a row.
use dropbox_for_ctf.Base.{ℕ, ◌+◌, ◌≡◌, List, [], ◌∷◌, ◌++◌, arith, ◌==◌, count_by, if◌then◌else◌}
use dropbox_for_ctf.Text.{Bytes, lit, str_eq, itoa}
use dropbox_for_ctf.Go.{Body, ◌>>=◌, call}
use dropbox_for_ctf.Go.Keeps.{Keeps, Keeps-bind}
use dropbox_for_ctf.Go.Triple.{
  Triple, Keeps-Triple, Triple-Keeps, Triple-bind, Triple-pure, Triple-gets, Triple-or_return,
  Triple-modify, Triple-call, Triple-if,
}
use dropbox_for_ctf.Store.{Host, World, FileRow, count}
use dropbox_for_ctf.Store.Rules.{IsInner, IsCalm}
use dropbox_for_ctf.Store.Triples.{Triple-count, Triple-execute, Triple-system}
use dropbox_for_ctf.Server.Files.{
  abs_or, store_new, store_again, upload_helper, remove_links, relink, sharer_upload, get_perms,
  is_shared_file, sharee_upload, upload_handler, download_handler, SharedAs, as_sharer, as_sharee,
  unshared,
}
use dropbox_for_ctf.Server.Invariant.Files.{IsFiles-append}
use dropbox_for_ctf.Server.Invariant.Sound.{
  IsSound, IsSound-inner, IsSound-calm, sound_rules, abs_or-IsSound, remove-IsSound,
  check_cookie-IsSound,
}

-- A sound state in which no stored file has the digest.
record IsNew {S : Type 0} (hash : Bytes) (w : World S) : Type 0 where
  sound : IsSound w
  absent : count_by (λ (r : FileRow). str_eq r.filehash hash) w.files ≡ 0

-- The row is there and the counter has not moved yet.
abbrev IsPending : {S : Type 0} → World S → Type 0
IsPending w = IsSound (record w { filecount = w.filecount + 1 })

module _ {S : Type 0} where
  IsNew-inner : (hash : Bytes) → IsInner {S = S} (IsNew hash)
  IsNew-inner hash = record {
    os = λ w s h. record { sound = IsSound-inner.os w s h.sound; absent = h.absent };
  }

  IsNew-calm : (hash : Bytes) → IsCalm {S = S} (IsNew hash)
  IsNew-calm hash = record {
    faults = λ w fs h. record { sound = IsSound-calm.faults w fs h.sound; absent = h.absent };
  }

  insert-IsPending :
      (hash : Bytes) (w : World S)
      → IsNew hash w
      → IsPending (record w {
        files =
            w.files
            ++ record { filename = lit "file" ++ itoa w.filecount; filehash = hash; numowners = 1 }
              ∷ [];
      })
  insert-IsPending hash w h = record {
    users = h.sound.users;
    files = IsFiles-append w.filecount hash w.files h.sound.files h.absent;
    shares = h.sound.shares;
  }

module _ {S : Type 0} (host : Host S) where
  store_new-IsSound :
      (p hash body : Bytes)
      → Triple {W = World S} (IsNew hash) (λ _. IsSound) IsSound (store_new host p hash body)
  unfolding store_new abs_or
  store_new-IsSound p hash body =
      let inner = IsNew-inner hash in
      let calm = IsNew-calm hash in
      let weak : (w : World S) → IsNew hash w → IsSound w = λ w h. h.sound in
      Triple-bind _ _ (Triple-gets _) λ c.
        Triple-bind _ _ (Triple-bind _ _ (Triple-gets _) (λ r. Triple-or_return r _ weak)) λ place.
          Triple-bind _ _ (Triple-system _ inner) λ written.
            Triple-bind _ _ (Triple-or_return written _ weak) λ _.
              Triple-bind _ _ (Triple-system _ inner) λ linked.
                Triple-bind _ _ (Triple-or_return linked _ weak) λ _.
                  Triple-bind {M = λ _. IsPending} _ _
                    (Triple-execute _ calm weak (insert-IsPending hash))
                    λ _.
                      Triple-bind {M = λ _. IsSound} _ _ (Triple-modify _ (λ w h. h))
                        λ _. Triple-pure _ (λ w h. h)

  store_again-IsSound : (p hash : Bytes) → Keeps {W = World S} IsSound (store_again host p hash)
  unfolding store_again
  store_again-IsSound p hash = search (sound_rules, abs_or-IsSound) depth 20

  -- The dispatch of `uploadHelper` on the count of the digest.
  store-IsSound :
      (p hash body : Bytes) (n : ℕ)
      → Triple {W = World S} {R = Bytes}
          (λ w. IsSound w × (count_by (λ (r : FileRow). str_eq r.filehash hash) w.files ≡ n))
          (λ _. IsSound)
          IsSound
          (if n == 0 then call (store_new host p hash body) else call (store_again host p hash))
  store-IsSound p hash body n =
      Triple-if (n == 0) _ _
        (λ e. Triple-call _ (record {
          at = λ w h.
              (store_new-IsSound p hash body).at w
                (record { sound = h.0; absent = ground (arith, h.1) });
        }))
        (λ _. Triple-Keeps _ (λ w h. h.0) (search (sound_rules, store_again-IsSound)))

  dedup-IsSound :
      (p hash body : Bytes)
      → Keeps {W = World S} {R = Bytes} IsSound (do
        found ← count (λ w. count_by (λ r. str_eq r.filehash hash) w.files)
        if found == 0 then call (store_new host p hash body) else call (store_again host p hash))
  dedup-IsSound p hash body =
      Keeps-Triple _
        (Triple-bind _ _ (Triple-count _ IsSound-calm (λ w h. h)) (store-IsSound p hash body))

  pub upload_helper-IsSound :
      (p u body : Bytes) → Keeps {W = World S} IsSound (upload_helper host p u body)
  unfolding upload_helper
  upload_helper-IsSound p u body =
      search (dedup-IsSound, sound_rules, abs_or-IsSound, remove-IsSound) depth 20

  remove_links-IsSound : (ps : List Bytes) → Keeps {W = World S} IsSound (remove_links host ps)
  unfolding remove_links
  remove_links-IsSound [] = search sound_rules
  remove_links-IsSound (p ∷ ps) =
      Keeps-bind _ _ (search sound_rules)
        λ r. Keeps-bind _ _ (search sound_rules) λ _. remove_links-IsSound ps

  relink-IsSound : (t : Bytes) (ps : List Bytes) → Keeps {W = World S} IsSound (relink host t ps)
  unfolding relink
  relink-IsSound t [] = search sound_rules
  relink-IsSound t (p ∷ ps) = Keeps-bind _ _ (search sound_rules) λ r. relink-IsSound t ps

  sharer_upload-IsSound :
      (u p body : Bytes) → Keeps {W = World S} IsSound (sharer_upload host u p body)
  unfolding sharer_upload
  sharer_upload-IsSound u p body =
      search (sound_rules, upload_helper-IsSound, remove_links-IsSound, relink-IsSound) depth 20

  get_perms-IsSound : (p u : Bytes) → Keeps {W = World S} IsSound (get_perms host p u)
  unfolding get_perms
  get_perms-IsSound p u = search sound_rules

  pub is_shared_file-IsSound : (p : Bytes) → Keeps {W = World S} IsSound (is_shared_file host p)
  unfolding is_shared_file
  is_shared_file-IsSound p = search sound_rules depth 12

  sharee_upload-IsSound :
      (p u body : Bytes) → Keeps {W = World S} IsSound (sharee_upload host p u body)
  unfolding sharee_upload
  sharee_upload-IsSound p u body =
      search (sound_rules, sharer_upload-IsSound, get_perms-IsSound) depth 20

  -- The three ways on from `isSharedFile`.
  route-IsSound :
      (p u body : Bytes) (shared : SharedAs)
      → Keeps {W = World S} {R = Bytes} IsSound (elim shared as (λ _. Body (World S) Bytes Bytes) [
        | unshared ↦ call (upload_helper host p u body)
        | as_sharer ↦ call (sharer_upload host u p body)
        | as_sharee ↦ call (sharee_upload host p u body)
      ])
  route-IsSound p u body unshared = search (sound_rules, upload_helper-IsSound)
  route-IsSound p u body as_sharer = search (sound_rules, sharer_upload-IsSound)
  route-IsSound p u body as_sharee = search (sound_rules, sharee_upload-IsSound)

  pub upload_handler-IsSound :
      (p u body c : Bytes) → Keeps {W = World S} IsSound (upload_handler host p u body c)
  unfolding upload_handler
  upload_handler-IsSound p u body c =
      search
        (sound_rules, route-IsSound, check_cookie-IsSound, abs_or-IsSound, is_shared_file-IsSound)
        depth 20

  pub download_handler-IsSound :
      (p u c : Bytes) → Keeps {W = World S} IsSound (download_handler host p u c)
  unfolding download_handler
  download_handler-IsSound p u c =
      search (sound_rules, check_cookie-IsSound, abs_or-IsSound) depth 30

-- ===== src/Server/Frame/Files.antt =====
-- What the functions of uploads, downloads and removal change.
use dropbox_for_ctf.Base.{ℕ, ◌+◌, ◌≡◌, refl, true, List, [], ◌∷◌, arith, ◌==◌, if◌then◌else◌}
use dropbox_for_ctf.Text.{Bytes}
use dropbox_for_ctf.Go.{Body, ◌>>=◌, call}
use dropbox_for_ctf.Go.Keeps.{Keeps, Keeps-bind, Keeps-call, Keeps-guard}
use dropbox_for_ctf.Go.Triple.{
  Triple, Triple-Keeps, Triple-frame, Triple-bind, Triple-pure, Triple-modify, Triple-call,
  Triple-if,
}
use dropbox_for_ctf.Store.{Host, World}
use dropbox_for_ctf.Server.Account.{check_user, check_cookie}
use dropbox_for_ctf.Server.Files.{
  abs_or, release, remove, store_new, store_again, upload_helper, remove_links, relink,
  sharer_upload, get_perms, is_shared_file, sharee_upload, upload_handler, download_handler,
  SharedAs, as_sharer, as_sharee, unshared,
}
use dropbox_for_ctf.Server.Frame.{Scope, nothing, IsWithin, within_rules}

module _ {S : Type 0} (host : Host S) (scope : Scope) (w : World S) where
  check_user-IsWithin : (u : Bytes) → Keeps (IsWithin scope w) (check_user host u)
  unfolding check_user
  check_user-IsWithin u = search within_rules

  pub check_cookie-IsWithin : (u c : Bytes) → Keeps (IsWithin scope w) (check_cookie host u c)
  unfolding check_cookie
  check_cookie-IsWithin u c = search (within_rules, check_user-IsWithin) depth 12

  pub abs_or-IsWithin :
      {R : Type 0} (p : Bytes) (f : Bytes → R) → Keeps (IsWithin scope w) (abs_or host p f)
  unfolding abs_or
  abs_or-IsWithin p f = search within_rules

  pub is_shared_file-IsWithin : (p : Bytes) → Keeps (IsWithin scope w) (is_shared_file host p)
  unfolding is_shared_file
  is_shared_file-IsWithin p = search within_rules depth 12

  get_perms-IsWithin : (p u : Bytes) → Keeps (IsWithin scope w) (get_perms host p u)
  unfolding get_perms
  get_perms-IsWithin p u = search within_rules

  pub download_handler-IsWithin :
      (p u c : Bytes) → Keeps (IsWithin scope w) (download_handler host p u c)
  unfolding download_handler
  download_handler-IsWithin p u c =
      search (within_rules, check_cookie-IsWithin, abs_or-IsWithin) depth 30

  remove_links-IsWithin : (ps : List Bytes) → Keeps (IsWithin scope w) (remove_links host ps)
  unfolding remove_links
  remove_links-IsWithin [] = search within_rules
  remove_links-IsWithin (p ∷ ps) =
      Keeps-bind _ _ (search within_rules)
        λ r. Keeps-bind _ _ (search within_rules) λ _. remove_links-IsWithin ps

  relink-IsWithin : (t : Bytes) (ps : List Bytes) → Keeps (IsWithin scope w) (relink host t ps)
  unfolding relink
  relink-IsWithin t [] = search within_rules
  relink-IsWithin t (p ∷ ps) = Keeps-bind _ _ (search within_rules) λ r. relink-IsWithin t ps

module _ {S : Type 0} (host : Host S) (scope : Scope) (w : World S)
    (free : scope.files ≡ true) where
  release-IsWithin : (p n : Bytes) → Keeps (IsWithin scope w) (release host p n)
  unfolding release
  release-IsWithin p n = search within_rules depth 12

  pub remove-IsWithin : (p u : Bytes) → Keeps (IsWithin scope w) (remove host p u)
  unfolding remove
  remove-IsWithin p u = search (within_rules, abs_or-IsWithin, release-IsWithin) depth 20

  store_again-IsWithin : (p hash : Bytes) → Keeps (IsWithin scope w) (store_again host p hash)
  unfolding store_again
  store_again-IsWithin p hash = search (within_rules, abs_or-IsWithin) depth 20

-- The scope of an upload, and its scope before the counter moves.
abbrev pub uploading : Scope
uploading = record nothing { files = true; counter = true }

abbrev pub storing : Scope
storing = record nothing { files = true }

module _ {S : Type 0} (w : World S) where
  moving : (v : World S) → IsWithin storing w v → IsWithin uploading w v
  moving v h = record {
    users = h.users;
    files = tt;
    shares = h.shares;
    sessions = h.sessions;
    counter = omega (arith, h.counter);
  }

  count_up :
      (v : World S)
      → IsWithin storing w v
      → IsWithin uploading w (record v { filecount = v.filecount + 1 })
  count_up v h = record {
    users = h.users;
    files = tt;
    shares = h.shares;
    sessions = h.sessions;
    counter = omega (arith, h.counter);
  }

module _ {S R A B : Type 0} (w : World S) where
  -- The counter moves behind the first part only.
  before :
      (m : Body (World S) R A) (f : A → Body (World S) R B)
      → Keeps (IsWithin storing w) m
      → ((a : A)
          → Triple (IsWithin storing w) (λ _. IsWithin uploading w) (IsWithin uploading w) (f a))
      → Triple (IsWithin storing w) (λ _. IsWithin uploading w) (IsWithin uploading w) (m >>= f)
  before m f k more = Triple-bind m f (Triple-frame m (moving w) k) more

  -- The counter moves in the first part only.
  behind :
      (m : Body (World S) R A) (f : A → Body (World S) R B)
      → Triple (IsWithin storing w) (λ _. IsWithin uploading w) (IsWithin uploading w) m
      → ((a : A) → Keeps (IsWithin uploading w) (f a))
      → Triple (IsWithin storing w) (λ _. IsWithin uploading w) (IsWithin uploading w) (m >>= f)
  behind m f t more = Triple-bind m f t λ a. Triple-Keeps (f a) (λ v h. h) (more a)

module _ {S : Type 0} (host : Host S) (w : World S) where
  store_new-Triple :
      (p hash body : Bytes)
      → Triple
          (IsWithin storing w)
          (λ _. IsWithin uploading w)
          (IsWithin uploading w)
          (store_new host p hash body)
  unfolding store_new
  store_new-Triple p hash body = before w _ _ (search within_rules) λ c.
      before w _ _ (search (within_rules, abs_or-IsWithin)) λ place.
        before w _ _ (search within_rules) λ written. before w _ _ (search within_rules) λ _.
          before w _ _ (search within_rules) λ linked. before w _ _ (search within_rules) λ _.
            before w _ _ (search within_rules) λ _.
              Triple-bind {M = λ _. IsWithin uploading w} _ _ (Triple-modify _ (count_up w))
                λ _. Triple-pure _ (λ v h. h)

  store-Triple :
      (p hash body : Bytes) (n : ℕ)
      → Triple {R = Bytes}
          (IsWithin storing w)
          (λ _. IsWithin uploading w)
          (IsWithin uploading w)
          (if n == 0 then call (store_new host p hash body) else call (store_again host p hash))
  store-Triple p hash body n =
      Triple-if (n == 0) _ _ (λ _. Triple-call _ (store_new-Triple p hash body))
        (λ _.
          Triple-Keeps _ (moving w)
            (Keeps-call _ (store_again-IsWithin host uploading w refl p hash)))

  upload_helper-Triple :
      (p u body : Bytes)
      → Triple
          (IsWithin storing w)
          (λ _. IsWithin uploading w)
          (IsWithin uploading w)
          (upload_helper host p u body)
  unfolding upload_helper
  upload_helper-Triple p u body = before w _ _ (search (within_rules, abs_or-IsWithin)) λ prefix.
      before w _ _ (Keeps-guard _ _) λ _. before w _ _ (search within_rules) λ old.
        before w _ _ (search (within_rules, remove-IsWithin))
          λ _. before w _ _ (search within_rules) (store-Triple p (host.digest body) body)

  sharer_upload-Triple :
      (u p body : Bytes)
      → Triple
          (IsWithin storing w)
          (λ _. IsWithin uploading w)
          (IsWithin uploading w)
          (sharer_upload host u p body)
  unfolding sharer_upload
  sharer_upload-Triple u p body = before w _ _ (search within_rules) λ sharee_list.
      before w _ _ (search (within_rules, remove_links-IsWithin)) λ _.
        behind w _ _ (Triple-call _ (upload_helper-Triple p u body))
          λ _. search (within_rules, relink-IsWithin) depth 12

  sharee_upload-Triple :
      (p u body : Bytes)
      → Triple
          (IsWithin storing w)
          (λ _. IsWithin uploading w)
          (IsWithin uploading w)
          (sharee_upload host p u body)
  unfolding sharee_upload
  sharee_upload-Triple p u body = before w _ _ (search (within_rules, get_perms-IsWithin)) λ perms.
      before w _ _ (Keeps-guard _ _) λ _. before w _ _ (search within_rules) λ scanned.
        before w _ _ (search within_rules) λ found.
          behind w _ _ (Triple-call _ (sharer_upload-Triple found.sharer found.origpath body))
            λ _. search within_rules

  route-Triple :
      (p u body : Bytes) (shared : SharedAs)
      → Triple {R = Bytes}
          (IsWithin storing w)
          (λ _. IsWithin uploading w)
          (IsWithin uploading w)
          (elim shared as (λ _. Body (World S) Bytes Bytes) [
            | unshared ↦ call (upload_helper host p u body)
            | as_sharer ↦ call (sharer_upload host u p body)
            | as_sharee ↦ call (sharee_upload host p u body)
          ])
  route-Triple p u body unshared = Triple-call _ (upload_helper-Triple p u body)
  route-Triple p u body as_sharer = Triple-call _ (sharer_upload-Triple u p body)
  route-Triple p u body as_sharee = Triple-call _ (sharee_upload-Triple p u body)

  pub upload_handler-Triple :
      (p u body c : Bytes)
      → Triple
          (IsWithin storing w)
          (λ _. IsWithin uploading w)
          (IsWithin uploading w)
          (upload_handler host p u body c)
  unfolding upload_handler
  upload_handler-Triple p u body c =
      before w _ _ (search (within_rules, check_cookie-IsWithin)) λ valid.
        before w _ _ (Keeps-guard _ _) λ _. before w _ _ (search within_rules) λ allow.
          before w _ _ (Keeps-guard _ _) λ _.
            before w _ _ (search (within_rules, abs_or-IsWithin)) λ storepath.
              before w _ _ (search (within_rules, is_shared_file-IsWithin))
                (route-Triple storepath u body)

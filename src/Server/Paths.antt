-- ===== src/Server/Paths.antt =====
-- `checkpath`: which paths it lets a user go to.
use mathlib.Core.List.{reverse}
use dropbox_for_ctf.Base.{
  ◌≡◌, ◌↔◌, All, sym, refl, ◌∙◌, ap, true, false, List, [], ◌∷◌, ◌++◌, map, arith,
}
use dropbox_for_ctf.Text.{Bytes, slash, lit, split, contains_slash, has_prefix, trim_prefix}
use dropbox_for_ctf.Text.Laws.{has_prefix-append, append-trim_prefix}
use dropbox_for_ctf.Text.Split.{split_plain}
use dropbox_for_ctf.FilePath.{ok, err, Element, name, element, step, spell, is_abs, clean, abs}
use dropbox_for_ctf.Text.{join}
use dropbox_for_ctf.FilePath.Walk.{walk, elements, walk-append}
use dropbox_for_ctf.FilePath.Below.{IsForward, spelled-forward}
use dropbox_for_ctf.FilePath.Laws.{
  abs-clean, abs-relative, spelled-append_last, map-append_elements, is_abs-clean,
}
use dropbox_for_ctf.Store.{Host}
use dropbox_for_ctf.Server.Account.{user_root, abspath, check_path}

user_root_relative : (u : Bytes) → is_abs (user_root u) ≡ false
unfolding is_abs lit
user_root_relative u = refl

below_relative : (u p : Bytes) → is_abs (user_root u ++ slash ∷ p) ≡ false
unfolding is_abs lit
below_relative u p = refl

module _ {S : Type 0} (host : Host S) (dir : Bytes) (s : S) (cwd : host.getwd s ≡ ok dir)
    (rooted : is_abs dir ≡ true) where
  -- The handlers use `filepath.Abs(path)` in some places and `filepath.Abs(filepath.Clean(path))` in
  -- others. These are the same path.
  pub abspath-clean : (path : Bytes) → abspath host (clean path) s ≡ abspath host path s
  unfolding abspath
  abspath-clean path = rw cwd (abs-clean dir path rooted)

  check_path-places :
      (path u : Bytes) {p r : Bytes}
      → abspath host path s ≡ ok p
      → abspath host (user_root u) s ≡ ok r
      → check_path host path u s ≡ has_prefix p r
  unfolding check_path
  check_path-places path u e f =
      let e' = abspath-clean path ∙ e in
      let f' = abspath-clean (user_root u) ∙ f in ground (arith, e', f')

  -- `checkpath` accepts exactly the paths whose place is the text of the user's root followed by any
  -- other text.
  pub check_path_exact :
      (path u : Bytes) {p r : Bytes}
      → abspath host path s ≡ ok p
      → abspath host (user_root u) s ≡ ok r
      → (check_path host path u s ≡ true) ↔ ((x : Bytes) × (p ≡ r ++ x))
  check_path_exact path u {p} {r} e f =
      let places = check_path-places path u e f in
      (
        λ accepted. (trim_prefix p r, append-trim_prefix p r (sym places ∙ accepted)),
        λ (x, g). places ∙ ap (λ q. has_prefix q r) g ∙ has_prefix-append r x,
      )

  -- The elements of "./userfs/" and a name.
  elements-user_root :
      (out : List Element) (u : Bytes)
      → contains_slash u ≡ false
      → element u ≡ name u
      → walk true out (elements (user_root u)) ≡ name u ∷ name (lit "userfs") ∷ out
  unfolding walk step lit element split
  elements-user_root out u plain named =
      ap (walk true out) (map-append_elements (lit "./userfs") u)
      ∙ rw (split_plain u plain) (rw named)

  abspath-user_root :
      (u : Bytes)
      → contains_slash u ≡ false
      → element u ≡ name u
      → abspath host (user_root u) s
        ≡ ok (
            slash
            ∷ join
                (map spell (reverse (name u ∷ name (lit "userfs") ∷ walk true [] (elements dir)))))
  unfolding abspath
  abspath-user_root u plain named = rw cwd (
      abs-relative dir (user_root u) rooted (user_root_relative u)
      ∙ ap (λ o. ok (slash ∷ join (map spell (reverse o)))) (elements-user_root _ u plain named))

  abspath-below :
      (u p : Bytes)
      → contains_slash u ≡ false
      → element u ≡ name u
      → abspath host (user_root u ++ slash ∷ p) s
        ≡ ok (
            slash
            ∷ join (
                map spell (
                  reverse (
                    walk true
                      (name u ∷ name (lit "userfs") ∷ walk true [] (elements dir))
                      (elements p)))))
  unfolding abspath
  abspath-below u p plain named = rw cwd (
      abs-relative dir (user_root u ++ slash ∷ p) rooted (below_relative u p)
      ∙ ap (λ o. ok (slash ∷ join (map spell (reverse o))))
          (ap (walk true (walk true [] (elements dir))) (map-append_elements (user_root u) p)
            ∙ walk-append true (walk true [] (elements dir)) (elements (user_root u)) (elements p)
            ∙ ap (λ o. walk true o (elements p)) (elements-user_root _ u plain named)))

  -- Every path that goes down from the user's root is accepted: the root, a slash, and elements of which
  -- none is "..".
  check_path_below :
      (u p : Bytes)
      → contains_slash u ≡ false
      → element u ≡ name u
      → All IsForward (elements p)
      → check_path host (user_root u ++ slash ∷ p) u s ≡ true
  check_path_below u p plain named down =
      let top = name u ∷ name (lit "userfs") ∷ walk true [] (elements dir) in
      let (x, e) = spelled-forward top (elements p) down in
      check_path-places (user_root u ++ slash ∷ p) u (abspath-below u p plain named)
        (abspath-user_root u plain named)
      ∙ ap (λ t. has_prefix (slash ∷ t) (slash ∷ join (map spell (reverse top)))) e
      ∙ has_prefix-append (slash ∷ join (map spell (reverse top))) x

  -- A user may go to the root of every other user whose name begins with the user's own.
  pub check_path_sibling :
      (u x : Bytes)
      → contains_slash u ≡ false
      → element u ≡ name u
      → contains_slash (u ++ x) ≡ false
      → element (u ++ x) ≡ name (u ++ x)
      → check_path host (user_root (u ++ x)) u s ≡ true
  check_path_sibling u x plain named plain' named' =
      check_path-places (user_root (u ++ x)) u (abspath-user_root (u ++ x) plain' named')
        (abspath-user_root u plain named)
      ∙ ap (λ t. has_prefix (slash ∷ t) (slash ∷ stem))
          (spelled-append_last (name (lit "userfs") ∷ walk true [] (elements dir)) u x)
      ∙ has_prefix-append (slash ∷ stem) x
    where
      stem : Bytes
      stem = join (map spell (reverse (name u ∷ name (lit "userfs") ∷ walk true [] (elements dir))))

module _ {S : Type 0} (host : Host S) where
  -- While the working directory cannot be found, `checkpath` lets every user go to every path.
  check_path_open :
      (path u e : Bytes) (s : S) → host.getwd s ≡ err e → check_path host path u s ≡ true
  unfolding check_path abspath abs
  check_path_open path u e s lost =
      let relative = is_abs-clean (user_root u) (user_root_relative u) in
      rw (lost, relative) (has_prefix-append [] _)

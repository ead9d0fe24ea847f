-- ===== src/FilePath/Laws.antt =====
-- What filepath.Clean leaves, and filepath.Abs before and after it.
use mathlib.Core.List.{reverse, reverse-cons, map-append}
use dropbox_for_ctf.Base.{
  ◌≡◌, refl, sym, ◌∙◌, ap, Bool, true, false, List, [], ◌∷◌, ◌++◌, append_assoc, map, arith, All,
  Bool-cases, inl, inr,
}
use dropbox_for_ctf.Text.{Bytes, slash, contains_slash, split, join}
use dropbox_for_ctf.Text.Split.{split-append, split-All}
use dropbox_for_ctf.FilePath.{
  ok, Element, skip, parent, name, element, step, spell, is_abs, or_dot, clean, join_path, abs,
}
use dropbox_for_ctf.FilePath.Walk.{
  walk, elements, reduce-walk, walk-append, IsPlain, walk-All, All-reverse, walk-spelled,
  walk-or_dot, walk-reverse,
}

-- What `Clean` writes out.
abbrev pub leftover : Bool → Bytes → List Element
leftover r p = reverse (walk r [] (elements p))

pub clean_rooted :
    (p : Bytes) → is_abs p ≡ true → clean p ≡ slash ∷ join (map spell (leftover true p))
unfolding clean
clean_rooted p h = rw h (rw reduce-walk)

clean_relative :
    (p : Bytes) → is_abs p ≡ false → clean p ≡ or_dot (join (map spell (leftover false p)))
unfolding clean
clean_relative p h = rw h (rw reduce-walk)

leftover-IsPlain : (r : Bool) (p : Bytes) → All IsPlain (leftover r p)
leftover-IsPlain r p =
    All-reverse (walk r [] (elements p)) (walk-All r [] (split p) (split-All p) tt)

-- Elements that go nowhere up: what a rooted path leaves.
abbrev pub AreNames : List Element → Type 0
AreNames [] = Unit
AreNames (skip ∷ es) = ⊥
AreNames (parent ∷ es) = ⊥
AreNames (name n ∷ es) = AreNames es

step-AreNames : (out : List Element) (e : Element) → AreNames out → AreNames (step true out e)
unfolding step
step-AreNames out skip h = h
step-AreNames out (name n) h = h
step-AreNames [] parent h = tt
step-AreNames (name n ∷ out) parent h = h
step-AreNames (parent ∷ out) parent h = absurd h
step-AreNames (skip ∷ out) parent h = absurd h

walk-AreNames : (out es : List Element) → AreNames out → AreNames (walk true out es)
unfolding walk
walk-AreNames out [] h = h
walk-AreNames out (e ∷ es) h = walk-AreNames (step true out e) es (step-AreNames out e h)

walk_names : (out : List Element) → AreNames out → walk true [] (reverse out) ≡ out
walk_names [] h = unfold walk in refl
walk_names (skip ∷ out) h = absurd h
walk_names (parent ∷ out) h = absurd h
walk_names (name n ∷ out) h =
    ap (walk true []) (reverse-cons (name n) out)
    ∙ walk-append true [] (reverse out) (name n ∷ [])
    ∙ ap (λ t. walk true t (name n ∷ [])) (walk_names out h)
    ∙ one (name n) out
  where
    one : (e : Element) (o : List Element) → walk true o (name n ∷ []) ≡ name n ∷ o
    one e o = unfold walk step in refl

elements_behind_slash :
    (s : Bytes) (out : List Element)
    → walk true out (elements (slash ∷ s)) ≡ walk true out (elements s)
unfolding split walk step element
elements_behind_slash s out = refl

is_abs-slash : (s : Bytes) → is_abs (slash ∷ s) ≡ true
unfolding is_abs
is_abs-slash s = refl

-- `Clean` of a rooted path that is clean changes nothing.
pub clean-clean : (p : Bytes) → is_abs p ≡ true → clean (clean p) ≡ clean p
clean-clean p h =
    ap clean (clean_rooted p h)
    ∙ clean_rooted (slash ∷ join (map spell (leftover true p)))
        (is_abs-slash (join (map spell (leftover true p))))
    ∙ ap (λ t. slash ∷ join (map spell (reverse t))) again
    ∙ sym (clean_rooted p h)
  where
    out : List Element
    out = walk true [] (elements p)

    again :
        walk true [] (elements (slash ∷ join (map spell (leftover true p))))
        ≡ walk true [] (elements p)
    again =
        elements_behind_slash (join (map spell (leftover true p))) []
        ∙ walk-spelled true [] (leftover true p) (leftover-IsPlain true p)
        ∙ walk_names (walk true [] (elements p)) (walk-AreNames [] (elements p) tt)

pub map-append_elements : (s t : Bytes) → elements (s ++ slash ∷ t) ≡ elements s ++ elements t
map-append_elements s t =
    ap (map element) (split-append s t) ∙ map-append element (split s) (split t)

is_abs-join : (es : List Element) → All IsPlain es → is_abs (or_dot (join (map spell es))) ≡ false
unfolding is_abs join spell contains_slash element
is_abs-join [] a = refl
is_abs-join (skip ∷ es) a = absurd a.0
is_abs-join (parent ∷ []) a = refl
is_abs-join (parent ∷ f ∷ es) a = refl
is_abs-join (name [] ∷ es) a = absurd (cc (a.0.0))
is_abs-join (name (c ∷ n) ∷ []) a = ground (arith, a.0.1)
is_abs-join (name (c ∷ n) ∷ f ∷ es) a = ground (arith, a.0.1)

-- Behind a rooted directory, a relative path and its clean form lead to the same place.
walk-clean :
    (out : List Element) (p : Bytes)
    → is_abs p ≡ false
    → walk true out (elements (clean p)) ≡ walk true out (elements p)
walk-clean out p h =
    ap (λ t. walk true out (elements t)) (clean_relative p h)
    ∙ walk-or_dot true out (join (map spell (leftover false p)))
    ∙ walk-spelled true out (leftover false p) (leftover-IsPlain false p)
    ∙ walk-reverse out [] (elements p)
    ∙ unfold walk in refl

pub is_abs-clean : (p : Bytes) → is_abs p ≡ false → is_abs (clean p) ≡ false
is_abs-clean p h =
    rw (clean_relative p h) (is_abs-join (leftover false p) (leftover-IsPlain false p))

clean-join :
    (dir s t : Bytes)
    → is_abs dir ≡ true
    → walk true (walk true [] (elements dir)) (elements s)
      ≡ walk true (walk true [] (elements dir)) (elements t)
    → clean (dir ++ slash ∷ s) ≡ clean (dir ++ slash ∷ t)
clean-join dir s t h same =
    clean_rooted _ (rooted dir s h)
    ∙ ap (λ o. slash ∷ join (map spell (reverse o))) (split_walk s ∙ same ∙ sym (split_walk t))
    ∙ sym (clean_rooted _ (rooted dir t h))
  where
    rooted : (d u : Bytes) → is_abs d ≡ true → is_abs (d ++ slash ∷ u) ≡ true
    rooted [] u e = is_abs-slash u
    rooted (c ∷ d) u e = unfold is_abs in e

    split_walk :
        (u : Bytes)
        → walk true [] (elements (dir ++ slash ∷ u))
          ≡ walk true (walk true [] (elements dir)) (elements u)
    split_walk u =
        ap (walk true []) (map-append_elements dir u)
        ∙ walk-append true [] (elements dir) (elements u)

join_path-rooted : (dir p : Bytes) → is_abs dir ≡ true → join_path dir p ≡ clean (dir ++ slash ∷ p)
unfolding join_path is_abs
join_path-rooted [] p h = cc
join_path-rooted (c ∷ dir) p h = refl

-- In a rooted working directory, `filepath.Abs` gives the same path for a text and for its
-- `filepath.Clean`.
pub abs-clean : (dir p : Bytes) → is_abs dir ≡ true → abs (ok dir) (clean p) ≡ abs (ok dir) p
unfolding abs
abs-clean dir p h = elim (Bool-cases (is_abs p)) [
  | inl rooted ↦ rw (rooted, clean_is_abs rooted) (ap ok (clean-clean p rooted))
  | inr relative ↦
      rw (relative, is_abs-clean p relative)
        (ap ok (
          join_path-rooted dir (clean p) h
          ∙ clean-join dir (clean p) p h (walk-clean _ p relative)
          ∙ sym (join_path-rooted dir p h)))
]
  where
    clean_is_abs : is_abs p ≡ true → is_abs (clean p) ≡ true
    clean_is_abs rooted =
        ap is_abs (clean_rooted p rooted) ∙ is_abs-slash (join (map spell (leftover true p)))

-- `filepath.Abs` of a relative path, by its elements.
pub abs-relative :
    (dir p : Bytes)
    → is_abs dir ≡ true
    → is_abs p ≡ false
    → abs (ok dir) p
      ≡ ok (
          slash ∷ join (map spell (reverse (walk true (walk true [] (elements dir)) (elements p)))))
unfolding abs
abs-relative dir p h relative = rw relative (
    ap ok (
      join_path-rooted dir p h
      ∙ clean_rooted (dir ++ slash ∷ p) (rooted dir h)
      ∙ ap (λ o. slash ∷ join (map spell (reverse o)))
          (ap (walk true []) (map-append_elements dir p)
            ∙ walk-append true [] (elements dir) (elements p))))
  where
    rooted : (d : Bytes) → is_abs d ≡ true → is_abs (d ++ slash ∷ p) ≡ true
    rooted [] e = is_abs-slash p
    rooted (c ∷ d) e = unfold is_abs in e

join-append_last :
    (ps : List Bytes) (s t : Bytes) → join (ps ++ (s ++ t) ∷ []) ≡ join (ps ++ s ∷ []) ++ t
unfolding join
join-append_last [] s t = refl
join-append_last (p ∷ []) s t = sym (append_assoc p (slash ∷ s) t)
join-append_last (p ∷ q ∷ ps) s t =
    ap (λ r. p ++ slash ∷ r) (join-append_last (q ∷ ps) s t)
    ∙ sym (append_assoc p (slash ∷ join (q ∷ (ps ++ s ∷ []))) t)

-- Behind the same directories, a longer last name gives a longer text.
pub spelled-append_last :
    (out : List Element) (s t : Bytes)
    → join (map spell (reverse (name (s ++ t) ∷ out)))
      ≡ join (map spell (reverse (name s ∷ out))) ++ t
unfolding spell
spelled-append_last out s t =
    ap (λ o. join (map spell o)) (reverse-cons (name (s ++ t)) out)
    ∙ ap join (map-append spell (reverse out) (name (s ++ t) ∷ []))
    ∙ join-append_last (map spell (reverse out)) s t
    ∙ ap (λ o. o ++ t)
        (ap join (sym (map-append spell (reverse out) (name s ∷ [])))
          ∙ ap (λ o. join (map spell o)) (sym (reverse-cons (name s) out)))

-- ===== src/FilePath/Walk.antt =====
-- `filepath.Clean` as a walk over the elements of a path.
use mathlib.Core.List.{reverse, reverse-cons}
use dropbox_for_ctf.Base.{
  ◌≡◌, refl, ◌∙◌, ap, Bool, true, false, List, [], ◌∷◌, ◌++◌, map, arith, All, All-append,
}
use dropbox_for_ctf.Text.{Bytes, contains_slash, split, join}
use dropbox_for_ctf.Text.Split.{split-join}
use dropbox_for_ctf.FilePath.{Element, skip, parent, name, element, step, reduce, spell, or_dot}

-- `reduce` on the elements that are already read.
unfoldable pub walk : Bool → List Element → List Element → List Element
walk r out [] = out
walk r out (e ∷ es) = walk r (step r out e) es

abbrev pub elements : Bytes → List Element
elements p = map element (split p)

pub reduce-walk :
    (r : Bool) (out : List Element) (cs : List Bytes)
    → reduce r out cs ≡ walk r out (map element cs)
unfolding reduce walk
reduce-walk r out [] = refl
reduce-walk r out (c ∷ cs) = reduce-walk r (step r out (element c)) cs

pub walk-append :
    (r : Bool) (out es fs : List Element) → walk r out (es ++ fs) ≡ walk r (walk r out es) fs
unfolding walk
walk-append r out [] fs = refl
walk-append r out (e ∷ es) fs = walk-append r (step r out e) es fs

-- A part that is its own spelling: an element that can stand in the output.
abbrev pub IsPlain : Element → Type 0
IsPlain skip = ⊥
IsPlain parent = Unit
IsPlain (name n) = (element n ≡ name n) × (contains_slash n ≡ false)

abbrev IsRead : Element → Type 0
IsRead skip = Unit
IsRead parent = Unit
IsRead (name n) = (element n ≡ name n) × (contains_slash n ≡ false)

element-IsRead : (c : Bytes) → contains_slash c ≡ false → IsRead (element c)
unfolding element
element-IsRead [] h = tt
element-IsRead (c ∷ []) h = ground arith
element-IsRead (c ∷ d ∷ []) h = ground arith
element-IsRead (c ∷ d ∷ e ∷ s) h = (refl, h)

step-All :
    (r : Bool) (out : List Element) (e : Element)
    → IsRead e
    → All IsPlain out
    → All IsPlain (step r out e)
unfolding step
step-All r out skip h a = a
step-All r out (name n) h a = (h, a)
step-All true [] parent h a = tt
step-All false [] parent h a = (tt, tt)
step-All r (name n ∷ out) parent h a = a.1
step-All r (parent ∷ out) parent h a = (tt, a)
step-All r (skip ∷ out) parent h a = absurd a.0

pub walk-All :
    (r : Bool) (out : List Element) (cs : List Bytes)
    → All (λ c. contains_slash c ≡ false) cs
    → All IsPlain out
    → All IsPlain (walk r out (map element cs))
unfolding walk
walk-All r out [] h a = a
walk-All r out (c ∷ cs) h a =
    walk-All r (step r out (element c)) cs h.1 (step-All r out (element c) (element-IsRead c h.0) a)

pub All-reverse : (es : List Element) → All IsPlain es → All IsPlain (reverse es)
All-reverse [] a = tt
All-reverse (e ∷ es) a =
    rw reverse-cons (All-append IsPlain (reverse es) (e ∷ []) (All-reverse es a.1) (a.0, tt))

pub spell-plain :
    (es : List Element) → All IsPlain es → All (λ s. contains_slash s ≡ false) (map spell es)
unfolding spell contains_slash
spell-plain [] a = tt
spell-plain (skip ∷ es) a = absurd a.0
spell-plain (parent ∷ es) a = (refl, spell-plain es a.1)
spell-plain (name n ∷ es) a = (a.0.1, spell-plain es a.1)

element-spell : (es : List Element) → All IsPlain es → map element (map spell es) ≡ es
unfolding spell element
element-spell [] a = refl
element-spell (skip ∷ es) a = absurd a.0
element-spell (parent ∷ es) a = ap (λ t. parent ∷ t) (element-spell es a.1)
element-spell (name n ∷ es) a = cc (a.0.0, element-spell es a.1)

-- The elements of a path that was put together from plain ones.
pub walk-spelled :
    (r : Bool) (out es : List Element)
    → All IsPlain es
    → walk r out (elements (join (map spell es))) ≡ walk r out es
walk-spelled r out [] a = unfold split join walk element step in refl
walk-spelled r out (e ∷ es) a =
    ap (λ t. walk r out (map element t))
      (split-join (spell e) (map spell es) (spell-plain (e ∷ es) a))
    ∙ ap (walk r out) (element-spell (e ∷ es) a)

pub walk-or_dot :
    (r : Bool) (out : List Element) (t : Bytes)
    → walk r out (elements (or_dot t)) ≡ walk r out (elements t)
unfolding split walk element step
walk-or_dot r out [] = refl
walk-or_dot r out (c ∷ s) = refl

-- What a relative path leaves, walked from anywhere, ends where the path itself ends.
walk-step :
    (s out : List Element) (e : Element)
    → walk true s (reverse (step false out e)) ≡ step true (walk true s (reverse out)) e
unfolding step
walk-step s out skip = refl
walk-step s out (name n) =
    rw reverse-cons (walk-append true s (reverse out) (name n ∷ []) ∙ unfold walk in refl)
walk-step s [] parent = unfold walk in refl
walk-step s (name n ∷ out) parent = rw reverse-cons (rw walk-append (unfold walk in refl))
walk-step s (parent ∷ out) parent =
    rw reverse-cons
      (walk-append true s (reverse (parent ∷ out)) (parent ∷ []) ∙ unfold walk in refl)
walk-step s (skip ∷ out) parent =
    rw reverse-cons (walk-append true s (reverse (skip ∷ out)) (parent ∷ []) ∙ unfold walk in refl)

pub walk-reverse :
    (s out es : List Element)
    → walk true s (reverse (walk false out es)) ≡ walk true (walk true s (reverse out)) es
unfolding walk
walk-reverse s out [] = refl
walk-reverse s out (e ∷ es) =
    (walk-reverse s (step false out e) es ∙ ap (λ t. walk true t es) (walk-step s out e))

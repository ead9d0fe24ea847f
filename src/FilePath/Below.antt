-- ===== src/FilePath/Below.antt =====
-- Paths that only go down.
use mathlib.Core.List.{reverse, reverse-append, map-append}
use dropbox_for_ctf.Base.{
  ◌≡◌, refl, sym, ap, ◌∙◌, true, List, [], ◌∷◌, ◌++◌, map, append-nil, append_assoc, All,
}
use dropbox_for_ctf.Text.{Bytes, slash, join}
use dropbox_for_ctf.FilePath.{Element, skip, parent, name, step, spell}
use dropbox_for_ctf.FilePath.Walk.{walk}

-- Any element but "..".
abbrev pub IsForward : Element → Type 0
IsForward skip = Unit
IsForward parent = ⊥
IsForward (name n) = Unit

walk-forward :
    (out es : List Element)
    → All IsForward es
    → (ns : List Element) × (walk true out es ≡ ns ++ out)
unfolding walk step
walk-forward out [] h = ([], refl)
walk-forward out (skip ∷ es) h = walk-forward out es h.1
walk-forward out (parent ∷ es) h = absurd h.0
walk-forward out (name n ∷ es) h =
    let (ns, e) = walk-forward (name n ∷ out) es h.1 in
    (ns ++ name n ∷ [], e ∙ sym (append_assoc ns (name n ∷ []) out))

join-append : (ps qs : List Bytes) → (x : Bytes) × (join (ps ++ qs) ≡ join ps ++ x)
unfolding join
join-append [] qs = (join qs, refl)
join-append (p ∷ []) [] = ([], sym (append-nil p))
join-append (p ∷ []) (q ∷ qs) = (slash ∷ join (q ∷ qs), refl)
join-append (p ∷ q ∷ ps) qs =
    let (x, e) = join-append (q ∷ ps) qs in
    (x, ap (λ t. p ++ slash ∷ t) e ∙ sym (append_assoc p (slash ∷ join (q ∷ ps)) x))

-- A walk down from `out` ends below it.
pub spelled-forward :
    (out es : List Element)
    → All IsForward es
    → (x : Bytes) × (join (map spell (reverse (walk true out es)))
        ≡ join (map spell (reverse out)) ++ x)
spelled-forward out es h =
    let (ns, e) = walk-forward out es h in
    let (x, f) = join-append (map spell (reverse out)) (map spell (reverse ns)) in
    (
      x,
      ap (λ o. join (map spell (reverse o))) e
          ∙ ap (λ o. join (map spell o)) (reverse-append ns out)
          ∙ ap join (map-append spell (reverse out) (reverse ns))
          ∙ f,
    )

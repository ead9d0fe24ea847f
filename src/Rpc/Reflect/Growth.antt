-- ===== src/Rpc/Reflect/Growth.antt =====
-- The map of validTypeHelper: what a call adds to it, and how many types it leaves out.
use dropbox_for_ctf.Base.{
  ℕ, ◌≤◌, ◌<◌, ◌≡◌, ◌↔◌, refl, sym, ap, ◌∙◌, ◌⊎◌, inl, inr, true, false, not, ◌||◌, List, [], ◌∷◌,
  ◌++◌, arith, count_by, Bool-cases,
}
use dropbox_for_ctf.Rpc.Reflect.{TypeTable, seen, valid_kind}
use dropbox_for_ctf.Rpc.Reflect.Spec.{children}

module _ {T : Type 0} (table : TypeTable T) where
  abbrev pub Within : List T → List T → Type 0
  Within m m' = (u : T) → seen table u m ≡ true → seen table u m' ≡ true

  -- The type is valid, and its parts are in the map.
  abbrev pub IsDone : List T → T → Type 0
  IsDone m u = (valid_kind (table.shape u) ≡ true) × Within (children (table.shape u)) m

  -- From the map `m` to `m'`: the types `ts` are in it, and what is new is done.
  pub record IsGrown (m m' ts : List T) : Type 0 where
    pub kept : Within m m'
    pub added : Within ts m'
    pub closed : (u : T) → seen table u m' ≡ true → (seen table u m ≡ true) ⊎ IsDone m' u

  pub IsGrown-none : (m : List T) → IsGrown m m []
  unfolding seen
  IsGrown-none m = record { kept = λ u h. h; added = λ u h. cc; closed = λ u h. inl h }

  pub seen-append :
      (u : T) (ts us : List T) → seen table u (ts ++ us) ≡ (seen table u ts || seen table u us)
  unfolding seen
  seen-append u [] us = refl
  seen-append u (t ∷ ts) us = ground (arith, seen-append u ts us)

  pub IsGrown-append :
      {m l m' : List T} (ts us : List T)
      → IsGrown m l ts
      → IsGrown l m' us
      → IsGrown m m' (ts ++ us)
  IsGrown-append {m} {l} {m'} ts us a b = record {
    kept = λ u h. b.kept u (a.kept u h);
    added = λ u h. ground (arith, seen-append u ts us, a.added u, b.kept u, b.added u);
    closed = λ u h. elim (b.closed u h) [
      | inr done ↦ inr done
      | inl before ↦ elim (a.closed u before) [
        | inl old ↦ inl old
        | inr (valid, parts) ↦ inr (valid, λ v p. b.kept v (parts v p))
      ]
    ];
  }

  -- The types that the map leaves out.
  abbrev pub left_out : List T → List T → ℕ
  left_out every m = count_by (λ u. not (seen table u m)) every

  pub left_out-Within : (every m m' : List T) → Within m m' → left_out every m' ≤ left_out every m
  left_out-Within [] m m' h = omega arith
  left_out-Within (u ∷ us) m m' h = ground (arith, h u, left_out-Within us m m' h)

  pub Within-cons : (t : T) (m : List T) → Within m (t ∷ m)
  unfolding seen
  Within-cons t m u h = ground arith

  -- A new type in the map is one that was left out.
  pub left_out-cons :
      (every m : List T) (t : T)
      → ((u v : T) → (table.same u v ≡ true) ↔ (u ≡ v))
      → seen table t every ≡ true
      → seen table t m ≡ false
      → left_out every (t ∷ m) < left_out every m
  unfolding seen
  left_out-cons [] m t same listed new = cc
  left_out-cons (u ∷ us) m t same listed new = elim (Bool-cases (table.same u t)) [
    | inl e ↦
        let here = (same t u).1 (sym ((same u t).0 e)) in
        let fresh = ap (λ x. seen table x m) ((same u t).0 e) ∙ new in
        ground (arith, here, fresh, left_out-Within us m (t ∷ m) (Within-cons t m))
    | inr e ↦ ground (arith, Within-cons t m u, left_out-cons us m t same)
  ]

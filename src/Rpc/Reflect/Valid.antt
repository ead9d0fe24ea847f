-- ===== src/Rpc/Reflect/Valid.antt =====
-- validType against the specification by reachability.
use dropbox_for_ctf.Base.{
  ℕ, zero, suc, ◌<◌, ◌≡◌, refl, sym, ◌⊎◌, inl, inr, Bool, true, false, List, [], ◌∷◌, ◌++◌, map,
  arith, count_by, Bool-cases,
}
use mathlib.Core.Path.{subst}
use dropbox_for_ctf.Text.{Bytes}
use dropbox_for_ctf.Rpc.Reflect.{
  Shape, scalar, array, slice, mapping, struct, TypeTable, Verdict, fine, bad, starved, context,
  and_then, seen, check_fields, check_parts, visit, valid_kind, valid_type_helper, valid_type,
}
use dropbox_for_ctf.Rpc.Reflect.Spec.{children, IsTable, Contains, itself, part, IsSendable}
use dropbox_for_ctf.Rpc.Reflect.Growth.{
  IsDone, IsGrown, IsGrown-none, IsGrown-append, seen-append, left_out, left_out-Within,
  left_out-cons, Within-cons,
}

module _ {T : Type 0} (table : TypeTable T) (every : List T) (lawful : IsTable table every) where
  Contains-prepend :
      {t c u : T}
      → seen table c (children (table.shape t)) ≡ true
      → Contains table c u
      → Contains table t u
  Contains-prepend child itself = part itself child
  Contains-prepend child (part p last) = part (Contains-prepend child p) last

  -- What a verdict on the types `ts` from the map `m` says; there is always one.
  abbrev Explains : List T → List T → Verdict T → Type 0
  Explains m ts (fine m') = IsGrown table m m' ts
  Explains m ts (bad e) =
      (t : T) × (u : T) × (seen table t ts ≡ true)
      × Contains table t u
      × (valid_kind (table.shape u) ≡ false)
  Explains m ts starved = ⊥

  Explains-context :
      (m ts : List T) (text : Bytes) (v : Verdict T)
      → Explains m ts v
      → Explains m ts (context text v)
  unfolding context
  Explains-context m ts text (fine m') h = h
  Explains-context m ts text (bad e) h = h
  Explains-context m ts text starved h = h

  Explains-after :
      (m l ts us : List T) (v : Verdict T)
      → IsGrown table m l ts
      → Explains l us v
      → Explains m (ts ++ us) v
  Explains-after m l ts us (fine m') g h = IsGrown-append table ts us g h
  Explains-after m l ts us (bad e) g (t, u, there, down, broken) =
      (t, u, ground (arith, there, seen-append table t ts us), down, broken)
  Explains-after m l ts us starved g h = h

  Explains-and_then :
      (m ts us : List T) (v : Verdict T) (f : List T → Verdict T)
      → Explains m ts v
      → ((l : List T) → IsGrown table m l ts → Explains l us (f l))
      → Explains m (ts ++ us) (and_then v f)
  unfolding and_then
  Explains-and_then m ts us (fine l) f h k = Explains-after m l ts us (f l) h (k l h)
  Explains-and_then m ts us (bad e) f (t, u, there, down, broken) k =
      (t, u, ground (arith, there, seen-append table t ts us), down, broken)
  Explains-and_then m ts us starved f h k = h

  module _ (n : ℕ) (deeper : List T → T → Verdict T)
      (inner : (m : List T) (t : T)
        → left_out table every m < n
        → Explains m (t ∷ []) (deeper m t)) where
    grown-lt :
        (m l ts : List T)
        → left_out table every m < n
        → IsGrown table m l ts
        → left_out table every l < n
    grown-lt m l ts h g = omega (arith, h, left_out-Within table every m l g.kept)

    check_fields-Explains :
        (m : List T) (fields : List (Bytes × T))
        → left_out table every m < n
        → Explains m (map (λ (f : Bytes × T). f.1) fields) (check_fields table deeper m fields)
    unfolding check_fields
    check_fields-Explains m [] h = IsGrown-none table m
    check_fields-Explains m ((field, t) ∷ fields) h =
        Explains-and_then m (t ∷ []) (map (λ (f : Bytes × T). f.1) fields) _ _
          (Explains-context m (t ∷ []) _ (deeper m t) (inner m t h))
          λ l g. check_fields-Explains l fields (grown-lt m l (t ∷ []) h g)

    check_parts-Explains :
        (m : List T) (s : Shape T)
        → left_out table every m < n
        → Explains m (children s) (check_parts table deeper m s)
    unfolding check_parts
    check_parts-Explains m (scalar k) h = IsGrown-none table m
    check_parts-Explains m (array t) h = Explains-context m (t ∷ []) _ (deeper m t) (inner m t h)
    check_parts-Explains m (slice t) h = Explains-context m (t ∷ []) _ (deeper m t) (inner m t h)
    check_parts-Explains m (mapping k e) h =
        Explains-and_then m (k ∷ []) (e ∷ []) _ _
          (Explains-context m (k ∷ []) _ (deeper m k) (inner m k h))
          λ l g. Explains-context l (e ∷ []) _ (deeper l e) (inner l e (grown-lt m l (k ∷ []) h g))
    check_parts-Explains m (struct fields) h = check_fields-Explains m fields h

  only : (t u : T) → seen table u (t ∷ []) ≡ true → t ≡ u
  unfolding seen
  only t u h = (lawful.same_iff t u).0 (ground (arith, h))

  seen-cons : (t : T) (m : List T) → seen table t (t ∷ m) ≡ true
  unfolding seen
  seen-cons t m = ground (arith, (lawful.same_iff t t).1 refl)

  -- The parts of a type are explained, so the type is.
  Explains-parts :
      (m : List T) (t : T) (v : Verdict T)
      → valid_kind (table.shape t) ≡ true
      → Explains (t ∷ m) (children (table.shape t)) v
      → Explains m (t ∷ []) v
  Explains-parts m t (fine m') valid g = record {
    kept = λ u h. g.kept u (Within-cons table t m u h);
    added = λ u h. g.kept u (subst (λ x. seen table x (t ∷ m) ≡ true) (only t u h) (seen-cons t m));
    closed = λ u h. elim (g.closed u h) [
      | inr done ↦ inr done
      | inl before ↦ elim (Bool-cases (seen table u m)) [
        | inl old ↦ inl old
        | inr new ↦
            let same : t ≡ u = only t u (unfold seen in ground (arith, before, new)) in
            inr (subst (IsDone table m') same (valid, g.added))
      ]
    ];
  }
  Explains-parts m t (bad e) valid (c, u, child, down, broken) =
      (t, u, seen-cons t [], Contains-prepend child down, broken)
  Explains-parts m t starved valid h = h

  visit-Explains :
      (n : ℕ) (deeper : List T → T → Verdict T)
      → ((m : List T) (t : T) → left_out table every m < n → Explains m (t ∷ []) (deeper m t))
      → (m : List T) (t : T) → left_out table every m < suc n
      → (known allowed : Bool) → seen table t m ≡ known
      → valid_kind (table.shape t) ≡ allowed
      → Explains m (t ∷ []) (visit table deeper m t known allowed)
  unfolding visit
  visit-Explains n deeper inner m t h true allowed e f = record {
    kept = λ u k. k;
    added = λ u k. subst (λ x. seen table x m ≡ true) (only t u k) e;
    closed = λ u k. inl k;
  }
  visit-Explains n deeper inner m t h false false e f = (t, t, seen-cons t [], itself, f)
  visit-Explains n deeper inner m t h false true e f = Explains-parts m t _ f (
      check_parts-Explains n deeper inner (t ∷ m) (table.shape t)
        (omega (arith, h, left_out-cons table every m t lawful.same_iff (lawful.listed t) e)))

  valid_type_helper-Explains :
      (fuel : ℕ) (m : List T) (t : T)
      → left_out table every m < fuel
      → Explains m (t ∷ []) (valid_type_helper table fuel m t)
  unfolding valid_type_helper
  valid_type_helper-Explains zero m t h = absurd (omega arith)
  valid_type_helper-Explains (suc fuel) m t h =
      visit-Explains fuel (valid_type_helper table fuel) (valid_type_helper-Explains fuel) m t h _ _
        refl refl

  -- From an empty map, what is in the map at the end is done.
  done :
      (m : List T) (t : T)
      → IsGrown table [] m (t ∷ [])
      → (u : T) → seen table u m ≡ true
      → IsDone table m u
  unfolding seen
  done m t g u h = elim (g.closed u h) [ inl before ↦ cc before | inr d ↦ d ]

  contained :
      (m : List T) (t u : T)
      → IsGrown table [] m (t ∷ [])
      → Contains table t u
      → seen table u m ≡ true
  contained m t u g itself = g.added t (seen-cons t [])
  contained m t u g (part {u = w} p last) = (done m t g w (contained m t w g p)).1 u last

  decided :
      (t : T) (v : Verdict T)
      → Explains [] (t ∷ []) v
      → ((m : List T) × (v ≡ fine m) × IsSendable table t)
        ⊎ ((e : Bytes) × (v ≡ bad e) × ¬ IsSendable table t)
  decided t (fine m) g = inl (m, refl, λ u p. (done m t g u (contained m t u g p)).0)
  decided t (bad e) (c, u, there, down, broken) = inr (
    e,
    refl,
    λ all. cc (broken, all u (subst (λ x. Contains table x u) (sym (only t c there)) down)),
  )
  decided t starved h = absurd h

  -- With more fuel than the program has types, `validType` ends: without an error if no type that the
  -- type is built from is a channel, a function, an interface or a pointer, and with an error
  -- otherwise, also where types are built from themselves.
  pub valid_type_decides :
      (fuel : ℕ) (t : T)
      → count_by (λ (_ : T). true) every < fuel
      → ((m : List T) × (valid_type table fuel t ≡ fine m) × IsSendable table t)
        ⊎ ((e : Bytes) × (valid_type table fuel t ≡ bad e) × ¬ IsSendable table t)
  unfolding valid_type seen
  valid_type_decides fuel t enough =
      decided t (valid_type_helper table fuel [] t) (valid_type_helper-Explains fuel [] t enough)

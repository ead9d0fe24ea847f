-- ===== src/Rpc/Reflect.antt =====
-- lib/support/rpc/reflect.go: which types a handler may have, and what a handler keeps of its own.
pub mod Spec
pub mod Growth
pub mod Valid
use dropbox_for_ctf.Base.{
  ℕ, zero, suc, Bool, true, false, ◌||◌, Option, none, some, List, [], ◌∷◌, ◌++◌,
}
use dropbox_for_ctf.Text.{Bytes, lit}
use dropbox_for_ctf.FilePath.{Result, ok, err}

-- The kinds of `reflect` without parts that `validTypeHelper` looks at.
pub data Kind : Type 0 where
  bool int int8 int16 int32 int64 uint uint8 uint16 uint32 uint64 uintptr : Kind
  float32 float64 complex64 complex128 string unsafe_pointer : Kind
  chan func interface ptr : Kind

-- What `reflect` tells of a type: its kind, and of the composite kinds the types of the parts.
pub data Shape (T : Type 0) : Type 0 where
  scalar : Kind → Shape T
  array slice : T → Shape T
  -- key, then element
  mapping : T → T → Shape T
  -- names and types of the fields
  struct : List (Bytes × T) → Shape T

-- `validKinds[k]`
unfoldable pub valid_scalar : Kind → Bool
valid_scalar chan = false
valid_scalar func = false
valid_scalar interface = false
valid_scalar ptr = false
valid_scalar _ = true

-- `validKinds[typ.Kind()]`
unfoldable pub valid_kind : {T : Type 0} → Shape T → Bool
unfolding valid_scalar
valid_kind (scalar k) = valid_scalar k
valid_kind (array t) = true
valid_kind (slice t) = true
valid_kind (mapping k e) = true
valid_kind (struct fields) = true

-- The types of a program, as `reflect` shows them.
pub record TypeTable (T : Type 0) : Type 0 where
  pub shape : T → Shape T
  -- `==` on `reflect.Type`
  pub same : T → T → Bool
  -- `%v`
  pub type_name : T → Bytes

-- How `validTypeHelper` ends: without an error, and the map `m` as it is then; with an error; or,
-- in the model alone, out of fuel.
pub data Verdict (T : Type 0) : Type 0 where
  fine : List T → Verdict T
  bad : Bytes → Verdict T
  starved : Verdict T

-- `fmt.Errorf("…: %v", err)`
unfoldable pub context : {T : Type 0} → Bytes → Verdict T → Verdict T
context text (fine m) = fine m
context text (bad e) = bad (text ++ e)
context text starved = starved

-- `if err != nil { return … }`
unfoldable pub and_then : {T : Type 0} → Verdict T → (List T → Verdict T) → Verdict T
and_then (fine m) f = f m
and_then (bad e) f = bad e
and_then starved f = starved

module _ {T : Type 0} (table : TypeTable T) where
  -- `m[typ]`, for the list of the keys
  unfoldable pub seen : T → List T → Bool
  seen t [] = false
  seen t (u ∷ m) = table.same u t || seen t m

  unfoldable pub check_fields : (List T → T → Verdict T) → List T → List (Bytes × T) → Verdict T
  unfolding context and_then
  check_fields deeper m [] = fine m
  check_fields deeper m ((field, t) ∷ fields) =
      and_then (context (lit "struct field " ++ field ++ lit ": ") (deeper m t))
        λ m'. check_fields deeper m' fields

  -- The `switch` of `validTypeHelper`.
  unfoldable pub check_parts : (List T → T → Verdict T) → List T → Shape T → Verdict T
  unfolding context and_then check_fields
  check_parts deeper m (scalar k) = fine m
  check_parts deeper m (array t) = context (lit "bad slice or array element type: ") (deeper m t)
  check_parts deeper m (slice t) = context (lit "bad slice or array element type: ") (deeper m t)
  check_parts deeper m (mapping k e) =
      and_then (context (lit "bad map key type: ") (deeper m k))
        λ m'. context (lit "bad map value type: ") (deeper m' e)
  check_parts deeper m (struct fields) = check_fields deeper m fields

  -- One call of `validTypeHelper`, given `m[typ]`, `validKinds[typ.Kind()]` and the calls inside it.
  unfoldable pub visit : (List T → T → Verdict T) → List T → T → (known allowed : Bool) → Verdict T
  unfolding check_parts
  visit deeper m t true allowed = fine m
  visit deeper m t false false = bad (lit "cannot handle type: " ++ table.type_name t)
  visit deeper m t false true = check_parts deeper (t ∷ m) (table.shape t)

  unfoldable pub valid_type_helper : ℕ → List T → T → Verdict T
  unfolding visit seen valid_kind
  valid_type_helper zero m t = starved
  valid_type_helper (suc fuel) m t =
      visit (valid_type_helper fuel) m t (seen t m) (valid_kind (table.shape t))

  unfoldable pub valid_type : ℕ → T → Verdict T
  unfolding valid_type_helper
  valid_type fuel t = valid_type_helper fuel [] t

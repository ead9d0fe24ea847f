-- ===== src/Rpc/Reflect/Spec.antt =====
-- What validType is about, by reachability: the types that a type is built from.
use dropbox_for_ctf.Base.{◌≡◌, ◌↔◌, true, List, [], ◌∷◌, map}
use dropbox_for_ctf.Text.{Bytes}
use dropbox_for_ctf.Rpc.Reflect.{
  Shape, scalar, array, slice, mapping, struct, TypeTable, seen, valid_kind,
}

-- The types of the parts.
abbrev pub children : {T : Type 0} → Shape T → List T
children (scalar k) = []
children (array t) = t ∷ []
children (slice t) = t ∷ []
children (mapping k e) = k ∷ e ∷ []
children (struct fields) = map (λ (f : Bytes × _). f.1) fields

-- `same` is equality, and `every` has each type of the program.
pub record IsTable {T : Type 0} (table : TypeTable T) (every : List T) : Type 0 where
  pub same_iff : (t u : T) → (table.same t u ≡ true) ↔ (t ≡ u)
  pub listed : (t : T) → seen table t every ≡ true

module _ {T : Type 0} (table : TypeTable T) where
  -- The second type is a part of a part … of the first one.
  pub data Contains (t : T) : T → Type 0 where
    itself : Contains t t
    part : {u v : T} → Contains t u → seen table v (children (table.shape u)) ≡ true → Contains t v

  -- No type that the type is built from is a channel, a function, an interface or a pointer.
  abbrev pub IsSendable : T → Type 0
  IsSendable t = (u : T) → Contains t u → valid_kind (table.shape u) ≡ true

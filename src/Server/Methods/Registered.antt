-- ===== src/Server/Methods/Registered.antt =====
-- What main's registrations leave in the registry.
use dropbox_for_ctf.Base.{ℕ, ◌≡◌, refl, none, some, []}
use dropbox_for_ctf.Text.{lit, str_eq}
use dropbox_for_ctf.Go.{next, ◌>>=◌}
use dropbox_for_ctf.Store.{Host, World}
use dropbox_for_ctf.Rpc.Reflect.{
  valid_type, visit, check_parts, check_fields, context, and_then, valid_kind, valid_scalar, seen,
}
use dropbox_for_ctf.Rpc.Dispatch.{
  Registry, register_handler, register_finalizer, get_handler, result_type, check_ins,
  require_valid, or_panic, find_handler,
}
use dropbox_for_ctf.Server.Lifecycle.{finalizer}
use dropbox_for_ctf.Server.Methods.{GoType, Value}
use dropbox_for_ctf.Server.Methods.Table.{register_all, methods}

-- The registry of a new process.
abbrev pub unregistered : {S : Type 0} → Registry GoType Value (World S)
unregistered = record { handlers = []; finalizer = none }

module _ {S : Type 0} (host : Host S) (fuel : ℕ) where
  -- What the registrations of `main` leave.
  abbrev pub registered : Registry GoType Value (World S)
  registered = record { handlers = methods host fuel; finalizer = some (finalizer host) }

  -- In a new process the registrations of `main` all succeed, and leave the twelve methods and the
  -- finalizer in the registry, in the order of the registrations.
  pub register_all-methods :
      {R : Type 0} → register_all host fuel {R = R} 11 unregistered ≡ next tt registered
  unfolding register_all register_handler register_finalizer get_handler result_type check_ins
      require_valid or_panic find_handler valid_type visit check_parts check_fields context and_then
      valid_kind valid_scalar seen str_eq lit methods ◌>>=◌
  register_all-methods = refl

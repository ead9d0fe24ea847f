-- ===== src/Rpc/Register.antt =====
-- RegisterHandler: which functions it takes.
use dropbox_for_ctf.Base.{
  ℕ, ◌≤◌, ◌<◌, ◌≡◌, ◌↔◌, refl, ◌∙◌, ◌⊎◌, inl, inr, Bool, true, false, not, Option, none, some, List,
  [], ◌∷◌, ◌++◌, arith, count_by, All, Bool-cases,
}
use dropbox_for_ctf.Text.{Bytes}
use dropbox_for_ctf.FilePath.{Result, ok, err}
use dropbox_for_ctf.Go.{Outcome, next, ret, exit, Body, ◌>>=◌, return_if, return, pure}
use dropbox_for_ctf.Go.Step.{bind-next, bind-ret}
use dropbox_for_ctf.Rpc.Reflect.{TypeTable, valid_type}
use dropbox_for_ctf.Rpc.Reflect.Spec.{IsTable, IsSendable}
use dropbox_for_ctf.Rpc.Reflect.Valid.{valid_type_decides}
use dropbox_for_ctf.Rpc.Dispatch.{
  Function, Handler, Registry, count_of, find_handler, require_valid, result_type, check_ins,
  get_handler, register_handler, or_panic, is_some,
}

abbrev pub first_of : {A : Type 0} → List A → Option A
first_of [] = none
first_of (a ∷ rest) = some a

module _ {T V W : Type 0} (table : TypeTable T) where
  -- What `RegisterHandler` asks for in its comment.
  pub record IsHandler (f : Function T V W) : Type 0 where
    pub function : f.is_func ≡ true
    pub fixed : f.variadic ≡ false
    pub few : count_of f.outs ≤ 1
    pub outs : All (IsSendable table) f.outs
    pub ins : All (IsSendable table) f.ins

  abbrev pub handler_of : Function T V W → Handler T V W
  handler_of f = record { f = f.body; args = f.ins; ret = first_of f.outs }

module _ {T : Type 0} (table : TypeTable T) (every : List T) (lawful : IsTable table every)
    (fuel : ℕ) (enough : count_by (λ (_ : T). true) every < fuel) where
  -- A check that goes on just where `P` holds, and returns an error otherwise.
  abbrev Tells : {X R A : Type 0} → Type 0 → A → X → Outcome X (Result R) A → Type 0
  Tells {X} {R} {A} P a x o = (P × (o ≡ next a x)) ⊎ (¬ P × ((e : Bytes) × (o ≡ ret (err e) x)))

  Tells-bind :
      {X R A B : Type 0} {P Q : Type 0} (a : A) (b : B) (x : X) (m : Body X (Result R) A)
      (f : A → Body X (Result R) B)
      → Tells P a x (m x)
      → Tells Q b x (f a x)
      → Tells (P × Q) b x ((m >>= f) x)
  Tells-bind a b x m f (inl (p, e)) (inl (q, g)) = inl ((p, q), bind-next m f e ∙ g)
  Tells-bind a b x m f (inl (p, e)) (inr (no_q, (why, g))) =
      inr ((λ h. no_q h.1), (why, bind-next m f e ∙ g))
  Tells-bind a b x m f (inr (no_p, (why, e))) t = inr ((λ h. no_p h.0), (why, bind-ret m f e))

  Tells-iff :
      {X R A : Type 0} {P Q : Type 0} {a : A} {x : X} (o : Outcome X (Result R) A)
      → P ↔ Q
      → Tells P a x o
      → Tells Q a x o
  Tells-iff o iff (inl (p, e)) = inl (iff.0 p, e)
  Tells-iff o iff (inr (no_p, why)) = inr ((λ q. no_p (iff.1 q)), why)

  -- `if refuse { return h, text }`
  return_if-Tells :
      {X R : Type 0} (refuse : Bool) (text : Bytes) (x : X)
      → Tells {R = R} (refuse ≡ false) tt x (return_if refuse (err text) x)
  unfolding return_if
  return_if-Tells true text x = inr ((λ h. cc h), (text, refl))
  return_if-Tells false text x = inl (refl, refl)

  require_valid-Tells :
      {X R : Type 0} (text : Bytes) (t : T) (x : X)
      → Tells {R = R} (IsSendable table t) tt x (require_valid text (valid_type table fuel t) x)
  unfolding require_valid return pure
  require_valid-Tells text t x = elim (valid_type_decides table every lawful fuel t enough) [
    | inl (m, e, good) ↦ inl (good, rw e refl)
    | inr (why, e, evil) ↦ inr (evil, (text ++ why, rw e refl))
  ]

  check_ins-Tells :
      {X R : Type 0} (ts : List T) (x : X)
      → Tells {R = R} (All (IsSendable table) ts) tt x (check_ins table fuel ts x)
  unfolding check_ins pure
  check_ins-Tells [] x = inl (tt, refl)
  check_ins-Tells {X} {R} (t ∷ ts) x =
      Tells-bind tt tt x _ _ (require_valid-Tells {R = R} [] t x) (check_ins-Tells {R = R} ts x)

  -- With no result or one, which is sent.
  result_type-Tells :
      {X R : Type 0} (ts : List T) (x : X)
      → Tells {R = R}
          ((count_of ts ≤ 1) × All (IsSendable table) ts)
          (first_of ts)
          x
          (result_type table fuel ts x)
  unfolding result_type pure return
  result_type-Tells [] x = inl ((omega arith, tt), refl)
  result_type-Tells {X} {R} (t ∷ []) x =
      Tells-iff _ (λ h. (omega arith, (h.0, tt)), λ h. (h.1.0, tt))
        (Tells-bind tt (some t) x _ _ (require_valid-Tells {R = R} _ t x) (inl (tt, refl)))
  result_type-Tells (t ∷ u ∷ ts) x = inr ((λ h. absurd (omega (arith, h.0))), (_, refl))

  module _ {V W : Type 0} where
    get_handler-Tells :
        {X : Type 0} (f : Function T V W) (x : X)
        → Tells {R = Handler T V W}
            (IsHandler table f)
            (ok (handler_of table f))
            x
            (get_handler table fuel f x)
    unfolding get_handler pure
    get_handler-Tells f x =
        Tells-iff _
          (
            λ h. record {
              function = ground (arith, h.0);
              fixed = h.1.1.0;
              few = h.1.0.0;
              outs = h.1.0.1;
              ins = h.1.1.1.0;
            },
            λ h. (ground (arith, h.function), ((h.few, h.outs), (h.fixed, (h.ins, tt)))),
          )
          (Tells-bind tt (ok (handler_of table f)) x _ _ (return_if-Tells (not f.is_func) _ x) (
            Tells-bind (first_of f.outs) (ok (handler_of table f)) x _ _
              (result_type-Tells f.outs x)
              (Tells-bind tt (ok (handler_of table f)) x _ _ (return_if-Tells f.variadic _ x) (
                Tells-bind tt (ok (handler_of table f)) x _ _ (check_ins-Tells f.ins x)
                  (inl (tt, refl))))))

    -- `RegisterHandler` takes a function under a name that is free, if it is a function that takes a fixed
    -- number of arguments and returns at most one value, and no type of these has a channel, a function, an
    -- interface or a pointer in it. It panics on everything else, and then leaves the registry as it was.
    pub register_handler_decides :
        {R : Type 0} (name : Bytes) (f : Function T V W) (r : Registry T V W)
        → ((is_some (find_handler name r.handlers) ≡ false)
            × IsHandler table f
            × (register_handler table fuel {R = R} name f r
                ≡ next tt (record r { handlers = r.handlers ++ (name, handler_of table f) ∷ [] })))
          ⊎ (¬ ((is_some (find_handler name r.handlers) ≡ false) × IsHandler table f)
              × (register_handler table fuel {R = R} name f r ≡ exit r))
    unfolding register_handler or_panic ◌>>=◌
    register_handler_decides name f r = elim (Bool-cases (is_some (find_handler name r.handlers))) [
      | inl taken ↦ inr ((λ h. cc (h.0, taken)), ground (arith, taken))
      | inr free ↦ elim (get_handler-Tells f r) [
        | inl (good, e) ↦ inl (free, good, ground (arith, free, e))
        | inr (evil, (why, e)) ↦ inr ((λ h. evil h.1), ground (arith, free, e))
      ]
    ]

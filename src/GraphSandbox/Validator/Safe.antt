-- ===== src/GraphSandbox/Validator/Safe.antt =====
-- What the validator of src/krewhub/services/graph_sandbox/validator.py lets through.
use text.Mathlib.Text.{starts_with}
use krewhub.Prelude.{
  ℕ, String, ◌≡◌, refl, Bool, true, false, Option, none, some, List, [], ◌∷◌, ◌++◌, ◌||◌, arith,
  if◌then◌else◌, eq_iff, All,
}
use krewhub.GraphSandbox.Syntax.{
  Context, load, store, del, Node, Nodes, disallowed, function_def, async_function_def, name,
  attribute, call, assign, ann_assign, subscript, joined_str, formatted_value, other, nil, cons,
  lineno, name_id,
}
use krewhub.GraphSandbox.Validator.{
  injected_names, allowed_builtins, banned_names, local_names, mem, Reason, banned_identifier,
  disallowed_construct, not_async, private_attribute, banned_attribute, unknown_name, bad_decorator,
  bad_target, Visitor, flag, define, check_name, is_banned, is_step_decorator, check_decorators,
  check_target, check_targets, check_ann_target, is_known, visit_name, visit, visit_all,
}

-- The names that code may read, where `D` are those that the module binds.
abbrev pub is_readable : (String → Bool) → String → Bool
is_readable D id = mem id injected_names || mem id allowed_builtins || D id || mem id local_names

-- A name that is bound, or nothing where the target is no name.
abbrev pub IsBindable : Option String → Type 0
IsBindable (some id) = is_banned id ≡ false
IsBindable none = Unit

abbrev pub IsPlainTarget : Option String → Type 0
IsPlainTarget (some id) = is_banned id ≡ false
IsPlainTarget none = ⊥

abbrev pub ArePlainTargets : Nodes → Type 0
ArePlainTargets nil = Unit
ArePlainTargets (cons t rest) = IsPlainTarget (name_id t) × ArePlainTargets rest

abbrev pub AreStepDecorators : Nodes → Type 0
AreStepDecorators nil = Unit
AreStepDecorators (cons d rest) = (is_step_decorator d ≡ true) × AreStepDecorators rest

abbrev pub IsSafeName : (String → Bool) → String → Context → Type 0
IsSafeName D id load = (is_banned id ≡ false) × (is_readable D id ≡ true)
IsSafeName D id store = is_banned id ≡ false
IsSafeName D id del = is_banned id ≡ false

-- No disallowed construct and no plain function stands in the code, no name node and no async
-- function has a banned name, every name node that is read is known, no attribute is private or
-- banned, functions have no decorator but @g.step and targets of assignments are names. Left out
-- are the target of an annotated assignment to what is no name, and the identifiers that other
-- nodes hold: those of parameters, keyword arguments and type parameters.
unfoldable mutual
  pub IsSafe : (String → Bool) → Node → Type 0
  IsSafe D (disallowed line kind children) = ⊥
  IsSafe D (function_def line id children) = ⊥
  IsSafe D (async_function_def line id args body decorators rest) =
      (is_banned id ≡ false)
      × AreStepDecorators decorators
      × AreSafe D args
      × AreSafe D body
      × AreSafe D decorators
      × AreSafe D rest
  IsSafe D (name line id ctx) = IsSafeName D id ctx
  IsSafe D (attribute line value attr) =
      (starts_with attr "_" ≡ false) × (mem attr banned_names ≡ false) × IsSafe D value
  IsSafe D (call line func args) = IsSafe D func × AreSafe D args
  IsSafe D (assign line targets value) = ArePlainTargets targets × IsSafe D value
  IsSafe D (ann_assign line target annotation value) =
      IsBindable (name_id target) × IsSafe D annotation × AreSafe D value
  IsSafe D (subscript line value slice) = IsSafe D value × IsSafe D slice
  IsSafe D (joined_str line values) = AreSafe D values
  IsSafe D (formatted_value line value format) = IsSafe D value × AreSafe D format
  IsSafe D (other line kind names children) = AreSafe D children

  pub AreSafe : (String → Bool) → Nodes → Type 0
  AreSafe D nil = Unit
  AreSafe D (cons node rest) = IsSafe D node × AreSafe D rest

-- No violation so far, and every name that was bound is one of D.
abbrev pub Good : (String → Bool) → Visitor → Type 0
Good D v =
    (v.violations ≡ [])
    × All (λ id. D id ≡ true) v.defined_names
    × All (λ id. D id ≡ true) v.step_funcs

pub snoc-ne-nil {ℓ} : {A : Type ℓ} (xs : List A) (x : A) → xs ++ x ∷ [] ≡ [] → ⊥
snoc-ne-nil [] x h = cc
snoc-ne-nil (y ∷ xs) x h = cc

module _ (D : String → Bool) where
  Good-flag : (line : Option ℕ) (reason : Reason) (v : Visitor) → Good D (flag line reason v) → ⊥
  unfolding flag
  Good-flag line reason v h = snoc-ne-nil v.violations (record { line = line; reason = reason }) h.0

  -- A test that flags where it fails.
  Good-unless :
      (b : Bool) (line : Option ℕ) (reason : Reason) (v : Visitor)
      → Good D (if b then v else flag line reason v)
      → Good D v × (b ≡ true)
  Good-unless true line reason v h = (h, refl)
  Good-unless false line reason v h = absurd (Good-flag line reason v h)

  -- A test that flags where it succeeds.
  Good-if :
      (b : Bool) (line : Option ℕ) (reason : Reason) (v w : Visitor)
      → Good D (if b then flag line reason v else w)
      → Good D w × (b ≡ false)
  Good-if true line reason v w h = absurd (Good-flag line reason v h)
  Good-if false line reason v w h = (h, refl)

  mem-All :
      (id : String) (ids : List String)
      → All (λ j. D j ≡ true) ids
      → mem id ids ≡ true
      → D id ≡ true
  mem-All id [] h e = cc
  mem-All id (j ∷ ids) h e = ground (arith, eq_iff j id, mem-All id ids h.1)

  Good-check_name :
      (line : Option ℕ) (id : String) (v : Visitor)
      → Good D (check_name line id v)
      → Good D v × (is_banned id ≡ false)
  unfolding check_name
  Good-check_name line id v h = Good-if (is_banned id) line (banned_identifier id) v v h

  Good-check_decorators :
      (ds : Nodes) (v : Visitor) → Good D (check_decorators ds v) → Good D v × AreStepDecorators ds
  unfolding check_decorators
  Good-check_decorators nil v h = (h, tt)
  Good-check_decorators (cons d rest) v h =
      let (g, more) = Good-check_decorators rest _ h in
      let (g', e) = Good-unless (is_step_decorator d) (lineno d) bad_decorator v g in
      (g', (e, more))

  Good-define : (id : String) (v : Visitor) → Good D (define id v) → Good D v
  unfolding define
  Good-define id v h = (h.0, h.1.1, h.2)

  Good-check_target :
      (line : Option ℕ) (id : Option String) (v : Visitor)
      → Good D (check_target line id v)
      → Good D v × IsPlainTarget id
  Good-check_target line (some id) v h =
      let (g, e) = Good-check_name line id (define id v) h in (Good-define id v g, e)
  Good-check_target line none v h = absurd (Good-flag line bad_target v h)

  Good-check_targets :
      (ts : Nodes) (v : Visitor) → Good D (check_targets ts v) → Good D v × ArePlainTargets ts
  unfolding check_targets
  Good-check_targets nil v h = (h, tt)
  Good-check_targets (cons t rest) v h =
      let (g, more) = Good-check_targets rest _ h in
      let (g', e) = Good-check_target (lineno t) (name_id t) v g in (g', (e, more))

  Good-check_ann_target :
      (line : Option ℕ) (id : Option String) (v : Visitor)
      → Good D (check_ann_target line id v)
      → Good D v × IsBindable id
  Good-check_ann_target line (some id) v h =
      let (g, e) = Good-check_name line id (define id v) h in (Good-define id v g, e)
  Good-check_ann_target line none v h = (h, tt)

  -- A name that is known to the visitor is one of five kinds; two of them hold of names in D.
  known_cases :
      (a b c d e r : Bool)
      → (c ≡ true → r ≡ true)
      → (d ≡ true → r ≡ true)
      → (a || b || c || d || e) ≡ true
      → (a || b || r || e) ≡ true
  known_cases true b c d e r p q h = refl
  known_cases false true c d e r p q h = refl
  known_cases false false true d e r p q h = rw (p refl) refl
  known_cases false false false true e r p q h = rw (q refl) refl
  known_cases false false false false e r p q h = ground arith

  is_known-readable :
      (id : String) (v : Visitor) → Good D v → is_known id v ≡ true → is_readable D id ≡ true
  is_known-readable id v h e =
      known_cases (mem id injected_names) (mem id allowed_builtins) (mem id v.defined_names)
        (mem id v.step_funcs) (mem id local_names) (D id) (mem-All id v.defined_names h.1)
        (mem-All id v.step_funcs h.2) e

  Good-visit_name :
      (line : ℕ) (id : String) (ctx : Context) (v : Visitor)
      → Good D (visit_name line id ctx v)
      → Good D v × IsSafeName D id ctx
  unfolding visit_name
  Good-visit_name line id load v h =
      let v' = check_name (some line) id v in
      let (g, known) = Good-unless (is_known id v') (some line) (unknown_name id) v' h in
      let (g', e) = Good-check_name (some line) id v g in (g', (e, is_known-readable id v' g known))
  Good-visit_name line id store v h = Good-check_name (some line) id v h
  Good-visit_name line id del v h = Good-check_name (some line) id v h

  mutual
    unfolding visit IsSafe

    Good-visit : (n : Node) (v : Visitor) → Good D (visit n v) → Good D v × IsSafe D n
    Good-visit (disallowed line kind children) v h =
        absurd (Good-flag (some line) (disallowed_construct kind) v h)
    Good-visit (function_def line id children) v h =
        absurd (Good-flag (some line) (not_async id) v h)
    Good-visit (async_function_def line id args body decorators rest) v h =
        let (g4, s4) = Good-visit_all rest _ h in
        let (g3, s3) = Good-visit_all decorators _ g4 in
        let (g2, s2) = Good-visit_all body _ g3 in
        let (g1, s1) = Good-visit_all args _ g2 in
        let (g0, s0) = Good-check_decorators decorators _ g1 in
        let (g, e) = Good-check_name (some line) id v g0 in (g, (e, s0, s1, s2, s3, s4))
    Good-visit (name line id ctx) v h = Good-visit_name line id ctx v h
    Good-visit (attribute line value attr) v h =
        let (g1, e1) = Good-if (starts_with attr "_") (some line) (private_attribute attr) v _ h in
        let (g0, e0) = Good-if (mem attr banned_names) (some line) (banned_attribute attr) v _ g1 in
        let (g, s) = Good-visit value v g0 in (g, (e1, e0, s))
    Good-visit (call line func args) v h =
        let (g1, s1) = Good-visit_all args _ h in
        let (g0, s0) = Good-visit func v g1 in (g0, (s0, s1))
    Good-visit (assign line targets value) v h =
        let (g1, s1) = Good-visit value _ h in
        let (g0, s0) = Good-check_targets targets v g1 in (g0, (s0, s1))
    Good-visit (ann_assign line target annotation value) v h =
        let (g2, s2) = Good-visit_all value _ h in
        let (g1, s1) = Good-visit annotation _ g2 in
        let (g0, s0) = Good-check_ann_target (lineno target) (name_id target) v g1 in
        (g0, (s0, s1, s2))
    Good-visit (subscript line value slice) v h =
        let (g1, s1) = Good-visit slice _ h in
        let (g0, s0) = Good-visit value v g1 in (g0, (s0, s1))
    Good-visit (joined_str line values) v h = Good-visit_all values v h
    Good-visit (formatted_value line value format) v h =
        let (g1, s1) = Good-visit_all format _ h in
        let (g0, s0) = Good-visit value v g1 in (g0, (s0, s1))
    Good-visit (other line kind names children) v h = Good-visit_all children v h

    pub Good-visit_all :
        (ns : Nodes) (v : Visitor) → Good D (visit_all ns v) → Good D v × AreSafe D ns
    Good-visit_all nil v h = (h, tt)
    Good-visit_all (cons n rest) v h =
        let (g1, s1) = Good-visit_all rest _ h in let (g0, s0) = Good-visit n v g1 in (g0, (s0, s1))

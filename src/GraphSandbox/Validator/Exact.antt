-- ===== src/GraphSandbox/Validator/Exact.antt =====
-- Which code the validator of src/krewhub/services/graph_sandbox/validator.py accepts.
use text.Mathlib.Text.{starts_with}
use krewhub.Prelude.{
  ℕ, String, ◌≡◌, refl, Bool, true, false, Option, none, some, List, [], ◌∷◌, ◌++◌, if◌then◌else◌,
  All,
}
use krewhub.GraphSandbox.Syntax.{
  Context, load, store, del, Node, Nodes, disallowed, function_def, async_function_def, name,
  attribute, call, assign, ann_assign, subscript, joined_str, formatted_value, other, nil, cons,
  lineno, name_id,
}
use krewhub.GraphSandbox.Validator.{
  banned_names, mem, Reason, banned_identifier, private_attribute, banned_attribute, unknown_name,
  bad_decorator, Visitor, flag, define, define_step, check_name, is_banned, is_step_decorator,
  check_decorators, check_target, check_targets, check_ann_target, is_known, visit_name, visit,
  visit_all, define_target, define_targets, collect_stmt, collect, visit_module, fresh, judge,
  has_graph_assign, verdict, accepted, Violation, no_graph, Parsed, tree, validate_graph_code,
}
use krewhub.GraphSandbox.Validator.Safe.{AreSafe, Good-visit_all}

-- The names that an assignment binds are all in D.
abbrev pub BindsId : (String → Bool) → Option String → Type 0
BindsId D (some id) = D id ≡ true
BindsId D none = Unit

abbrev pub BindsTargets : (String → Bool) → Nodes → Type 0
BindsTargets D nil = Unit
BindsTargets D (cons t rest) = BindsId D (name_id t) × BindsTargets D rest

-- The names that the assignments anywhere in the code bind, and those of the functions at its top,
-- are all in D.
unfoldable mutual
  pub Binds : (String → Bool) → Node → Type 0
  Binds D (disallowed line kind children) = Unit
  Binds D (function_def line id children) = Unit
  Binds D (async_function_def line id args body decorators rest) =
      BindsAll D args × BindsAll D body × BindsAll D decorators × BindsAll D rest
  Binds D (name line id ctx) = Unit
  Binds D (attribute line value attr) = Binds D value
  Binds D (call line func args) = Binds D func × BindsAll D args
  Binds D (assign line targets value) = BindsTargets D targets × Binds D value
  Binds D (ann_assign line target annotation value) =
      BindsId D (name_id target) × Binds D annotation × BindsAll D value
  Binds D (subscript line value slice) = Binds D value × Binds D slice
  Binds D (joined_str line values) = BindsAll D values
  Binds D (formatted_value line value format) = Binds D value × BindsAll D format
  Binds D (other line kind names children) = BindsAll D children

  pub BindsAll : (String → Bool) → Nodes → Type 0
  BindsAll D nil = Unit
  BindsAll D (cons node rest) = Binds D node × BindsAll D rest

abbrev pub NamesFunction : (String → Bool) → Node → Type 0
NamesFunction D (async_function_def line id args body decorators rest) = D id ≡ true
NamesFunction D (function_def line id children) = D id ≡ true
NamesFunction D _ = Unit

abbrev pub NamesFunctions : (String → Bool) → Nodes → Type 0
NamesFunctions D nil = Unit
NamesFunctions D (cons stmt rest) = NamesFunction D stmt × NamesFunctions D rest

-- The names that the visitor took up are in D.
abbrev Within : (String → Bool) → Visitor → Type 0
Within D v = All (λ id. D id ≡ true) v.defined_names × All (λ id. D id ≡ true) v.step_funcs

module _ (D : String → Bool) where
  Within-flag_unless :
      (b : Bool) (line : Option ℕ) (reason : Reason) (v : Visitor)
      → Within D v
      → Within D (if b then v else flag line reason v)
  unfolding flag
  Within-flag_unless true line reason v h = h
  Within-flag_unless false line reason v h = h

  Within-flag_if :
      (b : Bool) (line : Option ℕ) (reason : Reason) (v w : Visitor)
      → Within D v
      → Within D w
      → Within D (if b then flag line reason v else w)
  unfolding flag
  Within-flag_if true line reason v w h k = h
  Within-flag_if false line reason v w h k = k

  Within-check_name :
      (line : Option ℕ) (id : String) (v : Visitor) → Within D v → Within D (check_name line id v)
  unfolding check_name
  Within-check_name line id v h = Within-flag_if (is_banned id) line (banned_identifier id) v v h h

  Within-check_decorators :
      (ds : Nodes) (v : Visitor) → Within D v → Within D (check_decorators ds v)
  unfolding check_decorators
  Within-check_decorators nil v h = h
  Within-check_decorators (cons d rest) v h =
      Within-check_decorators rest _
        (Within-flag_unless (is_step_decorator d) (lineno d) bad_decorator v h)

  Within-check_target :
      (line : Option ℕ) (id : Option String) (v : Visitor)
      → BindsId D id
      → Within D v
      → Within D (check_target line id v)
  unfolding define flag
  Within-check_target line (some id) v e h = Within-check_name line id _ ((e, h.0), h.1)
  Within-check_target line none v e h = h

  Within-check_targets :
      (ts : Nodes) (v : Visitor) → BindsTargets D ts → Within D v → Within D (check_targets ts v)
  unfolding check_targets
  Within-check_targets nil v b h = h
  Within-check_targets (cons t rest) v b h =
      Within-check_targets rest _ b.1 (Within-check_target (lineno t) (name_id t) v b.0 h)

  Within-check_ann_target :
      (line : Option ℕ) (id : Option String) (v : Visitor)
      → BindsId D id
      → Within D v
      → Within D (check_ann_target line id v)
  unfolding define
  Within-check_ann_target line (some id) v e h = Within-check_name line id _ ((e, h.0), h.1)
  Within-check_ann_target line none v e h = h

  Within-visit_name :
      (line : ℕ) (id : String) (ctx : Context) (v : Visitor)
      → Within D v
      → Within D (visit_name line id ctx v)
  unfolding visit_name
  Within-visit_name line id load v h =
      let v' = check_name (some line) id v in
      Within-flag_unless (is_known id v') (some line) (unknown_name id) v'
        (Within-check_name (some line) id v h)
  Within-visit_name line id store v h = Within-check_name (some line) id v h
  Within-visit_name line id del v h = Within-check_name (some line) id v h

  mutual
    unfolding visit Binds flag

    Within-visit : (n : Node) (v : Visitor) → Binds D n → Within D v → Within D (visit n v)
    Within-visit (disallowed line kind children) v b h = h
    Within-visit (function_def line id children) v b h = h
    Within-visit (async_function_def line id args body decorators rest) v b h =
        Within-visit_all rest _ b.3 (
          Within-visit_all decorators _ b.2 (
            Within-visit_all body _ b.1 (
              Within-visit_all args _ b.0
                (Within-check_decorators decorators _ (Within-check_name (some line) id v h)))))
    Within-visit (name line id ctx) v b h = Within-visit_name line id ctx v h
    Within-visit (attribute line value attr) v b h =
        Within-flag_if (starts_with attr "_") (some line) (private_attribute attr) v _ h (
          Within-flag_if (mem attr banned_names) (some line) (banned_attribute attr) v _ h
            (Within-visit value v b h))
    Within-visit (call line func args) v b h =
        Within-visit_all args _ b.1 (Within-visit func v b.0 h)
    Within-visit (assign line targets value) v b h =
        Within-visit value _ b.1 (Within-check_targets targets v b.0 h)
    Within-visit (ann_assign line target annotation value) v b h = Within-visit_all value _ b.2 (
        Within-visit annotation _ b.1
          (Within-check_ann_target (lineno target) (name_id target) v b.0 h))
    Within-visit (subscript line value slice) v b h =
        Within-visit slice _ b.1 (Within-visit value v b.0 h)
    Within-visit (joined_str line values) v b h = Within-visit_all values v b h
    Within-visit (formatted_value line value format) v b h =
        Within-visit_all format _ b.1 (Within-visit value v b.0 h)
    Within-visit (other line kind names children) v b h = Within-visit_all children v b h

    Within-visit_all :
        (ns : Nodes) (v : Visitor) → BindsAll D ns → Within D v → Within D (visit_all ns v)
    Within-visit_all nil v b h = h
    Within-visit_all (cons n rest) v b h = Within-visit_all rest _ b.1 (Within-visit n v b.0 h)

  Within-define_target :
      (id : Option String) (v : Visitor) → BindsId D id → Within D v → Within D (define_target id v)
  unfolding define
  Within-define_target (some id) v e h = ((e, h.0), h.1)
  Within-define_target none v e h = h

  Within-define_targets :
      (ts : Nodes) (v : Visitor) → BindsTargets D ts → Within D v → Within D (define_targets ts v)
  unfolding define_targets
  Within-define_targets nil v b h = h
  Within-define_targets (cons t rest) v b h =
      Within-define_targets rest _ b.1 (Within-define_target (name_id t) v b.0 h)

  Within-collect_stmt :
      (n : Node) (v : Visitor)
      → NamesFunction D n
      → Binds D n
      → Within D v
      → Within D (collect_stmt n v)
  unfolding collect_stmt define_step Binds
  Within-collect_stmt (async_function_def line id args body decorators rest) v e b h =
      ((e, h.0), (e, h.1))
  Within-collect_stmt (function_def line id children) v e b h = ((e, h.0), (e, h.1))
  Within-collect_stmt (assign line targets value) v e b h = Within-define_targets targets v b.0 h
  Within-collect_stmt (ann_assign line target annotation value) v e b h =
      Within-define_target (name_id target) v b.0 h
  Within-collect_stmt _ v e b h = h

  Within-collect :
      (ns : Nodes) (v : Visitor)
      → NamesFunctions D ns
      → BindsAll D ns
      → Within D v
      → Within D (collect ns v)
  unfolding collect Binds
  Within-collect nil v e b h = h
  Within-collect (cons n rest) v e b h =
      Within-collect rest _ e.1 b.1 (Within-collect_stmt n v e.0 b.0 h)

verdict-accepted :
    (b : Bool) (vs : List Violation) (line : Option ℕ)
    → verdict (if b then vs else vs ++ record { line = none; reason = no_graph } ∷ []) line
      ≡ accepted
    → (b ≡ true) × (vs ≡ [])
verdict-accepted true [] line h = (refl, refl)
verdict-accepted true (x ∷ xs) line h = cc
verdict-accepted false [] line h = cc
verdict-accepted false (x ∷ xs) line h = cc

judge-safe :
    (body : Nodes) (D : String → Bool)
    → NamesFunctions D body
    → BindsAll D body
    → judge body ≡ accepted
    → (has_graph_assign body ≡ true) × AreSafe D body
unfolding judge visit_module
judge-safe body D e b h =
    let v = visit_module body fresh in
    let (graph, clean) = verdict-accepted (has_graph_assign body) v.violations v.first_line h in
    let start = Within-collect D body fresh e b (tt, tt) in
    let (in_defined, in_steps) = Within-visit_all D body (collect body fresh) b start in
    (graph, (Good-visit_all D body (collect body fresh) (clean, in_defined, in_steps)).1)

-- Code that parses and is accepted assigns graph at its top, and is safe with regard to any
-- predicate D on names that holds of every name its assignments bind and of the names of its
-- top-level functions: no disallowed construct and no plain function stands in it, no name node
-- and no async function has a banned name, every name node that is read is injected, an allowed
-- builtin, conventional or in D, no attribute is private or banned, functions carry only @g.step,
-- and targets of plain assignments are names. Not covered are the target of an annotated
-- assignment to what is no name, and the identifiers that other nodes hold: the names of
-- parameters, keyword arguments and type parameters may be banned ones.
pub validate_graph_code-safe :
    (parse : String → Parsed) (code : String) (body : Nodes) (D : String → Bool)
    → parse code ≡ tree body
    → NamesFunctions D body
    → BindsAll D body
    → validate_graph_code parse code ≡ accepted
    → (has_graph_assign body ≡ true) × AreSafe D body
unfolding validate_graph_code
validate_graph_code-safe parse code body D parsed e b h = judge-safe body D e b (rw parsed at h)

-- ===== src/GraphSandbox/Validator/Complete.antt =====
-- That the validator of src/krewhub/services/graph_sandbox/validator.py accepts all safe code, and
-- the target that it does not look at.
use krewhub.Prelude.{
  ℕ, String, ◌≡◌, refl, ap, Bool, true, false, Option, none, some, [], ◌||◌, arith, if◌then◌else◌,
}
use krewhub.GraphSandbox.Syntax.{
  Context, load, store, del, Node, Nodes, disallowed, function_def, async_function_def, name,
  attribute, call, assign, ann_assign, subscript, joined_str, formatted_value, other, nil, cons,
  lineno, name_id,
}
use krewhub.GraphSandbox.Validator.{
  injected_names, allowed_builtins, local_names, mem, bad_decorator, Visitor, flag, define,
  check_name, is_banned, is_step_decorator, check_decorators, check_target, check_targets,
  check_ann_target, is_known, visit_name, visit, visit_all, collect_stmt, collect, visit_module,
  fresh, judge, has_graph_assign, assigns_graph, Parsed, tree, validate_graph_code,
}
use krewhub.GraphSandbox.Validator.Safe.{
  AreSafe, IsSafe, IsSafeName, AreStepDecorators, ArePlainTargets, IsPlainTarget, IsBindable,
}

module _ (D : String → Bool) where
  -- No violation so far, and all of D is defined.
  abbrev Clean : Visitor → Type 0
  Clean v = (v.violations ≡ []) × ((id : String) → D id ≡ true → mem id v.defined_names ≡ true)

  Clean-check_name :
      (line : Option ℕ) (id : String) (v : Visitor)
      → is_banned id ≡ false
      → Clean v
      → Clean (check_name line id v)
  unfolding check_name
  Clean-check_name line id v e h = rw e h

  Clean-define : (id : String) (v : Visitor) → Clean v → Clean (define id v)
  unfolding define
  Clean-define id v h = (h.0, λ j e. ground (arith, h.1 j e))

  Clean-check_decorators :
      (ds : Nodes) (v : Visitor) → AreStepDecorators ds → Clean v → Clean (check_decorators ds v)
  unfolding check_decorators
  Clean-check_decorators nil v s h = h
  Clean-check_decorators (cons d rest) v s h =
      let c : Clean (if is_step_decorator d then v else flag (lineno d) bad_decorator v) =
        rw s.0 h in
      Clean-check_decorators rest _ s.1 c

  Clean-check_target :
      (line : Option ℕ) (id : Option String) (v : Visitor)
      → IsPlainTarget id
      → Clean v
      → Clean (check_target line id v)
  Clean-check_target line (some id) v e h =
      Clean-check_name line id (define id v) e (Clean-define id v h)
  Clean-check_target line none v e h = absurd e

  Clean-check_targets :
      (ts : Nodes) (v : Visitor) → ArePlainTargets ts → Clean v → Clean (check_targets ts v)
  unfolding check_targets
  Clean-check_targets nil v s h = h
  Clean-check_targets (cons t rest) v s h =
      Clean-check_targets rest _ s.1 (Clean-check_target (lineno t) (name_id t) v s.0 h)

  Clean-check_ann_target :
      (line : Option ℕ) (id : Option String) (v : Visitor)
      → IsBindable id
      → Clean v
      → Clean (check_ann_target line id v)
  Clean-check_ann_target line (some id) v e h =
      Clean-check_name line id (define id v) e (Clean-define id v h)
  Clean-check_ann_target line none v e h = h

  known_of_readable :
      (a b c d e r : Bool)
      → (r ≡ true → c ≡ true)
      → (a || b || r || e) ≡ true
      → (a || b || c || d || e) ≡ true
  known_of_readable true b c d e r p h = refl
  known_of_readable false true c d e r p h = refl
  known_of_readable false false c d e true p h = rw (p refl) refl
  known_of_readable false false true d e false p h = refl
  known_of_readable false false false true e false p h = refl
  known_of_readable false false false false e false p h = h

  Clean-visit_name :
      (line : ℕ) (id : String) (ctx : Context) (v : Visitor)
      → IsSafeName D id ctx
      → Clean v
      → Clean (visit_name line id ctx v)
  unfolding visit_name check_name
  Clean-visit_name line id load v s h =
      let known : is_known id v ≡ true =
        known_of_readable (mem id injected_names) (mem id allowed_builtins) (mem id v.defined_names)
          (mem id v.step_funcs) (mem id local_names) (D id) (h.1 id) s.1 in
      rw s.0 (rw known h)
  Clean-visit_name line id store v s h = Clean-check_name (some line) id v s h
  Clean-visit_name line id del v s h = Clean-check_name (some line) id v s h

  mutual
    unfolding visit IsSafe

    Clean-visit : (n : Node) (v : Visitor) → IsSafe D n → Clean v → Clean (visit n v)
    Clean-visit (disallowed line kind children) v s h = absurd s
    Clean-visit (function_def line id children) v s h = absurd s
    Clean-visit (async_function_def line id args body decorators rest) v s h =
        Clean-visit_all rest _ s.5 (
          Clean-visit_all decorators _ s.4 (
            Clean-visit_all body _ s.3 (
              Clean-visit_all args _ s.2 (
                Clean-check_decorators decorators _ s.1
                  (Clean-check_name (some line) id v s.0 h)))))
    Clean-visit (name line id ctx) v s h = Clean-visit_name line id ctx v s h
    Clean-visit (attribute line value attr) v s h = rw s.0 (rw s.1 (Clean-visit value v s.2 h))
    Clean-visit (call line func args) v s h = Clean-visit_all args _ s.1 (Clean-visit func v s.0 h)
    Clean-visit (assign line targets value) v s h =
        Clean-visit value _ s.1 (Clean-check_targets targets v s.0 h)
    Clean-visit (ann_assign line target annotation value) v s h = Clean-visit_all value _ s.2 (
        Clean-visit annotation _ s.1
          (Clean-check_ann_target (lineno target) (name_id target) v s.0 h))
    Clean-visit (subscript line value slice) v s h =
        Clean-visit slice _ s.1 (Clean-visit value v s.0 h)
    Clean-visit (joined_str line values) v s h = Clean-visit_all values v s h
    Clean-visit (formatted_value line value format) v s h =
        Clean-visit_all format _ s.1 (Clean-visit value v s.0 h)
    Clean-visit (other line kind names children) v s h = Clean-visit_all children v s h

    Clean-visit_all : (ns : Nodes) (v : Visitor) → AreSafe D ns → Clean v → Clean (visit_all ns v)
    Clean-visit_all nil v s h = h
    Clean-visit_all (cons n rest) v s h = Clean-visit_all rest _ s.1 (Clean-visit n v s.0 h)

check_ann_target-none :
    (line : Option ℕ) (id : Option String) (v : Visitor)
    → id ≡ none
    → check_ann_target line id v ≡ v
check_ann_target-none line none v e = refl
check_ann_target-none line (some id) v e = cc

module _ (line line' : ℕ) (target : Node) (body : Nodes) (e : name_id target ≡ none) where
  visit_all-unchecked_target :
      (v : Visitor)
      → visit_all (cons (ann_assign line target (name line' "int" load) nil) body) v
        ≡ visit_all body v
  unfolding visit visit_name check_name
  visit_all-unchecked_target v =
      ap (visit_all body) (check_ann_target-none (lineno target) (name_id target) v e)

  judge-unchecked_target :
      judge (cons (ann_assign line target (name line' "int" load) nil) body) ≡ judge body
  unfolding judge visit_module collect collect_stmt has_graph_assign assigns_graph
  judge-unchecked_target = rw e (rw (visit_all-unchecked_target (collect body fresh)) refl)

module _ (parse : String → Parsed) (code : String) (body : Nodes) where
  -- An annotated assignment with the annotation int and no value, put before the code, does not
  -- change the verdict, whatever its target is, so long as that is no plain name.
  pub validate_graph_code-unchecked_target :
      (line line' : ℕ) (target : Node) (longer : String)
      → parse code ≡ tree body
      → parse longer ≡ tree (cons (ann_assign line target (name line' "int" load) nil) body)
      → name_id target ≡ none
      → validate_graph_code parse longer ≡ validate_graph_code parse code
  unfolding validate_graph_code
  validate_graph_code-unchecked_target line line' target longer parsed parsed' e =
      rw parsed (rw parsed' (judge-unchecked_target line line' target body e))

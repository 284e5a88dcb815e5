-- ===== src/GraphSandbox/Validator.antt =====
-- src/krewhub/services/graph_sandbox/validator.py: the visitor that decides whether the code of a
-- graph may be run. The parser is a parameter; a message is its kind with the name it quotes.
pub mod Safe
pub mod Complete
pub mod Exact
use text.Mathlib.Text.{starts_with}
use krewhub.Prelude.{
  ℕ, String, Bool, true, false, Option, none, some, List, [], ◌∷◌, ◌++◌, ◌&&◌, ◌||◌, not, any,
  if◌then◌else◌, ◌==◌,
}
use krewhub.GraphSandbox.Syntax.{
  Context, load, store, del, Disallowed, Node, Nodes, disallowed, function_def, async_function_def,
  name, attribute, call, assign, ann_assign, subscript, joined_str, formatted_value, other, nil,
  cons, lineno, name_id,
}

abbrev pub injected_names : List String
injected_names =
    "GraphBuilder" ∷ "StepContext" ∷ "reduce_list_append" ∷ "dispatch_cycle" ∷ "OrchestratorState"
    ∷ "OrchestratorDeps" ∷ []

abbrev pub allowed_builtins : List String
allowed_builtins =
    "str" ∷ "int" ∷ "float" ∷ "bool" ∷ "bytes" ∷ "list" ∷ "dict" ∷ "tuple" ∷ "set" ∷ "frozenset"
    ∷ "None" ∷ "True" ∷ "False" ∷ "len" ∷ "range" ∷ "enumerate" ∷ "zip" ∷ "min" ∷ "max" ∷ "sum"
    ∷ "any" ∷ "all" ∷ "sorted" ∷ "reversed" ∷ "abs" ∷ "round" ∷ "isinstance" ∷ []

abbrev pub banned_names : List String
banned_names =
    "__import__" ∷ "__builtins__" ∷ "__loader__" ∷ "__spec__" ∷ "__file__" ∷ "__name__"
    ∷ "__package__" ∷ "__doc__" ∷ "__class__" ∷ "__dict__" ∷ "__mro__" ∷ "__bases__"
    ∷ "__subclasses__" ∷ "__globals__" ∷ "__code__" ∷ "__closure__" ∷ "__init_subclass__"
    ∷ "__getattribute__" ∷ "__getattr__" ∷ "__setattr__" ∷ "__delattr__" ∷ "__module__"
    ∷ "__qualname__" ∷ "eval" ∷ "exec" ∷ "compile" ∷ "open" ∷ "input" ∷ "breakpoint" ∷ "help"
    ∷ "getattr" ∷ "setattr" ∷ "delattr" ∷ "globals" ∷ "locals" ∷ "vars" ∷ "dir" ∷ "id" ∷ "type"
    ∷ "object" ∷ "super" ∷ "memoryview" ∷ "bytearray" ∷ "__import__" ∷ "exit" ∷ "quit" ∷ []

-- {"g", "graph", "ctx"}
abbrev pub local_names : List String
local_names = "g" ∷ "graph" ∷ "ctx" ∷ []

abbrev pub mem : String → List String → Bool
mem id ids = any (λ j. j == id) ids

pub data Reason : Type 0 where
  disallowed_construct : Disallowed → Reason
  not_async : String → Reason
  banned_identifier : String → Reason
  bad_decorator : Reason
  unknown_name : String → Reason
  private_attribute : String → Reason
  banned_attribute : String → Reason
  bad_target : Reason
  no_graph : Reason

pub record Violation : Type 0 where
  pub line : Option ℕ
  pub reason : Reason

-- The attributes of _Validator; a set is the list of what was added to it.
pub record Visitor : Type 0 where
  pub violations : List Violation
  pub first_line : Option ℕ
  pub defined_names : List String
  pub step_funcs : List String

abbrev pub fresh : Visitor
fresh = record { violations = []; first_line = none; defined_names = []; step_funcs = [] }

abbrev pub first_of : Option ℕ → Option ℕ → Option ℕ
first_of none line = line
first_of (some k) line = some k

unfoldable pub flag : Option ℕ → Reason → Visitor → Visitor
flag line reason v = record v {
  violations = v.violations ++ record { line = line; reason = reason } ∷ [];
  first_line = first_of v.first_line line;
}

unfoldable pub define : String → Visitor → Visitor
define id v = record v { defined_names = id ∷ v.defined_names }

unfoldable pub define_step : String → Visitor → Visitor
define_step id v = record v { defined_names = id ∷ v.defined_names; step_funcs = id ∷ v.step_funcs }

abbrev pub is_banned : String → Bool
is_banned id = mem id banned_names || starts_with id "__"

unfoldable pub check_name : Option ℕ → String → Visitor → Visitor
check_name line id v = if is_banned id then flag line (banned_identifier id) v else v

-- isinstance(deco, ast.Attribute) and deco.attr == "step" and ... deco.value.id == "g"
unfoldable pub is_step_decorator : Node → Bool
is_step_decorator (attribute line (name line' id ctx) attr) = (attr == "step") && (id == "g")
is_step_decorator _ = false

unfoldable pub check_decorators : Nodes → Visitor → Visitor
unfolding is_step_decorator
check_decorators nil v = v
check_decorators (cons deco rest) v =
    check_decorators rest (if is_step_decorator deco then v else flag (lineno deco) bad_decorator v)

-- A target of an assignment, by its id if it is a name.
abbrev pub check_target : Option ℕ → Option String → Visitor → Visitor
check_target line (some id) v = check_name line id (define id v)
check_target line none v = flag line bad_target v

unfoldable pub check_targets : Nodes → Visitor → Visitor
check_targets nil v = v
check_targets (cons target rest) v =
    check_targets rest (check_target (lineno target) (name_id target) v)

-- The target of an annotated assignment is looked at only if it is a name.
abbrev pub check_ann_target : Option ℕ → Option String → Visitor → Visitor
check_ann_target line (some id) v = check_name line id (define id v)
check_ann_target line none v = v

abbrev pub is_known : String → Visitor → Bool
is_known id v =
    mem id injected_names
    || mem id allowed_builtins
    || mem id v.defined_names
    || mem id v.step_funcs
    || mem id local_names

unfoldable pub visit_name : ℕ → String → Context → Visitor → Visitor
visit_name line id load v =
    let v' = check_name (some line) id v in
    if is_known id v' then v' else flag (some line) (unknown_name id) v'
visit_name line id store v = check_name (some line) id v
visit_name line id del v = check_name (some line) id v

unfoldable mutual
  pub visit : Node → Visitor → Visitor
  visit (disallowed line kind children) v = flag (some line) (disallowed_construct kind) v
  visit (function_def line id children) v = flag (some line) (not_async id) v
  visit (async_function_def line id args body decorators rest) v = visit_all rest (
      visit_all decorators (
        visit_all body
          (visit_all args (check_decorators decorators (check_name (some line) id v)))))
  visit (name line id ctx) v = visit_name line id ctx v
  visit (attribute line value attr) v =
      let rest = visit value v in
      if starts_with attr "_"
      then flag (some line) (private_attribute attr) v
      else if mem attr banned_names
      then flag (some line) (banned_attribute attr) v
      else rest
  visit (call line func args) v = visit_all args (visit func v)
  visit (assign line targets value) v = visit value (check_targets targets v)
  visit (ann_assign line target annotation value) v =
      visit_all value (visit annotation (check_ann_target (lineno target) (name_id target) v))
  visit (subscript line value slice) v = visit slice (visit value v)
  visit (joined_str line values) v = visit_all values v
  visit (formatted_value line value format) v = visit_all format (visit value v)
  visit (other line kind names children) v = visit_all children v

  pub visit_all : Nodes → Visitor → Visitor
  visit_all nil v = v
  visit_all (cons node rest) v = visit_all rest (visit node v)

abbrev pub define_target : Option String → Visitor → Visitor
define_target (some id) v = define id v
define_target none v = v

unfoldable pub define_targets : Nodes → Visitor → Visitor
define_targets nil v = v
define_targets (cons target rest) v = define_targets rest (define_target (name_id target) v)

-- The first pass over the module, a statement at a time.
unfoldable pub collect_stmt : Node → Visitor → Visitor
collect_stmt (async_function_def line id args body decorators rest) v = define_step id v
collect_stmt (function_def line id children) v = define_step id v
collect_stmt (assign line targets value) v = define_targets targets v
collect_stmt (ann_assign line target annotation value) v = define_target (name_id target) v
collect_stmt _ v = v

unfoldable pub collect : Nodes → Visitor → Visitor
collect nil v = v
collect (cons stmt rest) v = collect rest (collect_stmt stmt v)

unfoldable pub visit_module : Nodes → Visitor → Visitor
visit_module body v = visit_all body (collect body v)

abbrev pub is_graph : Option String → Bool
is_graph (some id) = id == "graph"
is_graph none = false

unfoldable pub any_graph : Nodes → Bool
any_graph nil = false
any_graph (cons target rest) = is_graph (name_id target) || any_graph rest

unfoldable pub assigns_graph : Node → Bool
unfolding any_graph
assigns_graph (assign line targets value) = any_graph targets
assigns_graph _ = false

unfoldable pub has_graph_assign : Nodes → Bool
unfolding assigns_graph
has_graph_assign nil = false
has_graph_assign (cons stmt rest) = assigns_graph stmt || has_graph_assign rest

-- What ast.parse gives: the body of a module, or the line of a syntax error.
pub data Parsed : Type 0 where
  tree : Nodes → Parsed
  syntax_error : Option ℕ → Parsed

-- A return, or the GraphValidationError.
pub data Verdict : Type 0 where
  accepted : Verdict
  rejected : List Violation → Option ℕ → Verdict
  unreadable : Option ℕ → Verdict

abbrev pub verdict : List Violation → Option ℕ → Verdict
verdict [] line = accepted
verdict (x ∷ xs) line = rejected (x ∷ xs) line

-- The verdict on a module that parses.
unfoldable pub judge : Nodes → Verdict
unfolding visit_module
judge body =
    let v = visit_module body fresh in
    let violations =
      if has_graph_assign body
      then v.violations
      else v.violations ++ record { line = none; reason = no_graph } ∷ [] in
    verdict violations v.first_line

abbrev pub judge_parsed : Parsed → Verdict
judge_parsed (tree body) = judge body
judge_parsed (syntax_error line) = unreadable line

unfoldable pub validate_graph_code : (String → Parsed) → String → Verdict
validate_graph_code parse code = judge_parsed (parse code)

-- ===== src/GraphSandbox/Syntax.antt =====
-- The syntax trees of Python's ast module, as src/krewhub/services/graph_sandbox/validator.py tells
-- their nodes apart. A node that it has no method for is `other`.
use krewhub.Prelude.{ℕ, String, Option, none, some, List}

pub data Context : Type 0 where
  load store del : Context

-- DISALLOWED_NODES
pub data Disallowed : Type 0 where
  import import_from class_def global nonlocal with_block async_with try_block try_star raise_stmt :
      Disallowed
  lambda delete yield yield_from match_stmt : Disallowed

-- Statements and expressions carry the number of their line.
mutual
  pub data Node : Type 0 where
    disallowed : ℕ → Disallowed → Nodes → Node
    function_def : ℕ → String → Nodes → Node
    -- its name, arguments, body, decorators, and what follows them
    async_function_def : ℕ → String → Nodes → Nodes → Nodes → Nodes → Node
    name : ℕ → String → Context → Node
    attribute : ℕ → Node → String → Node
    -- the function, then the arguments
    call : ℕ → Node → Nodes → Node
    -- the targets and the value
    assign : ℕ → Nodes → Node → Node
    ann_assign : ℕ → Node → Node → Nodes → Node
    subscript : ℕ → Node → Node → Node
    joined_str : ℕ → Nodes → Node
    -- the value and the format, if there is one
    formatted_value : ℕ → Node → Nodes → Node
    -- its line, its class, the identifiers that its own fields hold (those of a parameter, a keyword
    -- argument, a type parameter or an exception handler), and the nodes of its fields
    other : Option ℕ → String → List String → Nodes → Node

  pub data Nodes : Type 0 where
    nil : Nodes
    cons : Node → Nodes → Nodes

-- getattr(node, "lineno", None)
abbrev pub lineno : Node → Option ℕ
lineno (disallowed line kind children) = some line
lineno (function_def line id children) = some line
lineno (async_function_def line id args body decorators rest) = some line
lineno (name line id ctx) = some line
lineno (attribute line value attr) = some line
lineno (call line func args) = some line
lineno (assign line targets value) = some line
lineno (ann_assign line target annotation value) = some line
lineno (subscript line value slice) = some line
lineno (joined_str line values) = some line
lineno (formatted_value line value format) = some line
lineno (other line kind names children) = line

-- isinstance(node, ast.Name), with its id
abbrev pub name_id : Node → Option String
name_id (name line id ctx) = some id
name_id _ = none

-- ===== src/GraphSandbox.antt =====
-- src/krewhub/services/graph_sandbox: the check of a graph's code before it is run, and the
-- structure of a built graph.
pub mod Structure
pub mod Syntax
pub mod Validator

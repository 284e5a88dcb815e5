-- ===== src/GraphRuntime.antt =====
-- src/krewhub/services/graph_runtime: how a step of a graph waits for its dependencies, finds an
-- agent, and is tried again where the agent fails.
pub mod Cycle
pub mod Picker
pub mod Polling

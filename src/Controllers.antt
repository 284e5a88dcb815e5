-- ===== src/Controllers.antt =====
-- src/krewhub/controllers: loops that bring the rows to where they should be.
pub mod Orch

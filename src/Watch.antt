-- ===== src/Watch.antt =====
-- src/krewhub/watch: the durable watch log (store.py), the events and options (types.py), and the
-- service that records a mutation and hands it to the live subscribers (service.py).
pub mod Channels
pub mod Log
pub mod Service

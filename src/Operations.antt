-- ===== src/Operations.antt =====
-- src/investment_tracker/operations.py: the alert dispatcher, the monitor of heartbeats, and the
-- readback and reconciliation evidence.
pub mod Dispatcher
pub mod Monitor
pub mod Evidence

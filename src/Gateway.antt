-- ===== src/Gateway.antt =====
-- The effect gateway of src/gateway: its types, receiver facts, receipts, journal and reconciliation.
pub mod Types
pub mod Facts
pub mod Receipt
pub mod Journal
pub mod Custody
pub mod Reconcile
pub mod Admission
pub mod Dispatch
pub mod Passing
pub mod Rounds
pub mod Course
pub mod Tests

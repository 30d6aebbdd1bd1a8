-- ===== src/Gateway/Journal.antt =====
-- The journal of src/gateway/journal: raw records, the decoder of retained rows and the guarded writes.
pub mod Record
pub mod Phases
pub mod Decoder
pub mod Rows
pub mod Store
pub mod Writes
pub mod Steps
pub mod Capacity

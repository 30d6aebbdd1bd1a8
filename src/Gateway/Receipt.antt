-- ===== src/Gateway/Receipt.antt =====
-- Receipt bytes of src/gateway/receipt/mod.rs.
pub mod Framing
pub mod Statement
pub mod Envelope

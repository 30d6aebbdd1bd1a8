-- ===== src/Authority.antt =====
-- The package kapsel-authority: request grammar, record framing and authorization grants.
pub mod Grammar
pub mod Frame
pub mod Grant
pub mod Tests

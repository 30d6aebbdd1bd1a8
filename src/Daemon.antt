-- ===== src/Daemon.antt =====
-- crates/kapsel-daemon: the server that shares one execution among its callers.
pub mod Runtime
pub mod Tests

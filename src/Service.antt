-- ===== src/Service.antt =====
-- src/application: the statuses, failures and guidance that the service shows to a caller.
pub mod Disposition

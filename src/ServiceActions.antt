-- ===== src/ServiceActions.antt =====
-- The manager of the service and action plugins (src/serviceAction).
pub mod Manager
pub mod Routing
pub mod Tests

-- ===== src/Publisher.antt =====
-- The publishers of one connection: src/publisher.
pub mod Publishing
pub mod Manager
pub mod Watch
pub mod Link
pub mod Routing
pub mod Tests

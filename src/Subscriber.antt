-- ===== src/Subscriber.antt =====
-- The subscribers of one connection: src/subscriber.
pub mod Manager
pub mod Registry
pub mod Sampling
pub mod Subscription
pub mod Clock
pub mod Notices
pub mod Tests

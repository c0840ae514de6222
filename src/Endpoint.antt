-- ===== src/Endpoint.antt =====
-- The two ends of a link: the server, which listens for connections, and the client, which makes
-- one (src/connection, src/common/thread.cpp).
pub mod Server
pub mod Accepts
pub mod Accepting
pub mod Ending
pub mod Client
pub mod Thread
pub mod Process
pub mod Status
pub mod Halting
pub mod Losing
pub mod Tests

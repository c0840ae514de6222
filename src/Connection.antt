-- ===== src/Connection.antt =====
-- The connection between the two sides (src/connection and src/websocketConnection).
pub mod Sending
pub mod Order
pub mod Lossless
pub mod Dispatch
pub mod Delivery
pub mod Server
pub mod Admission
pub mod Client
pub mod Exchange
pub mod Tests
pub mod Registry
pub mod Closing
pub mod Handshake
pub mod Established
pub mod Stream

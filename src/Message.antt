-- ===== src/Message.antt =====
-- The messages of src/message and include/connect: their bytes on the wire, compression, and the
-- service and action header. The children define one class each; the others hold the proofs.
pub mod Codes
pub mod Codec
pub mod Rcl
pub mod Vector
pub mod ServiceAction
pub mod Base
pub mod Wire
pub mod Restore
pub mod Transport
pub mod ServiceFrames
pub mod ServiceDelivery
pub mod ServiceTransport
pub mod Control
pub mod Parsing
pub mod Tests

-- ===== src/Plugins.antt =====
-- The base classes of the service and action plugins: include/connect/service, include/connect/action
-- and include/connect/serviceActionHandle.hpp.
pub mod Handles
pub mod ServiceServer
pub mod ServiceClient
pub mod ActionServer
pub mod ActionClient
pub mod Consistent
pub mod Answers
pub mod Shadowed
pub mod Verdicts
pub mod Requesting
pub mod Calls
pub mod Tests

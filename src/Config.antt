-- ===== src/Config.antt =====
-- The configuration: include/connect/types.hpp, src/global and src/connectBase.hpp.
pub mod Types
pub mod Json
pub mod EnumParser
pub mod Time
pub mod Global
pub mod Profiles
pub mod Topics
pub mod Services
pub mod Initialize
pub mod Checked
pub mod Valid
pub mod ValidServices
pub mod Unique
pub mod Sections
pub mod WellFormed
pub mod Accepted
pub mod Names
pub mod Tests

-- ===== src/Common.antt =====
-- common/base: errors, tools, the configuration and the log.
pub mod Errors
pub mod Tools
pub mod Config
pub mod Log

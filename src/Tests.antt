-- ===== src/Tests.antt =====
-- A database in memory and simple formats that have the documented behaviour, and the theorems at
-- concrete inputs over them.
pub mod Memory
pub mod Coders
pub mod Formats
pub mod Storage
pub mod Raft
pub mod Machine
pub mod Server
pub mod OpenRaft
pub mod LogStore
pub mod Nodes
pub mod Http
pub mod Start
pub mod Writes
pub mod Restore

-- ===== src/OpenRaft.antt =====
-- placement-center/src/openraft: the stores handed to the `openraft` crate, the nodes of its cluster
-- and the calls between them.
pub mod Node
pub mod Types
pub mod Keys
pub mod LogStore
pub mod StateMachine
pub mod Nodes
pub mod Network

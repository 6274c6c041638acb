-- ===== src/Raft.antt =====
-- placement-center/src/raft: the raft storage handed to the `raft` crate, the proposals and the
-- route by which committed data reaches the key-value store.
pub mod RocksdbStorage
pub mod Proposal
pub mod Route
pub mod Node
pub mod Metadata
pub mod Machine
pub mod Apply
pub mod Peers

-- ===== src/Storage.antt =====
-- placement-center/src/storage: the database, the key-value store and the storage of the raft log.
pub mod Keys
pub mod Rocksdb
pub mod Engine
pub mod Kv
pub mod Raft

-- ===== src/External.antt =====
-- Libraries that the program calls and whose code is not in the repository: the RocksDB binding
-- and the serialisers. Each is a record of the calls that are made, with a second record that
-- states the documented behaviour which the proofs rely on.
pub mod Rocksdb
pub mod Formats
pub mod Raft
pub mod RawNode
pub mod Toml
pub mod OpenRaft
pub mod TreeMap
pub mod Opening

-- ===== src/Server.antt =====
-- placement-center/src/server/grpc: the services of a node.
pub mod Kv
pub mod KvNew
pub mod Raft
pub mod OpenRaft
pub mod Http

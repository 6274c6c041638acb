-- ===== src/Protocol.antt =====
-- src/protocol/src: the messages of the services, with the fields that the program reads.
pub mod Kv
pub mod OpenRaft

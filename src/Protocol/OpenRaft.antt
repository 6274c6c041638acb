-- ===== src/Protocol/OpenRaft.antt =====
-- src/protocol/src/openraft.rs: the messages of the openraft service. Each carries one value that
-- the nodes serialise themselves.
use robustmq_geek.Prelude.{Bytes}

pub record VoteRequest : Type 0 where
  pub value : Bytes

pub record VoteReply : Type 0 where
  pub value : Bytes

pub record AppendRequest : Type 0 where
  pub value : Bytes

pub record AppendReply : Type 0 where
  pub value : Bytes

pub record SnapshotRequest : Type 0 where
  pub value : Bytes

pub record SnapshotReply : Type 0 where
  pub value : Bytes

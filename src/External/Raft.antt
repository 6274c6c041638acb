-- ===== src/External/Raft.antt =====
-- The messages of the `raft` crate (`eraftpb`) that the storage keeps, with the fields that the
-- program reads or copies, and their defaults.
use robustmq_geek.Prelude.{ℕ, Bool, false, List, [], Bytes}

pub record HardState : Type 0 where
  pub term : ℕ
  pub vote : ℕ
  pub commit : ℕ

pub record ConfState : Type 0 where
  pub voters : List ℕ
  pub learners : List ℕ
  pub voters_outgoing : List ℕ
  pub learners_next : List ℕ
  pub auto_leave : Bool

pub data EntryType : Type 0 where
  entry_normal entry_conf_change entry_conf_change_v2 : EntryType

pub record Entry : Type 0 where
  pub entry_type : EntryType
  pub term : ℕ
  pub index : ℕ
  pub bytes : Bytes
  pub context : Bytes

pub record SnapshotMetadata : Type 0 where
  pub conf_state : ConfState
  pub index : ℕ
  pub term : ℕ

pub record Snapshot : Type 0 where
  pub bytes : Bytes
  pub metadata : SnapshotMetadata

pub record RaftState : Type 0 where
  pub hard_state : HardState
  pub conf_state : ConfState

-- `raft::StorageError`, as far as the program returns it.
pub data StorageError : Type 0 where
  compacted unavailable snapshot_out_of_date snapshot_temporarily_unavailable : StorageError

abbrev pub default_hard_state : HardState
default_hard_state = record { term = 0; vote = 0; commit = 0 }

abbrev pub default_conf_state : ConfState
default_conf_state = record {
  voters = [];
  learners = [];
  voters_outgoing = [];
  learners_next = [];
  auto_leave = false;
}

abbrev pub default_snapshot_metadata : SnapshotMetadata
default_snapshot_metadata = record { conf_state = default_conf_state; index = 0; term = 0 }

abbrev pub default_snapshot : Snapshot
default_snapshot = record { bytes = []; metadata = default_snapshot_metadata }

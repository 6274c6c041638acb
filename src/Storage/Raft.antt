-- ===== src/Storage/Raft.antt =====
-- placement-center/src/storage/raft.rs: `RaftMachineStorage`, the raft log and state in the
-- database. A method is an action on the record: it returns or panics, and what it wrote before a
-- panic stays. Logging and printing are left out.
pub mod Log
pub mod Snapshots
pub mod Compaction
pub mod Contents
pub mod Merge
pub mod Restore
pub mod View
pub mod Append
pub mod Commit
pub mod ReadBack
pub mod Access
pub mod Changes
use robustmq_geek.Prelude.{ℕ, Bool, true, false, Option, none, some, List, [], ◌∷◌, length}
use robustmq_geek.Prelude.{
  Bytes, Text, Result, ok, err, if◌then◌else◌, ltb, ◌==◌, add_one, range_inclusive,
}
use robustmq_geek.Prelude.{Action, ◌>>=◌, ◌>>◌, pure, panic, gets, modify, unwrap, unwrap_some}
use robustmq_geek.Prelude.Dict
use robustmq_geek.Prelude.Dict.{Dict}
use robustmq_geek.External.Rocksdb.{Rocksdb}
use robustmq_geek.External.Formats.{Json, Proto, Bincode}
use robustmq_geek.External.Raft.{
  HardState, ConfState, Entry, SnapshotMetadata, Snapshot, RaftState, StorageError,
  snapshot_out_of_date, default_hard_state, default_conf_state, default_snapshot_metadata,
  default_snapshot,
}
use robustmq_geek.Storage.Keys.{
  key_name_by_first_index, key_name_by_last_index, key_name_by_hard_state, key_name_by_conf_state,
  key_name_by_entry, key_name_uncommit, key_name_snapshot,
}
use robustmq_geek.Storage.Rocksdb.{
  cf_cluster, get_column_family, write, write_str, read, read_all, Raw,
}

pub record RaftFormats : Type 0 where
  pub json_bytes : Json Bytes
  pub json_u64 : Json ℕ
  pub proto_hard_state : Proto HardState
  pub proto_conf_state : Proto ConfState
  pub proto_entry : Proto Entry
  pub proto_snapshot : Proto Snapshot
  pub bincode_uncommit : Bincode (Dict ℕ)
  pub bincode_all : Bincode (List (Text × List Raw))

-- The values of `uncommit_index` are the `i8` 1.
pub record RaftMachineStorage (Db : Type 0) : Type 0 where
  pub uncommit_index : Dict ℕ
  pub trigger_snap_unavailable : Bool
  pub snapshot_metadata : SnapshotMetadata
  pub db : Db

module _ ⦃R : Rocksdb⦄ where
  abbrev pub Storage : Type 0
  Storage = RaftMachineStorage R.Db

  -- `rocksdb_engine_handler.write(cf_cluster(), key, value)` and `.read(…)`
  unfoldable pub engine_write :
      {A : Type 0} → Json A → Text → A → Action Storage (Result Text (Unit {0}))
  engine_write json key value s =
      let (result, db') = write json cf_cluster key value s.db in
      pure result (record s { db = db' })

  unfoldable pub engine_read :
      {A : Type 0} → Json A → Text → Action Storage (Result Text (Option A))
  engine_read json key = gets (λ s. read json cf_cluster key s.db)

  -- `T::default()` for a missing value, `T::decode(value).unwrap()` for one that is there.
  unfoldable pub decode_or_default : {A : Type 0} → Proto A → A → Option Bytes → Action Storage A
  decode_or_default proto default none = pure default
  decode_or_default proto default (some value) = unwrap (proto.decode value)

module _ ⦃R : Rocksdb⦄ ⦃F : RaftFormats⦄ where
  unfoldable pub save_conf_state : ConfState → Action Storage (Result Text (Unit {0}))
  save_conf_state cs =
      engine_write F.json_bytes key_name_by_conf_state (F.proto_conf_state.encode_to_vec cs)

  unfoldable pub hard_state : Action Storage HardState
  hard_state = do
    result ← engine_read F.json_bytes key_name_by_hard_state
    value ← unwrap result
    decode_or_default F.proto_hard_state default_hard_state value

  unfoldable pub conf_state : Action Storage ConfState
  conf_state = do
    result ← engine_read F.json_bytes key_name_by_conf_state
    value ← unwrap result
    decode_or_default F.proto_conf_state default_conf_state value

  unfoldable pub raft_state : Action Storage RaftState
  raft_state = do
    shs ← hard_state
    scs ← conf_state
    pure (record { hard_state = shs; conf_state = scs })

  -- The value read, or another for a missing value and for a failed read.
  index_or : Result Text (Option ℕ) → ℕ → ℕ
  index_or (ok (some i)) other = i
  index_or (ok none) other = other
  index_or (err e) other = other

  unfoldable pub first_index : Action Storage ℕ
  unfolding index_or
  first_index = do
    value ← engine_read F.json_u64 key_name_by_first_index
    gets (λ s. index_or value (add_one s.snapshot_metadata.index))

  unfoldable pub last_index : Action Storage ℕ
  unfolding index_or
  last_index = do
    value ← engine_read F.json_u64 key_name_by_last_index
    gets (λ s. index_or value s.snapshot_metadata.index)

  decode_entry : Result Text (Option Bytes) → Action Storage (Option Entry)
  decode_entry (ok (some vl)) = do et ← unwrap (F.proto_entry.decode vl); pure (some et)
  decode_entry (ok none) = pure none
  decode_entry (err e) = pure none

  unfoldable pub entry_by_idx : ℕ → Action Storage (Option Entry)
  unfolding decode_entry
  entry_by_idx idx = do value ← engine_read F.json_bytes (key_name_by_entry idx); decode_entry value

  unfoldable pub save_last_index : ℕ → Action Storage (Result Text (Unit {0}))
  save_last_index index = engine_write F.json_u64 key_name_by_last_index index

  unfoldable pub save_first_index : ℕ → Action Storage (Result Text (Unit {0}))
  save_first_index index = engine_write F.json_u64 key_name_by_first_index index

  unfoldable pub save_hard_state : HardState → Action Storage (Result Text (Unit {0}))
  save_hard_state hs =
      engine_write F.json_bytes key_name_by_hard_state (F.proto_hard_state.encode_to_vec hs)

  unfoldable pub set_hard_state_commit : ℕ → Action Storage (Result Text (Unit {0}))
  set_hard_state_commit commit = do hs ← hard_state; save_hard_state (record hs { commit = commit })

  unfoldable pub save_uncommit_index : Action Storage (Unit {0})
  save_uncommit_index = do
    ui ← gets (λ s. s.uncommit_index)
    val ← unwrap (F.bincode_uncommit.serialize ui)
    engine_write F.json_bytes key_name_uncommit val
    pure tt

  unfoldable pub save_snapshot_data : Snapshot → Action Storage (Unit {0})
  save_snapshot_data snapshot = do
    engine_write F.json_bytes key_name_snapshot (F.proto_snapshot.encode_to_vec snapshot)
    pure tt

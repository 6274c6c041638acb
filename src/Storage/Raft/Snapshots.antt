-- ===== src/Storage/Raft/Snapshots.antt =====
-- placement-center/src/storage/raft.rs: snapshots, and the start of the storage.
use Prim.Native.Nat.{max}
use robustmq_geek.Prelude.{ℕ, false, Option, none, some, List, [], ◌∷◌}
use robustmq_geek.Prelude.{Bytes, Text, Result, ok, err, if◌then◌else◌, ltb}
use robustmq_geek.Prelude.{Action, ◌>>=◌, ◌>>◌, pure, gets, modify, unwrap}
use robustmq_geek.Prelude.Dict.{Dict}
use robustmq_geek.Common.Errors.{Fault}
use robustmq_geek.External.Rocksdb.{Rocksdb}
use robustmq_geek.External.Raft.{
  SnapshotMetadata, Snapshot, StorageError, snapshot_out_of_date, default_snapshot_metadata,
  default_snapshot,
}
use robustmq_geek.Storage.Keys.{key_name_uncommit, key_name_snapshot}
use robustmq_geek.Storage.Rocksdb.{get_column_family, write_str, read_all, Raw}
use robustmq_geek.Storage.Raft.{
  RaftFormats, Storage, engine_read, decode_or_default, hard_state, conf_state, save_hard_state,
  save_conf_state, save_first_index, save_snapshot_data, first_index,
}

module _ ⦃R : Rocksdb⦄ ⦃F : RaftFormats⦄ where
  unfoldable pub create_snapshot_metadata : Action Storage SnapshotMetadata
  create_snapshot_metadata = do
    hard ← hard_state
    conf ← conf_state
    pure (record { conf_state = conf; index = hard.commit; term = hard.term })

  -- The saved map, or an empty one when it is missing or cannot be read.
  unpack_uncommit : Result Text (Option Bytes) → Dict ℕ
  unpack_uncommit (ok (some value)) = elim (F.bincode_uncommit.deserialize value) [
    | ok v ↦ v
    | err e ↦ []
  ]
  unpack_uncommit (ok none) = []
  unpack_uncommit (err e) = []

  unfoldable pub read_uncommit_index : Action Storage (Dict ℕ)
  unfolding unpack_uncommit
  read_uncommit_index = do
    data' ← engine_read F.json_bytes key_name_uncommit
    pure (unpack_uncommit data')

  -- `RaftMachineStorage::new`, as the action on the record with its default fields.
  unfoldable pub load : Action Storage (Unit {0})
  load = do
    uncommit ← read_uncommit_index
    modify (λ s. record s { uncommit_index = uncommit })
    meta ← create_snapshot_metadata
    modify (λ s. record s { snapshot_metadata = meta })

  abbrev pub fresh : R.Db → Storage
  fresh db = record {
    uncommit_index = [];
    trigger_snap_unavailable = false;
    snapshot_metadata = default_snapshot_metadata;
    db = db;
  }

  unfoldable pub create_snapshot : Action Storage (Unit {0})
  create_snapshot = do
    meta ← create_snapshot_metadata
    all_data ← gets (λ s. read_all s.db)
    serialized ← unwrap (F.bincode_all.serialize all_data)
    save_first_index meta.index
    save_snapshot_data (record { bytes = serialized; metadata = meta })
    modify (λ s. record s { snapshot_metadata = meta })

  unfoldable pub snapshot : Action Storage Snapshot
  snapshot = do
    create_snapshot
    result ← engine_read F.json_bytes key_name_snapshot
    value ← unwrap result
    decode_or_default F.proto_snapshot default_snapshot value

  -- The three loops of `write_all`; a failed write is only logged.
  unfoldable pub write_raw : Raw → R.Db → R.Db
  write_raw [] db = db
  write_raw ((key, val) ∷ raw) db = write_raw raw (write_str get_column_family key val db).1

  unfoldable pub write_raws : List Raw → R.Db → R.Db
  unfolding write_raw
  write_raws [] db = db
  write_raws (raw ∷ value) db = write_raws value (write_raw raw db)

  unfoldable pub write_families : List (Text × List Raw) → R.Db → R.Db
  unfolding write_raws
  write_families [] db = db
  write_families ((_, value) ∷ families) db = write_families families (write_raws value db)

  write_parsed : Result Fault (List (Text × List Raw)) → R.Db → R.Db
  write_parsed (ok families) db = write_families families db
  write_parsed (err e) db = db

  unfoldable pub write_all : Bytes → Action Storage (Unit {0})
  unfolding write_families write_parsed
  write_all [] = pure tt
  write_all (b ∷ bytes) =
      modify (λ s. record s { db = write_parsed (F.bincode_all.deserialize (b ∷ bytes)) s.db })

  unfoldable pub apply_snapshot : Snapshot → Action Storage (Result StorageError (Unit {0}))
  apply_snapshot snapshot = do
    let meta = snapshot.metadata
    first ← first_index
    if ltb meta.index first then pure (err snapshot_out_of_date) else do
      modify (λ s. record s { snapshot_metadata = meta })
      write_all snapshot.bytes
      hs ← hard_state
      save_hard_state (record hs { term = max hs.term meta.term; commit = meta.index })
      save_conf_state meta.conf_state
      pure (ok tt)

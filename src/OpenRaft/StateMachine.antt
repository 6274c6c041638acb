-- ===== src/OpenRaft/StateMachine.antt =====
-- placement-center/src/openraft/store/state_machine_store.rs: `StateMachineStore`.
pub mod Applied
pub mod Proposed
pub mod Restored
use robustmq_geek.OpenRaft.Types.{
  AppRequestData, AppResponseData, EntryPayload, Entry, StoredSnapshot, StateMachineStore,
  SnapshotFormats, Shared, set, delete, blank, normal, membership,
}
use robustmq_geek.Prelude.{ℕ, Option, none, some, List, [], ◌∷◌, ◌++◌}
use robustmq_geek.Prelude.{Bytes, Text, codes, decimal, Result, ok, err, add_one}
use robustmq_geek.Prelude.{Action, ◌>>=◌, ◌>>◌, pure, gets, modify, unwrap}
use robustmq_geek.Common.Errors.{Fault}
use robustmq_geek.External.Rocksdb.{Rocksdb}
use robustmq_geek.External.Formats.{Json}
use robustmq_geek.External.TreeMap.{Items, insert_item, erase_item}
use robustmq_geek.External.OpenRaft.{
  LeaderId, LogId, Membership, StoredMembership, SnapshotMeta, StorageError, Wal,
  default_membership, read_state_machine, read_snapshot, read_error, write_snapshot, flush_error,
}

abbrev apply_request : AppRequestData → Items → Option Text × Items
apply_request (set key value) kvs = (some value, insert_item key value kvs)
apply_request (delete key) kvs = (none, erase_item key kvs)

-- The effect of one payload: the value of the reply, the fields and the map.
abbrev pub apply_payload :
    LogId → EntryPayload → StateMachineStore → Items → Option Text × (StateMachineStore × Items)
apply_payload log_id blank sm kvs = (none, (sm, kvs))
apply_payload log_id (normal req) sm kvs =
    let (value, kvs') = apply_request req kvs in (value, (sm, kvs'))
apply_payload log_id (membership mem) sm kvs =
    (none, (record sm { last_membership = record { log_id = some log_id; membership = mem } }, kvs))

-- One turn of the loop of `apply`.
abbrev pub apply_entry :
    Entry → StateMachineStore × Items → Option Text × (StateMachineStore × Items)
apply_entry ent (sm, kvs) =
    apply_payload ent.log_id ent.payload (record sm { last_applied_log_id = some ent.log_id }) kvs

unfoldable pub apply_each :
    List Entry → StateMachineStore × Items → List AppResponseData × (StateMachineStore × Items)
apply_each [] state = ([], state)
apply_each (ent ∷ entries) state =
    let (resp_value, state') = apply_entry ent state in
    let (replies, state'') = apply_each entries state' in
    (record { value = resp_value } ∷ replies, state'')

abbrev pub unapplied : StateMachineStore
unapplied = record {
  last_applied_log_id = none;
  last_membership = default_membership;
  snapshot_idx = 0;
}

-- The column family, by its name.
abbrev pub store : Text
store = codes "_raft_store"

module _ ⦃R : Rocksdb⦄ ⦃W : Wal R⦄ ⦃F : SnapshotFormats⦄ where
  unfoldable pub apply :
      List Entry
      → StateMachineStore
      → Action (Shared R.Db) (Result StorageError (List AppResponseData) × StateMachineStore)
  apply entries sm shared =
      let (replies, (sm', kvs')) = apply_each entries (sm, shared.kvs) in
      pure (ok replies, sm') (record shared { kvs = kvs' })

  abbrev flushed : SnapshotMeta → Result Fault (Unit {0}) → Result StorageError (Unit {0})
  flushed meta (ok u) = ok u
  flushed meta (err e) = err (flush_error (some meta) e)

  unfoldable pub set_current_snapshot_ :
      StoredSnapshot → Action (Shared R.Db) (Result StorageError (Unit {0}))
  set_current_snapshot_ snap = do
    serialized ← unwrap (F.json_snapshot.to_vec snap)
    put ← gets (λ s. R.put_cf s.db store (codes "snapshot") serialized)
    modify (λ s. record s { db = put.1 })
    flush ← gets (λ s. W.flush_wal s.db)
    pure (elim put.0 [
      | ok u ↦ flushed snap.meta flush
      | err e ↦ err (write_snapshot (some snap.meta) e)
    ])

  -- A snapshot that does not parse counts as none.
  unfoldable pub get_current_snapshot_ : Shared R.Db → Result StorageError (Option StoredSnapshot)
  get_current_snapshot_ shared = elim (R.get_cf shared.db store (codes "snapshot")) [
    | ok none ↦ ok none
    | ok (some v) ↦ elim (F.json_snapshot.from_slice v) [
      | ok snap ↦ ok (some snap)
      | err e ↦ ok none
    ]
    | err e ↦ err (read_error e)
  ]

  unfoldable pub update_state_machine_ :
      StoredSnapshot
      → StateMachineStore
      → Action (Shared R.Db) (Result StorageError (Unit {0}) × StateMachineStore)
  update_state_machine_ snapshot sm = elim (F.json_kvs.from_slice snapshot.bytes) [
    | ok kvs ↦ λ shared.
        pure
          (
            ok tt,
            record sm {
              last_applied_log_id = snapshot.meta.last_log_id;
              last_membership = snapshot.meta.last_membership;
            },
          )
          (record shared { kvs = kvs })
    | err e ↦ pure (err (read_snapshot (some snapshot.meta) e), sm)
  ]

  -- What `StateMachineStore::new` starts from: an empty map of its own.
  abbrev pub fresh : R.Db → Shared R.Db
  fresh db = record { kvs = []; db = db }

  unfoldable pub new : Action (Shared R.Db) (Result StorageError StateMachineStore)
  unfolding update_state_machine_ get_current_snapshot_
  new = do
    snapshot ← gets get_current_snapshot_
    elim snapshot [
      | ok none ↦ pure (ok unapplied)
      | ok (some snap) ↦ do
        updated ← update_state_machine_ snap unapplied
        pure (elim updated.0 [ ok u ↦ ok updated.1 | err e ↦ err e ])
      | err e ↦ pure (err e)
    ]

  -- The counter goes up in the store as well, and the clone that is returned shares its map and
  -- its database: one value stands for both.
  unfoldable pub get_snapshot_builder : StateMachineStore → StateMachineStore
  get_snapshot_builder sm = record sm { snapshot_idx = add_one sm.snapshot_idx }

  abbrev pub snapshot_name : StateMachineStore → Text
  snapshot_name sm = elim sm.last_applied_log_id [
    | some last ↦
        F.show_leader_id last.leader_id
        ++ (codes "-" ++ (decimal last.index ++ (codes "-" ++ decimal sm.snapshot_idx)))
    | none ↦ codes "--" ++ decimal sm.snapshot_idx
  ]

  unfoldable pub meta_of : StateMachineStore → SnapshotMeta
  meta_of sm = record {
    last_log_id = sm.last_applied_log_id;
    last_membership = sm.last_membership;
    snapshot_id = snapshot_name sm;
  }

  abbrev pub snapshot_of : StateMachineStore → Bytes → StoredSnapshot
  unfolding meta_of
  snapshot_of sm bytes = record { meta = meta_of sm; bytes = bytes }

  -- The returned snapshot has the meta and the bytes of the stored one.
  abbrev pub kept :
      StoredSnapshot → Result StorageError (Unit {0}) → Result StorageError StoredSnapshot
  kept snapshot (ok u) = ok snapshot
  kept snapshot (err e) = err e

  unfoldable pub build_snapshot :
      StateMachineStore → Action (Shared R.Db) (Result StorageError StoredSnapshot)
  unfolding set_current_snapshot_ meta_of
  build_snapshot sm = do
    kv_json ← gets (λ s. F.json_kvs.to_vec s.kvs)
    elim kv_json [
      | ok bytes ↦ do
        let snapshot = snapshot_of sm bytes
        result ← set_current_snapshot_ snapshot
        pure (kept snapshot result)
      | err e ↦ pure (err (read_state_machine e))
    ]

  unfoldable pub install_snapshot :
      SnapshotMeta
      → Bytes
      → StateMachineStore
      → Action (Shared R.Db) (Result StorageError (Unit {0}) × StateMachineStore)
  unfolding update_state_machine_ set_current_snapshot_
  install_snapshot meta snapshot sm = do
    updated ← update_state_machine_ (record { meta = meta; bytes = snapshot }) sm
    elim updated.0 [
      | ok u ↦ do
        result ← set_current_snapshot_ (record { meta = meta; bytes = snapshot })
        pure (result, updated.1)
      | err e ↦ pure (err e, updated.1)
    ]

  unfoldable pub applied_state : StateMachineStore → Option LogId × StoredMembership
  applied_state sm = (sm.last_applied_log_id, sm.last_membership)

  abbrev pub begin_receiving_snapshot : Bytes
  begin_receiving_snapshot = []

  unfoldable pub get_current_snapshot :
      Action (Shared R.Db) (Result StorageError (Option StoredSnapshot))
  unfolding get_current_snapshot_
  get_current_snapshot = gets get_current_snapshot_

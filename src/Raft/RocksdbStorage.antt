-- ===== src/Raft/RocksdbStorage.antt =====
-- placement-center/src/raft/storage.rs: `RaftRocksDBStorage`, the trait that the `raft` crate reads
-- its log by. It holds the `RaftMachineStorage` behind a lock, which each method takes for its
-- whole body, so a method is one action on that record.
pub mod Reads
use robustmq_geek.Prelude.{ℕ, Bool, true, false, Option, none, some, List, Result, ok, err}
use robustmq_geek.Prelude.{if◌then◌else◌, ltb, ◌==◌, add_one, range_inclusive}
use robustmq_geek.Prelude.{Action, ◌>>=◌, ◌>>◌, pure, panic, gets}
use robustmq_geek.External.Rocksdb.{Rocksdb}
use robustmq_geek.External.Raft.{
  HardState, ConfState, Entry, Snapshot, RaftState, StorageError, compacted, unavailable,
  snapshot_temporarily_unavailable,
}
use robustmq_geek.Storage.Raft as Core
use robustmq_geek.Storage.Raft.Log as CoreLog
use robustmq_geek.Storage.Raft.Snapshots as CoreSnapshots
use robustmq_geek.Storage.Raft.{RaftFormats, Storage}

pub term_or : ℕ → Option Entry → ℕ
term_or other (some value) = value.term
term_or other none = other

unfoldable pub raised : Snapshot → ℕ → Snapshot
raised snap request_index =
    if ltb snap.metadata.index request_index
    then record snap { metadata = record snap.metadata { index = request_index } }
    else snap

module _ ⦃R : Rocksdb⦄ ⦃F : RaftFormats⦄ where
  unfoldable pub initial_state : Action Storage (Result StorageError RaftState)
  initial_state = do state ← Core.raft_state; pure (ok state)

  -- `initialized` is the method of `RaftState`, which the `raft` crate defines. A failed save is
  -- dropped, as `let _ =` does.
  unfoldable pub initialize_with_conf_state :
      (RaftState → Bool) → ConfState → Action Storage (Unit {0})
  initialize_with_conf_state initialized conf_state = do
    state ← Core.raft_state
    if initialized state then panic else do Core.save_conf_state conf_state; pure tt

  unfoldable pub apply_snapshot : Snapshot → Action Storage (Result StorageError (Unit {0}))
  apply_snapshot snapshot = do CoreSnapshots.apply_snapshot snapshot; pure (ok tt)

  unfoldable pub append : List Entry → Action Storage (Result StorageError (Unit {0}))
  append entrys = do CoreLog.append entrys; pure (ok tt)

  unfoldable pub commmit_index : ℕ → Action Storage (Result StorageError (Unit {0}))
  commmit_index idx = do CoreLog.commmit_index idx; pure (ok tt)

  unfoldable pub set_hard_state : HardState → Action Storage (Result StorageError (Unit {0}))
  set_hard_state hs = do Core.save_hard_state hs; pure (ok tt)

  unfoldable pub set_hard_state_comit : ℕ → Action Storage (Result StorageError (Unit {0}))
  set_hard_state_comit hs = do Core.set_hard_state_commit hs; pure (ok tt)

  unfoldable pub set_conf_state : ConfState → Action Storage (Result StorageError (Unit {0}))
  set_conf_state cs = do Core.save_conf_state cs; pure (ok tt)

  unfoldable pub create_snapshot : Action Storage (Result StorageError (Unit {0}))
  create_snapshot = do CoreSnapshots.create_snapshot; pure (ok tt)

  -- The loop over `low..=high` is the one of `entrys`.
  unfoldable pub entries : ℕ → ℕ → Action Storage (Result StorageError (List Entry))
  entries low high = do
    first ← Core.first_index
    if ltb low first then pure (err compacted) else do
      last ← Core.last_index
      if ltb (add_one last) high then panic else do
        entry_list ← CoreLog.collect_entries (range_inclusive low high)
        pure (ok entry_list)

  unfoldable pub term : ℕ → Action Storage (Result StorageError ℕ)
  unfolding term_or
  term idx = do
    meta ← gets (λ s. s.snapshot_metadata)
    if idx == meta.index then pure (ok meta.index) else do
      first ← Core.first_index
      if ltb idx first then pure (err compacted) else do
        last ← Core.last_index
        if ltb last idx
            then pure (err unavailable)
            else do found ← Core.entry_by_idx idx; pure (ok (term_or meta.term found))

  unfoldable pub first_index : Action Storage (Result StorageError ℕ)
  first_index = do fi ← Core.first_index; pure (ok fi)

  unfoldable pub last_index : Action Storage (Result StorageError ℕ)
  last_index = do li ← Core.last_index; pure (ok li)

  unfoldable pub snapshot : ℕ → Action Storage (Result StorageError Snapshot)
  unfolding raised
  snapshot request_index = do
    trigger ← gets (λ s. s.trigger_snap_unavailable)
    if trigger
        then pure (err snapshot_temporarily_unavailable)
        else do snap ← CoreSnapshots.snapshot; pure (ok (raised snap request_index))

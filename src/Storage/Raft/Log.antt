-- ===== src/Storage/Raft/Log.antt =====
-- placement-center/src/storage/raft.rs: `commmit_index`, `append` and `entrys`.
use robustmq_geek.Prelude.{ℕ, none, some, List, [], ◌∷◌}
use robustmq_geek.Prelude.{if◌then◌else◌, ltb, add_one, range_inclusive}
use robustmq_geek.Prelude.{Action, ◌>>=◌, ◌>>◌, pure, panic, modify, unwrap, unwrap_some}
use robustmq_geek.Prelude.Dict
use robustmq_geek.External.Rocksdb.{Rocksdb}
use robustmq_geek.External.Raft.{Entry}
use robustmq_geek.Storage.Keys.{key_name_by_entry}
use robustmq_geek.Storage.Raft.{
  RaftFormats, Storage, engine_write, first_index, last_index, entry_by_idx, hard_state,
  save_hard_state, save_last_index, save_uncommit_index,
}

module _ ⦃R : Rocksdb⦄ ⦃F : RaftFormats⦄ where
  -- A missing entry is only logged before the writes; `entry.unwrap()` panics after them.
  unfoldable pub commmit_index : ℕ → Action Storage (Unit {0})
  commmit_index idx = do
    entry ← entry_by_idx idx
    modify (λ s. record s { uncommit_index = Dict.remove idx s.uncommit_index })
    save_uncommit_index
    hs ← hard_state
    committed ← unwrap_some entry
    save_hard_state (record hs { commit = idx; term = committed.term })
    pure tt

  unfoldable pub append_entry : Entry → Action Storage (Unit {0})
  append_entry entry = do
    written ←
        engine_write F.json_bytes (key_name_by_entry entry.index)
          (F.proto_entry.encode_to_vec entry)
    unwrap written
    modify (λ s. record s { uncommit_index = Dict.insert entry.index 1 s.uncommit_index })
    saved ← save_last_index entry.index
    unwrap saved

  -- The loop of `append`.
  unfoldable pub append_each : List Entry → Action Storage (Unit {0})
  append_each [] = pure tt
  append_each (entry ∷ entrys) = do append_entry entry; append_each entrys

  unfoldable pub append : List Entry → Action Storage (Unit {0})
  append [] = pure tt
  append (entry ∷ entrys) = do
    first ← first_index
    if ltb entry.index first then panic else do
      last ← last_index
      if ltb (add_one last) entry.index
          then panic
          else do append_each (entry ∷ entrys); save_uncommit_index

  -- A loop over indices that keeps the entries that are there.
  unfoldable pub collect_entries : List ℕ → Action Storage (List Entry)
  collect_entries [] = pure []
  collect_entries (idx ∷ indices) = do
    found ← entry_by_idx idx
    rest ← collect_entries indices
    pure (elim found [ some entry ↦ entry ∷ rest | none ↦ rest ])

  unfoldable pub entrys : ℕ → ℕ → Action Storage (List Entry)
  unfolding range_inclusive
  entrys low high = collect_entries (range_inclusive low high)

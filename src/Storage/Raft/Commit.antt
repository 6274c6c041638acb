-- ===== src/Storage/Raft/Commit.antt =====
-- `commmit_index` and `set_hard_state_commit` on a database that meets no I/O error.
use mathlib.Core.Option.{get_or}
use robustmq_geek.Prelude.{ℕ, ◌≡◌, none, some, done, panicked}
use robustmq_geek.Prelude.Dict
use robustmq_geek.External.Rocksdb.{Rocksdb, IsDatabase}
use robustmq_geek.External.Raft.{Entry, HardState, default_hard_state}
use robustmq_geek.Storage.Raft.{RaftFormats, Storage, set_hard_state_commit}
use robustmq_geek.Storage.Raft.Log.{commmit_index}
use robustmq_geek.Storage.Raft.View.{AreRaftFormats, View, Represents}
use robustmq_geek.Storage.Raft.Access.{
  hard_state_lem, entry_by_idx_lem, save_uncommit_index_lem, save_hard_state_lem, Saves,
}

module _ ⦃R : Rocksdb⦄ ⦃D : IsDatabase R⦄ ⦃F : RaftFormats⦄ ⦃L : AreRaftFormats F⦄ where
  -- On a database without I/O errors, committing an index that has an entry returns. The index is
  -- then no longer uncommitted, in memory and on disk, the saved hard state has the index as its
  -- commit, the entry's term as its term and the vote it had, and nothing else of the view and of
  -- the storage in memory is changed.
  pub commmit_index_lem :
      (idx : ℕ) (e : Entry) (v : View) (s : Storage)
      → Represents s.db v
      → v.log idx ≡ some e
      → (db : R.Db) × (commmit_index idx s
          ≡ done tt (record s { uncommit_index = Dict.remove idx s.uncommit_index; db = db }))
        × Represents db (record v {
          pending = some (Dict.remove idx s.uncommit_index);
          hard = some (record (get_or v.hard default_hard_state) { commit = idx; term = e.term });
        })
  unfolding commmit_index
  commmit_index_lem idx e v s rep here =
      let s0 : Storage = record s { uncommit_index = Dict.remove idx s.uncommit_index } in
      let (d1, p1, r1) = save_uncommit_index_lem v s0 rep in
      let s1 : Storage = record s0 { db = d1 } in
      let hs : HardState = record (get_or v.hard default_hard_state) {
        commit = idx;
        term = e.term;
      } in
      let (d2, p2, r2) = save_hard_state_lem _ s1 r1 hs in
      (d2, rw (entry_by_idx_lem v s rep idx, here, p1, hard_state_lem _ s1 r1) (rw p2), r2)

  -- Committing an index that has no entry panics, and only after the index has been taken off the
  -- uncommitted ones, in memory and on disk; the hard state keeps its commit and term.
  pub commmit_index_missing :
      (idx : ℕ) (v : View) (s : Storage)
      → Represents s.db v
      → v.log idx ≡ none
      → (db : R.Db) × (commmit_index idx s
          ≡ panicked (record s { uncommit_index = Dict.remove idx s.uncommit_index; db = db }))
        × Represents db (record v { pending = some (Dict.remove idx s.uncommit_index) })
  unfolding commmit_index
  commmit_index_missing idx v s rep gone =
      let s0 : Storage = record s { uncommit_index = Dict.remove idx s.uncommit_index } in
      let (d1, p1, r1) = save_uncommit_index_lem v s0 rep in
      let s1 : Storage = record s0 { db = d1 } in
      (d1, rw (entry_by_idx_lem v s rep idx, gone, p1) (rw (hard_state_lem _ s1 r1)), r1)

  pub set_hard_state_commit_lem :
      (commit : ℕ) (v : View) (s : Storage) (rep : Represents s.db v)
      → Saves v s rep
          (set_hard_state_commit commit s)
          (record v { hard = some (record (get_or v.hard default_hard_state) { commit = commit }) })
  unfolding set_hard_state_commit
  set_hard_state_commit_lem commit v s rep =
      let (d, p, r) =
        save_hard_state_lem v s rep
          (record (get_or v.hard default_hard_state) { commit = commit }) in
      (d, rw (hard_state_lem v s rep) p, r)

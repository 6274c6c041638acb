-- ===== src/Raft/Machine/Entries.antt =====
-- What committed entries do to the machine: those without data, and those of proposals.
use mathlib.Core.Path.{subst}
use mathlib.Core.Option.{get_or}
use robustmq_geek.Prelude.{
  ℕ, ◌%◌, ◌≡◌, refl, sym, ap, ◌∙◌, true, false, some, List, ◌∷◌, Bytes, done, panicked, ◌==◌,
  add_one, is_empty,
}
use robustmq_geek.Prelude.Dict
use robustmq_geek.External.Rocksdb.{Rocksdb, IsDatabase}
use robustmq_geek.External.Formats.{IsBincode}
use robustmq_geek.External.Raft.{Entry, Snapshot, entry_normal, default_hard_state}
use robustmq_geek.External.RawNode.{RawNode}
use robustmq_geek.Storage.Kv.{KvFormats}
use robustmq_geek.Storage.Raft.{RaftFormats, Storage}
use robustmq_geek.Storage.Raft.View.{AreRaftFormats, View, Represents}
use robustmq_geek.Storage.Raft.Commit.{commmit_index_lem}
use robustmq_geek.Storage.Raft.Compaction.{metadata, taken, create_snapshot_lem}
use robustmq_geek.Raft.RocksdbStorage as Store
use robustmq_geek.Raft.Proposal.{StorageData, answered, success}
use robustmq_geek.Raft.Route.{RouteFormats, route, FirstBytes, route-panics}
use robustmq_geek.Raft.Machine.{MachineFormats, Machine}
use robustmq_geek.Raft.Machine.Committed.{
  answer, create_snapshot, handle_data, handle_committed_entry, handle_committed_entries,
}

module _ ⦃R : Rocksdb⦄ ⦃N : RawNode Storage⦄ ⦃K : KvFormats⦄ ⦃F : RaftFormats⦄ ⦃G : RouteFormats⦄
    ⦃C : MachineFormats N.Message⦄ where
  handle_data-panics :
      (B : FirstBytes G) (clock : Entry → ℕ) (sd : StorageData) (entry : Entry) (s : Machine)
      → entry.entry_type ≡ entry_normal
      → entry.bytes ≡ B.bincode.packed sd
      → handle_data clock entry.entry_type entry s ≡ panicked s
  unfolding handle_data
  handle_data-panics B clock sd entry s normal packs =
      subst (λ t. handle_data clock t entry s ≡ panicked s) (sym normal)
        (rw (
          ap (λ b. route b (clock entry) s.raft_storage.db) packs
          ∙ route-panics B sd (clock entry) s.raft_storage.db))

  -- When the serialised data of any proposal is committed, the machine panics at its entry: the
  -- database and the commit index stay as they were, the sender that waits for the entry is not
  -- answered, and the entries after it are not handled.
  pub handle_committed_entries-panics :
      (B : FirstBytes G) (clock : Entry → ℕ) (sd : StorageData) (entry : Entry)
      (entries : List Entry) (s : Machine)
      → entry.entry_type ≡ entry_normal
      → entry.bytes ≡ B.bincode.packed sd
      → handle_committed_entries clock (entry ∷ entries) s ≡ panicked s
  unfolding handle_committed_entries handle_committed_entry
  handle_committed_entries-panics B clock sd entry entries s normal packs =
      rw
        (ap is_empty (packs ∙ (B.variant sd).1), handle_data-panics B clock sd entry s normal packs)

  module _ ⦃D : IsDatabase R⦄ ⦃L : AreRaftFormats F⦄ where
    -- The view after an index is committed.
    abbrev pub committed : ℕ → Entry → Storage → View → View
    committed idx e storage v = record v {
      pending = some (Dict.remove idx storage.uncommit_index);
      hard = some (record (get_or v.hard default_hard_state) { commit = idx; term = e.term });
    }

    -- The fields of a machine that has answered a sender and counted an entry.
    abbrev pub answering : ℕ → ℕ → Storage → Machine → Machine
    answering seq chan storage s = record s {
      raft_storage = storage;
      resp_channel = Dict.remove seq s.resp_channel;
      entry_num = add_one s.entry_num;
      settled = (chan, answered success) ∷ s.settled;
    }

    answer_lem :
        (Q : IsBincode C.bincode_seq) (seq chan : ℕ) (context : Bytes) (s : Machine)
        → context ≡ Q.packed seq
        → Dict.lookup seq s.resp_channel ≡ some chan
        → answer context s
          ≡ done tt (record s {
            resp_channel = Dict.remove seq s.resp_channel;
            settled = (chan, answered success) ∷ s.settled;
          })
    unfolding answer
    answer_lem Q seq chan context s packs waits =
        rw (ap C.bincode_seq.deserialize packs ∙ Q.deserialize-packed seq, answer) (rw waits)

    create_snapshot-skips :
        (s : Machine)
        → (s.entry_num % 1000 == 0) ≡ false
        → create_snapshot s ≡ done tt (record s { entry_num = add_one s.entry_num })
    unfolding create_snapshot
    create_snapshot-skips s more = rw more

    create_snapshot-takes :
        (v : View) (s : Machine)
        → Represents s.raft_storage.db v
        → (s.entry_num % 1000 == 0) ≡ true
        → (db : R.Db) × (create_snapshot s
            ≡ done tt (record s {
              entry_num = add_one s.entry_num;
              raft_storage = record s.raft_storage { snapshot_metadata = metadata v; db = db };
            }))
          × Represents db (record v {
            first = some (metadata v).index;
            saved = some (taken v s.raft_storage.db);
          })
    unfolding create_snapshot Store.create_snapshot
    create_snapshot-takes v s rep now =
        let (d, p, r) = create_snapshot_lem v s.raft_storage rep in (d, rw now (rw p), r)

    -- The storage after an index is taken off the uncommitted ones.
    abbrev pub commits : ℕ → R.Db → Storage → Storage
    commits idx db storage = record storage {
      uncommit_index = Dict.remove idx storage.uncommit_index;
      db = db;
    }

    -- On a database without I/O errors, take an entry without data that is in the log, whose context
    -- is a packed sequence number under which a sender waits, while the machine's count of entries
    -- is not a multiple of 1000. Handling it commits it: the view has its index and the term of the
    -- entry in the log as commit and term, and the index is off the uncommitted ones. The sender is
    -- answered with success, wherever the entry was proposed, and waits no longer; the entry is
    -- counted; and nothing else of the view and of the machine in memory is changed.
    pub handle_committed_entry_lem :
        (Q : IsBincode C.bincode_seq) (clock : Entry → ℕ) (entry e : Entry) (seq chan : ℕ)
        (v : View) (s : Machine)
        → Represents s.raft_storage.db v
        → is_empty entry.bytes ≡ true
        → v.log entry.index ≡ some e
        → entry.context ≡ Q.packed seq
        → Dict.lookup seq s.resp_channel ≡ some chan
        → (s.entry_num % 1000 == 0) ≡ false
        → (db : R.Db) × (handle_committed_entry clock entry s
            ≡ done tt (answering seq chan (commits entry.index db s.raft_storage) s))
          × Represents db (committed entry.index e s.raft_storage v)
    unfolding handle_committed_entry Store.commmit_index
    handle_committed_entry_lem Q clock entry e seq chan v s rep empty here context waits more =
        let (d, p, r) = commmit_index_lem entry.index e v s.raft_storage rep here in
        let s1 : Machine = record s { raft_storage = commits entry.index d s.raft_storage } in
        let p2 = answer_lem Q seq chan entry.context s1 context waits in
        let s2 : Machine = record s1 {
          resp_channel = Dict.remove seq s.resp_channel;
          settled = (chan, answered success) ∷ s.settled;
        } in
        (d, rw (empty, p) (rw p2 (rw (create_snapshot-skips s2 more))), r)

    -- The same while the count is a multiple of 1000: a snapshot is taken as well, of
    -- what the database holds after the commit, with the index just committed and the entry's term;
    -- the log begins at that index from then on.
    pub handle_committed_entry-snapshots :
        (Q : IsBincode C.bincode_seq) (clock : Entry → ℕ) (entry e : Entry) (seq chan : ℕ)
        (v : View) (s : Machine)
        → Represents s.raft_storage.db v
        → is_empty entry.bytes ≡ true
        → v.log entry.index ≡ some e
        → entry.context ≡ Q.packed seq
        → Dict.lookup seq s.resp_channel ≡ some chan
        → (s.entry_num % 1000 == 0) ≡ true
        → (storage : Storage) × (saved : Snapshot) × (handle_committed_entry clock entry s
            ≡ done tt (answering seq chan storage s))
          × Represents storage.db (record (committed entry.index e s.raft_storage v) {
            first = some entry.index;
            saved = some saved;
          })
          × (storage.snapshot_metadata.index ≡ entry.index)
          × (storage.snapshot_metadata.term ≡ e.term)
          × (saved.metadata ≡ storage.snapshot_metadata)
    unfolding handle_committed_entry Store.commmit_index
    handle_committed_entry-snapshots Q clock entry e seq chan v s rep empty here context waits now =
        let (d, p, r) = commmit_index_lem entry.index e v s.raft_storage rep here in
        let v1 : View = committed entry.index e s.raft_storage v in
        let s1 : Machine = record s { raft_storage = commits entry.index d s.raft_storage } in
        let p2 = answer_lem Q seq chan entry.context s1 context waits in
        let s2 : Machine = record s1 {
          resp_channel = Dict.remove seq s.resp_channel;
          settled = (chan, answered success) ∷ s.settled;
        } in
        let (d', p3, r') = create_snapshot-takes v1 s2 r now in
        (
          record (commits entry.index d s.raft_storage) {
            snapshot_metadata = metadata v1;
            db = d';
          },
          taken v1 d,
          rw (empty, p) (rw p2 (rw p3)),
          r',
          refl,
          refl,
          refl,
        )

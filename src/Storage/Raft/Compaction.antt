-- ===== src/Storage/Raft/Compaction.antt =====
-- `create_snapshot` and `snapshot` on a database that meets no I/O error, and what the data of a
-- snapshot hold.
use mathlib.Core.Option.{get_or}
use robustmq_geek.Prelude.{◌≡◌, refl, some, done}
use robustmq_geek.External.Rocksdb.{Rocksdb, IsDatabase}
use robustmq_geek.External.Raft.{Snapshot, SnapshotMetadata, default_hard_state, default_conf_state}
use robustmq_geek.Storage.Rocksdb.{read_all}
use robustmq_geek.Storage.Keys.Raft as Keys
use robustmq_geek.Storage.Keys.Raft.{name}
use robustmq_geek.Storage.Raft.{RaftFormats, Storage, first_index, engine_read, decode_or_default}
use robustmq_geek.Storage.Raft.Snapshots.{create_snapshot_metadata, create_snapshot, snapshot}
use robustmq_geek.Storage.Raft.View.{AreRaftFormats, View, Represents, read-stored-some}
use robustmq_geek.Storage.Raft.Access.{
  hard_state_lem, conf_state_lem, first_index_lem, save_first_index_lem, save_snapshot_data_lem,
}

-- The metadata of a snapshot of a view: its configuration, and the commit and term of its hard
-- state.
abbrev pub metadata : View → SnapshotMetadata
metadata v = record {
  conf_state = get_or v.conf default_conf_state;
  index = (get_or v.hard default_hard_state).commit;
  term = (get_or v.hard default_hard_state).term;
}

module _ ⦃R : Rocksdb⦄ ⦃D : IsDatabase R⦄ ⦃F : RaftFormats⦄ ⦃L : AreRaftFormats F⦄ where
  pub create_snapshot_metadata_lem :
      (v : View) (s : Storage)
      → Represents s.db v
      → create_snapshot_metadata s ≡ done (metadata v) s
  unfolding create_snapshot_metadata
  create_snapshot_metadata_lem v s rep = rw (hard_state_lem v s rep) (rw (conf_state_lem v s rep))

  -- The snapshot that `create_snapshot` saves: everything in the database as it was, packed.
  abbrev pub taken : View → R.Db → Snapshot
  taken v db = record { bytes = L.all.packed (read_all db); metadata = metadata v }

  -- What `create_snapshot` does to the storage: the database then holds the view with the commit
  -- index as first index and the packed data as the saved snapshot.
  pub create_snapshot_lem :
      (v : View) (s : Storage)
      → Represents s.db v
      → (db : R.Db) × (create_snapshot s
          ≡ done tt (record s { snapshot_metadata = metadata v; db = db }))
        × Represents db (record v { first = some (metadata v).index; saved = some (taken v s.db) })
  unfolding create_snapshot
  create_snapshot_lem v s rep =
      let (d1, p1, r1) = save_first_index_lem v s rep (metadata v).index in
      let s1 : Storage = record s { db = d1 } in
      let (d2, p2, r2) = save_snapshot_data_lem _ s1 r1 (taken v s.db) in
      (
        d2,
        rw (create_snapshot_metadata_lem v s rep, L.all.serialize-packed (read_all s.db), p1)
            (rw p2),
        r2,
      )

  -- On a database without I/O errors `snapshot` returns the snapshot that it has just taken, and
  -- leaves it saved.
  pub snapshot_lem :
      (v : View) (s : Storage)
      → Represents s.db v
      → (db : R.Db) × (snapshot s
          ≡ done (taken v s.db) (record s { snapshot_metadata = metadata v; db = db }))
        × Represents db (record v { first = some (metadata v).index; saved = some (taken v s.db) })
  unfolding snapshot engine_read decode_or_default name
  snapshot_lem v s rep =
      let (d, p, r) = create_snapshot_lem v s rep in
      let s1 : Storage = record s { snapshot_metadata = metadata v; db = d } in
      (
        d,
        rw p (
            rw
              (read-stored-some F.json_bytes L.bytes Keys.snapshot
                (F.proto_snapshot.encode_to_vec (taken v s.db)) _ d r refl)
              (rw (L.snapshot.decode-encode_to_vec (taken v s.db)))),
        r,
      )

  -- After `create_snapshot` the first index of the log is the snapshot's own index, and not the one
  -- after it, which it is on a storage where nothing was saved as first index.
  pub first_index-create_snapshot :
      (v : View) (s : Storage)
      → Represents s.db v
      → (s' : Storage) × (create_snapshot s ≡ done tt s')
        × (first_index s' ≡ done s'.snapshot_metadata.index s')
  first_index-create_snapshot v s rep =
      let (d, p, r) = create_snapshot_lem v s rep in
      let s' : Storage = record s { snapshot_metadata = metadata v; db = d } in
      (s', p, first_index_lem _ s' r)

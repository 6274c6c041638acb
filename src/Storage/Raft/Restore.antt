-- ===== src/Storage/Raft/Restore.antt =====
-- `apply_snapshot` with a snapshot that another node took, on databases that meet no I/O error.
use mathlib.Core.Option.{get_or, or_else}
use Prim.Native.Nat.{max}
use robustmq_geek.Prelude.{
  ℕ, ◌≤◌, ◌≡◌, ◌∙◌, refl, sym, ap, true, false, some, [], ◌∷◌, Bytes, ok, eq_bytes, ltb, arith,
  add_one, done, done-injective,
}
use robustmq_geek.External.Rocksdb.{Rocksdb, IsDatabase}
use robustmq_geek.External.OpenRaft.{IsDistinct}
use robustmq_geek.External.Raft.{Snapshot, SnapshotMetadata, default_hard_state}
use robustmq_geek.Storage.Keys.Raft as Keys
use robustmq_geek.Storage.Keys.Raft.{RaftKey, name}
use robustmq_geek.Storage.Rocksdb.{
  cf_cluster, read_all, read_all_by_cf, column_family_list, utf8_items,
}
use robustmq_geek.Storage.Rocksdb.ReadWrite.{find-write}
use robustmq_geek.Storage.Raft.{
  RaftFormats, Storage, engine_write, save_hard_state, save_conf_state,
}
use robustmq_geek.Storage.Raft.Snapshots.{apply_snapshot, write_all, write_families, write_raws}
use robustmq_geek.Storage.Raft.View.{AreRaftFormats, View, Represents}
use robustmq_geek.Storage.Raft.Access.{
  hard_state_lem, first_index_lem, save_hard_state_lem, save_conf_state_lem,
}
use robustmq_geek.Storage.Raft.Merge.{
  over, merged, over-stored, Reads, write_raws-healthy, find-write_raws,
}

module _ ⦃R : Rocksdb⦄ ⦃D : IsDatabase R⦄ ⦃F : RaftFormats⦄ ⦃L : AreRaftFormats F⦄ where
  -- The database after the data of another is written.
  abbrev pub restored : R.Db → R.Db → R.Db
  restored source db = write_raws (utf8_items (R.iterate source cf_cluster [])) db

  find-restored :
      (source db : R.Db) (k : Bytes)
      → D.healthy source ≡ true
      → D.healthy db ≡ true
      → IsDistinct (R.iterate source cf_cluster [])
      → D.find (restored source db) cf_cluster k
        ≡ over k (D.find source cf_cluster k) (D.find db cf_cluster k)
  unfolding Reads
  find-restored source db k fine fine' distinct =
      find-write_raws (R.iterate source cf_cluster []) db k distinct fine'
      ∙ ap (λ o. over k o (D.find db cf_cluster k)) (D.find-iterate source cf_cluster [] k fine)

  restored-Represents :
      (source db : R.Db) (v w : View)
      → IsDistinct (R.iterate source cf_cluster [])
      → Represents source v
      → Represents db w
      → Represents (restored source db) (merged v w)
  restored-Represents source db v w distinct from at = record {
    fine = write_raws-healthy (R.iterate source cf_cluster []) db at.fine;
    content = λ k.
        find-restored source db (name k) from.fine at.fine distinct
        ∙ rw (from.content k, at.content k) (over-stored v w k);
  }

  -- `bincode` begins a map with its length.
  abbrev pub Filled : Type 0
  Filled = (source : R.Db) → (b : ℕ) × (rest : Bytes) × (L.all.packed (read_all source) ≡ b ∷ rest)

  write_all-parsed :
      (source : R.Db) (s : Storage) (b : ℕ) (rest : Bytes)
      → F.bincode_all.deserialize (b ∷ rest) ≡ ok (read_all source)
      → write_all (b ∷ rest) s ≡ done tt (record s { db = restored source s.db })
  unfolding write_all write_families read_all read_all_by_cf column_family_list
  write_all-parsed source s b rest q = rw q refl

  write_all_lem :
      (filled : Filled) (source : R.Db) (s : Storage)
      → write_all (L.all.packed (read_all source)) s
        ≡ done tt (record s { db = restored source s.db })
  write_all_lem filled source s =
      let (b, rest, p) = filled source in
      rw p (write_all-parsed source s b rest (rw p at (L.all.deserialize-packed (read_all source))))

  abbrev pub sent : R.Db → SnapshotMetadata → Snapshot
  sent source meta = record { bytes = L.all.packed (read_all source); metadata = meta }

  -- The view after a snapshot of the first view was applied to the second.
  abbrev pub taken_over : SnapshotMetadata → View → View → View
  taken_over meta v w =
      let hs = get_or (or_else v.hard w.hard) default_hard_state in
      record (merged v w) {
        hard = some (record hs { term = max hs.term meta.term; commit = meta.index });
        conf = some meta.conf_state;
      }

  -- A write of the storage changes its own key alone.
  engine_write-others :
      (k : RaftKey) (value : Bytes) (s : Storage) (db : R.Db) (j : Bytes)
      → D.healthy s.db ≡ true
      → engine_write F.json_bytes (name k) value s ≡ done (ok tt) (record s { db = db })
      → eq_bytes j (name k) ≡ false
      → D.find db cf_cluster j ≡ D.find s.db cf_cluster j
  unfolding engine_write eq_bytes
  engine_write-others k value s db j fine p differ =
      ap (λ (t : Storage). D.find t.db cf_cluster j) (sym (done-injective p).1)
      ∙ find-write s.db fine F.json_bytes L.bytes cf_cluster (name k) value cf_cluster j
      ∙ rw differ refl

  -- On databases without I/O errors, applying a snapshot that holds everything in another database
  -- and whose index is not below the first index succeeds, if an iterator passes no key of the other
  -- one twice and packed data are not empty. The storage then represents the view of
  -- the other one laid over its own: each record and each entry is the other one's if it has one,
  -- and its own if not, up to the configuration, which is that of the snapshot, and the hard state,
  -- which has the snapshot's index as commit and a term not below the snapshot's. Every other key
  -- reads as in the other database if that has a UTF-8 value for it, and as before if not.
  pub apply_snapshot_lem :
      (filled : Filled) (source : R.Db) (meta : SnapshotMetadata) (s : Storage) (v w : View)
      (j : Bytes)
      → IsDistinct (R.iterate source cf_cluster [])
      → Represents source v
      → Represents s.db w
      → eq_bytes j (name Keys.hard_state) ≡ false
      → eq_bytes j (name Keys.conf_state) ≡ false
      → get_or w.first (add_one s.snapshot_metadata.index) ≤ meta.index
      → (db : R.Db) × (apply_snapshot (sent source meta) s
          ≡ done (ok tt) (record s { snapshot_metadata = meta; db = db }))
        × Represents db (taken_over meta v w)
        × (D.find db cf_cluster j ≡ over j (D.find source cf_cluster j) (D.find s.db cf_cluster j))
  unfolding apply_snapshot save_hard_state save_conf_state name
  apply_snapshot_lem filled source meta s v w j distinct from at not_hard not_conf above =
      let s1 : Storage = record s { snapshot_metadata = meta; db = restored source s.db } in
      let rep1 = restored-Represents source s.db v w distinct from at in
      let hs = get_or (or_else v.hard w.hard) default_hard_state in
      let (d2, p2, rep2) =
        save_hard_state_lem (merged v w) s1 rep1
          (record hs { term = max hs.term meta.term; commit = meta.index }) in
      let s2 : Storage = record s1 { db = d2 } in
      let (d3, p3, rep3) = save_conf_state_lem _ s2 rep2 meta.conf_state in
      (
        d3,
        rw (first_index_lem w s at, not_below)
            (rw (write_all_lem filled source (record s { snapshot_metadata = meta }))
              (rw (hard_state_lem (merged v w) s1 rep1) (rw p2 (rw p3 refl)))),
        rep3,
        engine_write-others Keys.conf_state _ s2 d3 j rep2.fine p3 not_conf
            ∙ engine_write-others Keys.hard_state _ s1 d2 j rep1.fine p2 not_hard
            ∙ find-restored source s.db j from.fine at.fine distinct,
      )
    where
      not_below : ltb meta.index (get_or w.first (add_one s.snapshot_metadata.index)) ≡ false
      not_below = ground arith

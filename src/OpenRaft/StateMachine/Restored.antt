-- ===== src/OpenRaft/StateMachine/Restored.antt =====
-- The snapshots of `StateMachineStore`: what a restart and another node read from them.
use robustmq_geek.Prelude.{refl, ◌≡◌, true, some, List, [], ok, done, eq_bytes_refl, codes}
use robustmq_geek.External.Rocksdb.{Rocksdb, IsDatabase}
use robustmq_geek.External.Formats.{IsJson}
use robustmq_geek.External.TreeMap.{Items}
use robustmq_geek.External.OpenRaft.{Wal, IsWal}
use robustmq_geek.OpenRaft.Types.{
  Entry, AppResponseData, StateMachineStore, Shared, SnapshotFormats, StoredSnapshot,
}
use robustmq_geek.OpenRaft.StateMachine.{
  apply, build_snapshot, install_snapshot, new, fresh, get_snapshot_builder, set_current_snapshot_,
  get_current_snapshot_, update_state_machine_, snapshot_of, store, meta_of, get_current_snapshot,
}
use robustmq_geek.OpenRaft.StateMachine.Applied.{apply_lem, last_log_id}

pub record AreSnapshotFormats (F : SnapshotFormats) : Type 0 where
  pub kvs : IsJson F.json_kvs
  pub snapshot : IsJson F.json_snapshot

module _ ⦃R : Rocksdb⦄ ⦃D : IsDatabase R⦄ ⦃W : Wal R⦄ ⦃L : IsWal D W⦄ ⦃F : SnapshotFormats⦄
    ⦃J : AreSnapshotFormats F⦄ where
  abbrev holding : StoredSnapshot → Shared R.Db → Shared R.Db
  holding snap s = record s {
    db = (R.put_cf s.db store (codes "snapshot") (J.snapshot.written snap)).1;
  }

  set_current_snapshot_-ok :
      (snap : StoredSnapshot) (s : Shared R.Db)
      → D.healthy s.db ≡ true
      → set_current_snapshot_ snap s ≡ done (ok tt) (holding snap s)
  unfolding set_current_snapshot_
  set_current_snapshot_-ok snap s fine = rw (
    J.snapshot.to_vec-written snap,
    D.put-ok s.db store (codes "snapshot") (J.snapshot.written snap) fine,
    L.flush-ok (holding snap s).db
        (D.put-healthy s.db store (codes "snapshot") (J.snapshot.written snap) fine),
  )

  get_current_snapshot_-set :
      (snap : StoredSnapshot) (s : Shared R.Db) (kvs : Items)
      → D.healthy s.db ≡ true
      → get_current_snapshot_ (record { kvs = kvs; db = (holding snap s).db }) ≡ ok (some snap)
  unfolding get_current_snapshot_
  get_current_snapshot_-set snap s kvs fine =
      let key = codes "snapshot" in
      let value = J.snapshot.written snap in
      rw (
        D.get-find (holding snap s).db store key (D.put-healthy s.db store key value fine),
        D.find-put s.db store key value store key fine,
        eq_bytes_refl store,
        eq_bytes_refl key,
        J.snapshot.from_slice-written snap,
        get_current_snapshot_,
      )

  abbrev built : StateMachineStore → Shared R.Db → StoredSnapshot
  built sm s = snapshot_of sm (J.kvs.written s.kvs)

  build_snapshot_lem :
      (sm : StateMachineStore) (s : Shared R.Db)
      → D.healthy s.db ≡ true
      → build_snapshot sm s ≡ done (ok (built sm s)) (holding (built sm s) s)
  unfolding build_snapshot
  build_snapshot_lem sm s fine =
      rw (J.kvs.to_vec-written s.kvs, set_current_snapshot_-ok (built sm s) s fine)

  update-built :
      (sm t : StateMachineStore) (s u : Shared R.Db)
      → update_state_machine_ (built sm s) t u
        ≡ done
            (
              ok tt,
              record t {
                last_applied_log_id = sm.last_applied_log_id;
                last_membership = sm.last_membership;
              },
            )
            (record u { kvs = s.kvs })
  unfolding update_state_machine_ meta_of
  update-built sm t s u = rw (J.kvs.from_slice-written s.kvs, update_state_machine_)

  -- On a database without I/O errors and with formats that read back what they write, building a
  -- snapshot succeeds and keeps the map, the snapshot is the current one, and a store that is then started anew on the database has the
  -- applied log id, the membership and the map of the store that built it, and the snapshot counter
  -- 0.
  pub new-build_snapshot :
      (sm : StateMachineStore) (s : Shared R.Db)
      → D.healthy s.db ≡ true
      → (snap : StoredSnapshot) × (d : R.Db) × (build_snapshot sm s
          ≡ done (ok snap) (record { kvs = s.kvs; db = d }))
        × (get_current_snapshot (record { kvs = s.kvs; db = d })
            ≡ done (ok (some snap)) (record { kvs = s.kvs; db = d }))
        × (new (fresh d)
            ≡ done (ok (record sm { snapshot_idx = 0 })) (record { kvs = s.kvs; db = d }))
  unfolding new get_current_snapshot
  new-build_snapshot sm s fine = (
    built sm s,
    (holding (built sm s) s).db,
    build_snapshot_lem sm s fine,
    rw (get_current_snapshot_-set (built sm s) s s.kvs fine),
    rw (
      get_current_snapshot_-set (built sm s) s [] fine,
      update-built sm _ s (fresh (holding (built sm s) s).db),
    ),
  )

  -- On databases without I/O errors and with formats that read back what they write, installing
  -- the snapshot that one store built gives any other store the applied log id, the membership and
  -- the map of the first, keeps its own snapshot counter, and is what it finds when it is started
  -- anew.
  pub install_snapshot-build_snapshot :
      (sm t : StateMachineStore) (s u : Shared R.Db)
      → D.healthy s.db ≡ true
      → D.healthy u.db ≡ true
      → (snap : StoredSnapshot) × (s' : Shared R.Db) × (d : R.Db) × (build_snapshot sm s
          ≡ done (ok snap) s')
        × (install_snapshot snap.meta snap.bytes t u
            ≡ done
                (ok tt, record sm { snapshot_idx = t.snapshot_idx })
                (record { kvs = s.kvs; db = d }))
        × (new (fresh d)
            ≡ done (ok (record sm { snapshot_idx = 0 })) (record { kvs = s.kvs; db = d }))
  unfolding install_snapshot new
  install_snapshot-build_snapshot sm t s u fine fine' =
      let after = holding (built sm s) (record u { kvs = s.kvs }) in
      (
        built sm s,
        holding (built sm s) s,
        after.db,
        build_snapshot_lem sm s fine,
        rw (
          update-built sm t s u,
          set_current_snapshot_-ok (built sm s) (record u { kvs = s.kvs }) fine',
        ),
        rw (
          get_current_snapshot_-set (built sm s) (record u { kvs = s.kvs }) [] fine',
          update-built sm _ s (fresh after.db),
        ),
      )

  -- On a database without I/O errors and with formats that read back what they write, a snapshot
  -- that is built by a builder obtained before entries were applied names the log id from before
  -- them and holds the map from after them.
  pub build_snapshot-apply :
      (entries : List Entry) (sm : StateMachineStore) (s : Shared R.Db)
      → D.healthy s.db ≡ true
      → (replies : List AppResponseData) × (sm' : StateMachineStore) × (kvs : Items) × (apply
            entries
            (get_snapshot_builder sm)
            s
          ≡ done (ok replies, sm') (record s { kvs = kvs }))
        × (sm'.last_applied_log_id ≡ last_log_id entries sm.last_applied_log_id)
        × (snap : StoredSnapshot) × (d : R.Db) × (build_snapshot
              (get_snapshot_builder sm)
              (record s { kvs = kvs })
            ≡ done (ok snap) (record { kvs = kvs; db = d }))
        × (snap.meta.last_log_id ≡ sm.last_applied_log_id)
        × (F.json_kvs.from_slice snap.bytes ≡ ok kvs)
  unfolding get_snapshot_builder meta_of
  build_snapshot-apply entries sm s fine =
      let builder = get_snapshot_builder sm in
      let (kvs, applied, _) = apply_lem entries builder s in
      let now = record s { kvs = kvs } in
      (
        _,
        _,
        kvs,
        applied,
        refl,
        built builder now,
        (holding (built builder now) now).db,
        build_snapshot_lem builder now fine,
        refl,
        J.kvs.from_slice-written kvs,
      )

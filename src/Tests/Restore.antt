-- ===== src/Tests/Restore.antt =====
-- A snapshot of one node that another node applies, at concrete inputs.
use robustmq_geek.Prelude.{◌≡◌, refl, [], codes, ok, done, arith, eq_bytes}
use robustmq_geek.External.Raft.{SnapshotMetadata, default_conf_state}
use robustmq_geek.Storage.Keys.Raft.{name}
use robustmq_geek.Storage.Keys.{key_name_by_hard_state, key_name_by_conf_state}
use robustmq_geek.Storage.Rocksdb.{cf_cluster}
use robustmq_geek.Storage.Raft.Snapshots.{apply_snapshot}
use robustmq_geek.Storage.Raft.View.{Represents}
use robustmq_geek.Storage.Raft.Merge.{over}
use robustmq_geek.Storage.Raft.Restore.{Filled, sent, taken_over, apply_snapshot_lem}
use robustmq_geek.Tests.Memory.{memory, memory-IsDatabase, find}
use robustmq_geek.Tests.Memory.Distinct.{iterate-IsDistinct}
use robustmq_geek.Tests.Formats.{raft_formats, raft_formats-AreRaftFormats}
use robustmq_geek.Tests.Storage.{start, start-Represents, nothing, after_append, one_entry, loaded}

abbrev meta_of_one : SnapshotMetadata
meta_of_one = record { conf_state = default_conf_state; index = 1; term = 4 }

filled : Filled
filled source = (_, _, refl)

apply_snapshot_lem_example :
    (db : memory.Db) × (apply_snapshot (sent after_append.db meta_of_one) start
      ≡ done (ok tt) (record start { snapshot_metadata = meta_of_one; db = db }))
    × Represents db (taken_over meta_of_one one_entry nothing)
    × (find db cf_cluster (codes "a")
        ≡ over
            (codes "a")
            (find after_append.db cf_cluster (codes "a"))
            (find start.db cf_cluster (codes "a")))
unfolding eq_bytes name key_name_by_hard_state key_name_by_conf_state
apply_snapshot_lem_example =
    apply_snapshot_lem filled after_append.db meta_of_one start one_entry nothing (codes "a")
      (iterate-IsDistinct after_append.db cf_cluster []) loaded.1 start-Represents refl refl
      (omega arith)

-- ===== src/Tests/Raft.antt =====
-- The theorems on the raft layer at concrete inputs.
use Prim.Native.Nat.{max}
use robustmq_geek.Prelude.{◌≤◌, ◌<◌, ◌≡◌, refl, ◌++◌}
use robustmq_geek.Prelude.{Text, List, some, [], ◌∷◌, ok, err, arith}
use robustmq_geek.Prelude.{done, panicked, count_from}
use robustmq_geek.External.Raft.{Snapshot, compacted}
use robustmq_geek.Storage.Raft.{first_index, Storage}
use robustmq_geek.Storage.Raft.View.{Represents}
use robustmq_geek.Storage.Raft.ReadBack.{present, with_found}
use robustmq_geek.Storage.Raft.Compaction.{metadata}
use robustmq_geek.Storage.Raft.Contents.{Holds}
use robustmq_geek.Storage.Rocksdb.{cf_cluster, Raw}
use robustmq_geek.Tests.Memory.Distinct.{iterate-IsDistinct}
use robustmq_geek.Raft.RocksdbStorage.{entries, term, snapshot, create_snapshot}
use robustmq_geek.Raft.RocksdbStorage.Reads.{
  entries_lem, entries_refuses, term-create_snapshot, snapshot-ge-request,
}
use robustmq_geek.Raft.Proposal.{new_storage_data, kv_set}
use robustmq_geek.Raft.Route.{route, route-panics}
use robustmq_geek.Tests.Memory.{memory, memory-IsDatabase}
use robustmq_geek.Tests.Formats.{
  kv_formats, raft_formats, raft_formats-AreRaftFormats, route_formats, route_formats-FirstBytes,
}
use robustmq_geek.Tests.Storage.{one_entry, after_append, loaded}

entries_lem_example :
    entries 1 1 after_append
    ≡ done
        (ok (present one_entry.log (count_from 1 0) ++ with_found (one_entry.log 1) []))
        after_append
entries_lem_example =
    entries_lem 1 1 one_entry after_append loaded.1 (omega arith) (omega arith) (omega arith)

entries_refuses_example :
    (0 < 1 → entries 0 9 after_append ≡ done (err compacted) after_append)
    × (1 ≤ 0 → 2 < 9 → entries 0 9 after_append ≡ panicked after_append)
entries_refuses_example = entries_refuses 0 9 one_entry after_append loaded.1

term-create_snapshot_example :
    (s' : Storage) × (create_snapshot after_append ≡ done (ok tt) s')
    × (s'.snapshot_metadata.term ≡ (metadata one_entry).term)
    × (term (metadata one_entry).index s' ≡ done (ok (metadata one_entry).index) s')
    × (first_index s' ≡ done (metadata one_entry).index s')
term-create_snapshot_example = term-create_snapshot one_entry after_append loaded.1

snapshot-ge-request_example :
    (snap : Snapshot) × (s' : Storage) × (families : List (Text × List Raw)) × (snapshot 5
        after_append
      ≡ done (ok snap) s')
    × (snap.metadata.index ≡ max 0 5)
    × (snap.metadata.term ≡ 0)
    × (raft_formats.bincode_all.deserialize snap.bytes ≡ ok families)
    × Holds families after_append.db
    × Represents s'.db (record one_entry {
      first = some (metadata one_entry).index;
      saved = some (record snap { metadata = metadata one_entry });
    })
snapshot-ge-request_example =
    snapshot-ge-request 5 one_entry after_append loaded.1
      (iterate-IsDistinct after_append.db cf_cluster []) refl

route-panics_example :
    route (route_formats-FirstBytes.bincode.packed (new_storage_data kv_set (10 ∷ 1 ∷ []))) 7 []
    ≡ panicked []
route-panics_example =
    route-panics route_formats-FirstBytes (new_storage_data kv_set (10 ∷ 1 ∷ [])) 7 []

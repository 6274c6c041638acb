-- ===== src/Tests/Storage.antt =====
-- The storage theorems at concrete inputs, over the database in memory.
use robustmq_geek.Prelude.{ℕ, ◌<◌, ◌≡◌, refl, inr}
use robustmq_geek.Prelude.{none, some, List, [], ◌∷◌, ok, Text, Bytes, codes, arith}
use robustmq_geek.Prelude.{done, panicked, starts_with, if◌then◌else◌}
use robustmq_geek.Prelude.Dict
use robustmq_geek.External.Raft.{Entry, Snapshot, entry_normal, default_conf_state}
use robustmq_geek.External.Rocksdb.{find_item}
use robustmq_geek.Storage.Keys.Raft.{RaftKey, name, entry, first_index, name-injective}
use robustmq_geek.Storage.Rocksdb.{cf_cluster, read_prefix, Raw}
use robustmq_geek.Storage.Rocksdb.Scan.{read_prefix_complete, read_prefix_hangs}
use robustmq_geek.Storage.Kv.{get}
use robustmq_geek.Storage.Kv.RoundTrip.{get_of_missing}
use robustmq_geek.Storage.Kv.History.{Write, setting, deleting, perform, latest, get-perform}
use robustmq_geek.Storage.Raft as Raft
use robustmq_geek.Storage.Raft.{Storage}
use robustmq_geek.Storage.Raft.Log.{append, entrys, commmit_index}
use robustmq_geek.Storage.Raft.Snapshots.{fresh, create_snapshot}
use robustmq_geek.Storage.Raft.View.{View, Represents}
use robustmq_geek.Storage.Raft.Append.{Fits, appended, marked, append_accepts, append_refuses}
use robustmq_geek.Storage.Raft.ReadBack.{append-entrys}
use robustmq_geek.Storage.Raft.Commit.{commmit_index_lem, commmit_index_missing}
use robustmq_geek.Storage.Raft.Contents.{Holds, create_snapshot-Holds}
use robustmq_geek.Tests.Memory.Distinct.{iterate-IsDistinct}
use robustmq_geek.Tests.Memory.{memory, memory-IsDatabase, find-nil, put, find, run_scan}
use robustmq_geek.Tests.Formats.{
  kv_formats, kv_formats-AreKvFormats, raft_formats, raft_formats-AreRaftFormats,
}

abbrev pub nothing : View
nothing = record {
  first = none;
  last = none;
  hard = none;
  conf = none;
  pending = none;
  saved = none;
  log = λ i. none;
}

-- A new storage on an empty database.
abbrev pub start : Storage
start = fresh []

pub start-Represents : Represents start.db nothing
start-Represents = record { fine = refl; content = missing }
  where
    missing : (k : RaftKey) → find [] cf_cluster (name k) ≡ Raft.View.stored nothing k
    missing first_index = find-nil cf_cluster (name first_index)
    missing (entry i) = find-nil cf_cluster (name (entry i))
    missing k = find-nil cf_cluster (name k)

abbrev pub entry_at : ℕ → ℕ → Entry
entry_at term index = record {
  entry_type = entry_normal;
  term = term;
  index = index;
  bytes = b'x' ∷ [];
  context = [];
}

pub start-Fits : Fits start.snapshot_metadata.index nothing 1
start-Fits = record { not_compacted = omega arith; no_gap = omega arith }

append_accepts_example :
    (db : memory.Db) × (append (entry_at 4 1 ∷ entry_at 4 2 ∷ []) start
      ≡ done tt
          (record start { uncommit_index = marked (entry_at 4 1 ∷ entry_at 4 2 ∷ []) []; db = db }))
    × Represents db (record (appended (entry_at 4 1 ∷ entry_at 4 2 ∷ []) nothing) {
      pending = some (marked (entry_at 4 1 ∷ entry_at 4 2 ∷ []) []);
    })
append_accepts_example =
    append_accepts (entry_at 4 1) (entry_at 4 2 ∷ []) nothing start start-Represents start-Fits

append_refuses_example : append (entry_at 4 3 ∷ []) start ≡ panicked start
append_refuses_example =
    append_refuses (entry_at 4 3) [] nothing start start-Represents (inr (omega arith))

append-entrys_example :
    (s' : Storage) × (append (entry_at 4 1 ∷ entry_at 4 2 ∷ []) start ≡ done tt s')
    × (entrys 1 2 s' ≡ done (entry_at 4 1 ∷ entry_at 4 2 ∷ []) s')
    × ((j : ℕ) → j < 1 → Raft.entry_by_idx j s' ≡ done none s')
    × ((j : ℕ) → 2 < j → Raft.entry_by_idx j s' ≡ done none s')
append-entrys_example =
    append-entrys (entry_at 4 1) (entry_at 4 2 ∷ []) nothing start start-Represents start-Fits
      (refl, (refl, tt))

-- The storage after an entry at index 1 with term 4.
abbrev pub one_entry : View
one_entry = record (appended (entry_at 4 1 ∷ []) nothing) {
  pending = some (marked (entry_at 4 1 ∷ []) []);
}

pub loaded : (db : memory.Db) × Represents db one_entry
loaded =
    let (db, p, r) = append_accepts (entry_at 4 1) [] nothing start start-Represents start-Fits in
    (db, r)

abbrev pub after_append : Storage
after_append = record start { uncommit_index = marked (entry_at 4 1 ∷ []) []; db = loaded.0 }

commmit_index_lem_example :
    (db : memory.Db) × (commmit_index 1 after_append
      ≡ done tt (record after_append {
        uncommit_index = Dict.remove 1 after_append.uncommit_index;
        db = db;
      }))
    × Represents db (record one_entry {
      pending = some (Dict.remove 1 after_append.uncommit_index);
      hard = some (record { term = 4; vote = 0; commit = 1 });
    })
commmit_index_lem_example = commmit_index_lem 1 (entry_at 4 1) one_entry after_append loaded.1 refl

commmit_index_missing_example :
    (db : memory.Db) × (commmit_index 7 start
      ≡ panicked (record start { uncommit_index = Dict.remove 7 []; db = db }))
    × Represents db (record nothing { pending = some (Dict.remove 7 []) })
commmit_index_missing_example = commmit_index_missing 7 nothing start start-Represents refl

create_snapshot-Holds_example :
    (db : memory.Db) × (snap : Snapshot) × (families : List (Text × List Raw)) × (create_snapshot
        after_append
      ≡ done tt (record after_append { snapshot_metadata = snap.metadata; db = db }))
    × (snap.metadata ≡ record { conf_state = default_conf_state; index = 0; term = 0 })
    × Represents db (record one_entry { first = some snap.metadata.index; saved = some snap })
    × (raft_formats.bincode_all.deserialize snap.bytes ≡ ok families)
    × Holds families loaded.0
create_snapshot-Holds_example =
    create_snapshot-Holds one_entry after_append loaded.1
      (iterate-IsDistinct after_append.db cf_cluster [])

abbrev ops : List Write
ops =
    setting (codes "a") (codes "1") 7
    ∷ setting (codes "b") (codes "2") 8
    ∷ deleting (codes "a")
    ∷ []

get-perform_example : get (codes "b") (perform ops []) ≡ ok (latest (codes "b") ops none)
get-perform_example = get-perform ops [] (codes "b") none refl get_start
  where
    get_start : get (codes "b") [] ≡ ok none
    get_start = get_of_missing [] (codes "b") refl (find-nil cf_cluster (codes "b"))

abbrev two_keys : memory.Db
two_keys =
    put cf_cluster (codes "/a/1") (codes "x") ∷ put cf_cluster (codes "/b/1") (codes "y") ∷ []

read_prefix_complete_example :
    (result : List (Text × Bytes)) × (read_prefix 3 cf_cluster (codes "/a") two_keys ≡ some result)
    × ((k : Text)
        → find_item k result
          ≡ (if starts_with k (codes "/a") then find two_keys cf_cluster k else none))
unfolding run_scan
read_prefix_complete_example =
    read_prefix_complete two_keys refl 3 cf_cluster (codes "/a") (refl, (refl, tt)) (omega arith)

read_prefix_hangs_example :
    read_prefix 100 cf_cluster (codes "a") (put cf_cluster (0xff ∷ []) (codes "x") ∷ []) ≡ none
unfolding run_scan
read_prefix_hangs_example =
    read_prefix_hangs (put cf_cluster (0xff ∷ []) (codes "x") ∷ []) 100 cf_cluster (codes "a")
      (0xff ∷ []) (codes "x") [] refl refl

name-injective_example : entry 12 ≡ entry 12
name-injective_example = name-injective (entry 12) (entry 12) refl

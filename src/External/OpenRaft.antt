-- ===== src/External/OpenRaft.antt =====
-- The types of the `openraft` crate that the stores keep, at the types of the program, and what the
-- stores call of `rocksdb` besides the reads and writes.
use robustmq_geek.Prelude.{
  ℕ, ◌≡◌, ◌≢◌, Bool, true, not, ◌&&◌, Option, none, some, List, [], ◌∷◌, Bytes, Text, Result, ok,
  map, eq_bytes, if◌then◌else◌,
}
use robustmq_geek.Common.Errors.{Fault, RobustMqError}
use robustmq_geek.OpenRaft.Node.{Node}
use robustmq_geek.External.Formats.{Bincode, IsBincode}
use robustmq_geek.External.Rocksdb.{Rocksdb, IsDatabase, le_bytes, find_item}

pub record LeaderId : Type 0 where
  pub term : ℕ
  pub node_id : ℕ

pub record LogId : Type 0 where
  pub leader_id : LeaderId
  pub index : ℕ

-- The node ids of each configuration, and the nodes by their ids.
pub record Membership : Type 0 where
  pub configs : List (List ℕ)
  pub nodes : List (ℕ × Node)

pub record StoredMembership : Type 0 where
  pub log_id : Option LogId
  pub membership : Membership

abbrev pub default_membership : StoredMembership
default_membership = record { log_id = none; membership = record { configs = []; nodes = [] } }

pub record SnapshotMeta : Type 0 where
  pub last_log_id : Option LogId
  pub last_membership : StoredMembership
  pub snapshot_id : Text

pub record Vote : Type 0 where
  pub leader_id : LeaderId
  pub committed : Bool

pub record LogState : Type 0 where
  pub last_purged_log_id : Option LogId
  pub last_log_id : Option LogId

pub data ErrorSubject : Type 0 where
  store_subject vote_subject : ErrorSubject

pub data ErrorVerb : Type 0 where
  read_verb write_verb : ErrorVerb

-- The signature of a snapshot is made from its meta, which stands for it.
pub data StorageError : Type 0 where
  read_state_machine : Fault → StorageError
  read_snapshot : Option SnapshotMeta → Fault → StorageError
  read_error : Fault → StorageError
  write_snapshot : Option SnapshotMeta → Fault → StorageError
  flush_error : Option SnapshotMeta → Fault → StorageError
  write_error : Fault → StorageError
  write_vote : Fault → StorageError
  write_logs : Fault → StorageError
  new_error : ErrorSubject → ErrorVerb → Fault → StorageError

pub record Wal (R : Rocksdb) : Type 0 where
  pub flush_wal : R.Db → Result Fault (Unit {0})

pub record IsWal {R : Rocksdb} (D : IsDatabase R) (W : Wal R) : Type 0 where
  pub flush-ok : (d : R.Db) → D.healthy d ≡ true → W.flush_wal d ≡ ok tt

-- The calls of the log store: an iterator from a key or from the end, whose items may be errors,
-- and the deletion of a range whose upper end is not in it.
pub record Ranges (R : Rocksdb) : Type 0 where
  pub iterator_from : R.Db → Text → Bytes → List (Result Fault (Bytes × Bytes))
  pub iterator_end : R.Db → Text → Option (Result Fault (Bytes × Bytes))
  pub delete_range_cf : R.Db → Text → Bytes → Bytes → Result Fault (Unit {0}) × R.Db

-- No key stands twice.
abbrev pub IsDistinct : List (Bytes × Bytes) → Type 0
IsDistinct [] = Unit
IsDistinct ((k, _) ∷ l) = (find_item k l ≡ none) × IsDistinct l

pub record AreRanges {R : Rocksdb} (D : IsDatabase R) (S : Ranges R) : Type 0 where
  pub iterator_from-iterate :
      (d : R.Db) (cf : Text) (from : Bytes)
      → D.healthy d ≡ true
      → S.iterator_from d cf from ≡ map (λ item. ok item) (R.iterate d cf from)
  pub iterate-IsDistinct : (d : R.Db) (cf : Text) (from : Bytes) → IsDistinct (R.iterate d cf from)
  pub iterator_end-none :
      (d : R.Db) (cf : Text) (k : Bytes)
      → D.healthy d ≡ true
      → S.iterator_end d cf ≡ none
      → D.find d cf k ≡ none
  pub iterator_end-some :
      (d : R.Db) (cf : Text) (r : Result Fault (Bytes × Bytes))
      → D.healthy d ≡ true
      → S.iterator_end d cf ≡ some r
      → (k : Bytes) × (v : Bytes) × (r ≡ ok (k, v))
        × (D.find d cf k ≡ some v)
        × ((j : Bytes) → D.find d cf j ≢ none → le_bytes j k ≡ true)
  pub delete_range-ok :
      (d : R.Db) (cf : Text) (from to : Bytes)
      → D.healthy d ≡ true
      → (S.delete_range_cf d cf from to).0 ≡ ok tt
  pub delete_range-healthy :
      (d : R.Db) (cf : Text) (from to : Bytes)
      → D.healthy d ≡ true
      → D.healthy (S.delete_range_cf d cf from to).1 ≡ true
  pub find-delete_range :
      (d : R.Db) (cf : Text) (from to : Bytes) (c : Text) (j : Bytes)
      → D.healthy d ≡ true
      → D.find (S.delete_range_cf d cf from to).1 c j
        ≡ (if eq_bytes c cf && (le_bytes from j && not (le_bytes to j)) then none else D.find d c j)

-- The requests between the nodes and their answers, with their serialisation.
pub record RpcTypes : Type 1 where
  pub Vote : Type 0
  pub Voted : Type 0
  pub Append : Type 0
  pub Appended : Type 0
  pub Install : Type 0
  pub Installed : Type 0
  pub bincode_vote : Bincode Vote
  pub bincode_voted : Bincode Voted
  pub bincode_append : Bincode Append
  pub bincode_appended : Bincode Appended
  pub bincode_install : Bincode Install
  pub bincode_installed : Bincode Installed

pub record AreRpcTypes (T : RpcTypes) : Type 0 where
  pub vote : IsBincode T.bincode_vote
  pub voted : IsBincode T.bincode_voted
  pub append : IsBincode T.bincode_append
  pub appended : IsBincode T.bincode_appended
  pub install : IsBincode T.bincode_install
  pub installed : IsBincode T.bincode_installed

-- `RPCError`, as far as the program builds one.
pub data RpcError : Type 0 where
  unreachable : RobustMqError → RpcError

-- ===== src/Storage/Raft/View.antt =====
-- The abstract view of the raft storage: a record of optional values and a map of entries, without
-- keys, formats or a database. `Represents` says that a storage holds a view.
use robustmq_geek.Prelude.{ℕ, ◌≡◌, sym, ◌∙◌, true, Option, none, some}
use robustmq_geek.Prelude.{Bytes, ok, eq_bytes, if◌then◌else◌}
use robustmq_geek.Prelude.Dict.{Dict}
use mathlib.Core.Option
use robustmq_geek.External.Rocksdb.{Rocksdb, IsDatabase}
use robustmq_geek.External.Formats.{Json, IsJson, IsProto, IsBincode}
use robustmq_geek.External.Raft.{HardState, ConfState, Entry, Snapshot}
use robustmq_geek.Storage.Keys.Raft.{
  RaftKey, first_index, last_index, hard_state, conf_state, uncommit, snapshot, entry, name, same,
  eq_bytes-name,
}
use robustmq_geek.Storage.Rocksdb.{cf_cluster, write, read}
use robustmq_geek.Storage.Rocksdb.ReadWrite.{write-healthy, find-write, read-none, read-written}
use robustmq_geek.Storage.Raft.{RaftFormats}

pub record AreRaftFormats (F : RaftFormats) : Type 0 where
  pub bytes : IsJson F.json_bytes
  pub u64 : IsJson F.json_u64
  pub hard : IsProto F.proto_hard_state
  pub conf : IsProto F.proto_conf_state
  pub entry : IsProto F.proto_entry
  pub snapshot : IsProto F.proto_snapshot
  pub uncommit : IsBincode F.bincode_uncommit
  pub all : IsBincode F.bincode_all

pub record View : Type 0 where
  pub first : Option ℕ
  pub last : Option ℕ
  pub hard : Option HardState
  pub conf : Option ConfState
  pub pending : Option (Dict ℕ)
  pub saved : Option Snapshot
  pub log : ℕ → Option Entry

module _ ⦃F : RaftFormats⦄ ⦃L : AreRaftFormats F⦄ where
  -- The bytes that stand under a key.
  abbrev pub stored : View → RaftKey → Option Bytes
  stored v first_index = Option.map L.u64.written v.first
  stored v last_index = Option.map L.u64.written v.last
  stored v hard_state =
      Option.map (λ h. L.bytes.written (F.proto_hard_state.encode_to_vec h)) v.hard
  stored v conf_state =
      Option.map (λ c. L.bytes.written (F.proto_conf_state.encode_to_vec c)) v.conf
  stored v uncommit = Option.map (λ m. L.bytes.written (L.uncommit.packed m)) v.pending
  stored v snapshot = Option.map (λ s. L.bytes.written (F.proto_snapshot.encode_to_vec s)) v.saved
  stored v (entry i) = Option.map (λ e. L.bytes.written (F.proto_entry.encode_to_vec e)) (v.log i)

module _ ⦃R : Rocksdb⦄ ⦃D : IsDatabase R⦄ ⦃F : RaftFormats⦄ ⦃L : AreRaftFormats F⦄ where
  -- The database meets no I/O error and holds the view under the raft keys.
  pub record Represents (db : R.Db) (v : View) : Type 0 where
    pub fine : D.healthy db ≡ true
    pub content : (k : RaftKey) → D.find db cf_cluster (name k) ≡ stored v k

  -- A write under a key keeps the database in step with a view that changes at that key alone.
  pub write-Represents :
      {A : Type 0} (json : Json A) (J : IsJson json) (k : RaftKey) (a : A) (v v' : View) (db : R.Db)
      → Represents db v
      → ((j : RaftKey) → stored v' j ≡ (if same j k then some (J.written a) else stored v j))
      → Represents (write json cf_cluster (name k) a db).1 v'
  unfolding eq_bytes
  write-Represents json J k a v v' db rep change = record {
    fine = write-healthy db rep.fine json J cf_cluster (name k) a;
    content = λ j.
        find-write db rep.fine json J cf_cluster (name k) a cf_cluster (name j)
        ∙ rw (eq_bytes-name j k, rep.content j) (sym (change j));
  }

  pub read-stored-none :
      {A : Type 0} (json : Json A) (J : IsJson json) (k : RaftKey) (v : View) (db : R.Db)
      → Represents db v
      → stored v k ≡ none
      → read json cf_cluster (name k) db ≡ ok none
  read-stored-none json J k v db rep p =
      read-none db rep.fine json J cf_cluster (name k) (rep.content k ∙ p)

  pub read-stored-some :
      {A : Type 0} (json : Json A) (J : IsJson json) (k : RaftKey) (a : A) (v : View) (db : R.Db)
      → Represents db v
      → stored v k ≡ some (J.written a)
      → read json cf_cluster (name k) db ≡ ok (some a)
  read-stored-some json J k a v db rep p =
      read-written db rep.fine json J cf_cluster (name k) a (rep.content k ∙ p)

  -- What a read of an optional value under a key returns.
  pub read-stored :
      {A : Type 0} (json : Json A) (J : IsJson json) (k : RaftKey) (o : Option A) (v : View)
      (db : R.Db)
      → Represents db v
      → stored v k ≡ Option.map J.written o
      → read json cf_cluster (name k) db ≡ ok o
  read-stored json J k none v db rep p = read-stored-none json J k v db rep p
  read-stored json J k (some a) v db rep p = read-stored-some json J k a v db rep p

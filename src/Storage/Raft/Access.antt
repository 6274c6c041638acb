-- ===== src/Storage/Raft/Access.antt =====
-- The small methods of the raft storage, in terms of the view that the database holds: the reads
-- return its fields, and the writes set them.
use mathlib.Core.Option
use mathlib.Core.Option.{get_or}
use robustmq_geek.Prelude.{ℕ, ◌≡◌, refl, ap, Option, none, some, Text, Result, ok}
use robustmq_geek.Prelude.{add_one, Run, done}
use robustmq_geek.External.Rocksdb.{Rocksdb, IsDatabase}
use robustmq_geek.External.Formats.{Json, IsJson, Proto, IsProto}
use robustmq_geek.External.Raft.{
  HardState, ConfState, Entry, Snapshot, default_hard_state, default_conf_state,
}
use robustmq_geek.Storage.Keys.Raft.{RaftKey, name}
use robustmq_geek.Storage.Keys.Raft
use robustmq_geek.Storage.Rocksdb.{cf_cluster, write}
use robustmq_geek.Storage.Rocksdb.ReadWrite.{write-ok}
use robustmq_geek.Storage.Raft.{
  RaftFormats, Storage, engine_write, engine_read, decode_or_default, hard_state, conf_state,
  first_index, last_index, entry_by_idx, save_hard_state, save_conf_state, save_first_index,
  save_last_index, save_uncommit_index, save_snapshot_data,
}
use robustmq_geek.Storage.Keys.{key_name_by_entry}
use robustmq_geek.Storage.Raft.{index_or, decode_entry}
use robustmq_geek.Storage.Raft.Changes.{
  add_log, change_first, change_last, change_hard, change_conf, change_pending, change_saved,
  change_log,
}
use robustmq_geek.Storage.Raft.View.{
  AreRaftFormats, View, Represents, write-Represents, read-stored,
}

map-map :
    {A B C : Type 0} (g : B → C) (f : A → B) (o : Option A)
    → Option.map (λ a. g (f a)) o ≡ Option.map g (Option.map f o)
map-map g f none = refl
map-map g f (some a) = refl

module _ ⦃R : Rocksdb⦄ ⦃D : IsDatabase R⦄ ⦃F : RaftFormats⦄ ⦃L : AreRaftFormats F⦄ where
  engine_write_lem :
      {A : Type 0} (json : Json A) (J : IsJson json) (k : RaftKey) (a : A) (v : View) (s : Storage)
      → Represents s.db v
      → engine_write json (name k) a s
        ≡ done (ok tt) (record s { db = (write json cf_cluster (name k) a s.db).1 })
  unfolding engine_write
  engine_write_lem json J k a v s rep =
      ap (λ r. done r (record s { db = (write json cf_cluster (name k) a s.db).1 }))
        (write-ok s.db rep.fine json J cf_cluster (name k) a)

  decode_or_default_lem :
      {A : Type 0} (p : Proto A) (P : IsProto p) (default : A) (o : Option A) (s : Storage)
      → decode_or_default p default (Option.map p.encode_to_vec o) s ≡ done (get_or o default) s
  unfolding decode_or_default
  decode_or_default_lem p P default none s = refl
  decode_or_default_lem p P default (some a) s = rw (P.decode-encode_to_vec a)

  module _ (v : View) (s : Storage) (rep : Represents s.db v) where
    pub hard_state_lem : hard_state s ≡ done (get_or v.hard default_hard_state) s
    unfolding hard_state engine_read name
    hard_state_lem =
        rw (read-stored F.json_bytes L.bytes Raft.hard_state _ v s.db rep (map-map _ _ v.hard))
          (decode_or_default_lem F.proto_hard_state L.hard default_hard_state v.hard s)

    pub conf_state_lem : conf_state s ≡ done (get_or v.conf default_conf_state) s
    unfolding conf_state engine_read name
    conf_state_lem =
        rw (read-stored F.json_bytes L.bytes Raft.conf_state _ v s.db rep (map-map _ _ v.conf))
          (decode_or_default_lem F.proto_conf_state L.conf default_conf_state v.conf s)

    pub first_index_lem :
        first_index s ≡ done (get_or v.first (add_one s.snapshot_metadata.index)) s
    unfolding first_index engine_read name
    first_index_lem =
        rw (read-stored F.json_u64 L.u64 Raft.first_index v.first v s.db rep refl)
          (index_or_lem v.first)
      where
        index_or_lem :
            (o : Option ℕ)
            → done (index_or (ok o) (add_one s.snapshot_metadata.index)) s
              ≡ done (get_or o (add_one s.snapshot_metadata.index)) s
        index_or_lem none = refl
        index_or_lem (some i) = refl

    pub last_index_lem : last_index s ≡ done (get_or v.last s.snapshot_metadata.index) s
    unfolding last_index engine_read name
    last_index_lem =
        rw (read-stored F.json_u64 L.u64 Raft.last_index v.last v s.db rep refl)
          (index_or_lem v.last)
      where
        index_or_lem :
            (o : Option ℕ)
            → done (index_or (ok o) s.snapshot_metadata.index) s
              ≡ done (get_or o s.snapshot_metadata.index) s
        index_or_lem none = refl
        index_or_lem (some i) = refl

    pub entry_by_idx_lem : (i : ℕ) → entry_by_idx i s ≡ done (v.log i) s
    unfolding entry_by_idx engine_read name
    entry_by_idx_lem i =
        rw (read-stored F.json_bytes L.bytes (Raft.entry i) _ v s.db rep (map-map _ _ (v.log i)))
          (decoded (v.log i))
      where
        decoded :
            (o : Option Entry)
            → decode_entry (ok (Option.map F.proto_entry.encode_to_vec o)) s ≡ done o s
        decoded none = refl
        decoded (some e) = rw (L.entry.decode-encode_to_vec e)

    -- A save sets one field of the view, and nothing else of the storage but the database.
    abbrev pub Saves : Run Storage (Result Text (Unit {0})) → View → Type 0
    Saves run w = (db : R.Db) × (run ≡ done (ok tt) (record s { db = db })) × Represents db w

    pub save_hard_state_lem :
        (hs : HardState) → Saves (save_hard_state hs s) (record v { hard = some hs })
    unfolding save_hard_state name
    save_hard_state_lem hs = (
      _,
      engine_write_lem F.json_bytes L.bytes Raft.hard_state _ v s rep,
      write-Represents F.json_bytes L.bytes Raft.hard_state _ v _ s.db rep (change_hard v hs),
    )

    pub save_conf_state_lem :
        (cs : ConfState) → Saves (save_conf_state cs s) (record v { conf = some cs })
    unfolding save_conf_state name
    save_conf_state_lem cs = (
      _,
      engine_write_lem F.json_bytes L.bytes Raft.conf_state _ v s rep,
      write-Represents F.json_bytes L.bytes Raft.conf_state _ v _ s.db rep (change_conf v cs),
    )

    pub save_first_index_lem : (i : ℕ) → Saves (save_first_index i s) (record v { first = some i })
    unfolding save_first_index name
    save_first_index_lem i = (
      _,
      engine_write_lem F.json_u64 L.u64 Raft.first_index _ v s rep,
      write-Represents F.json_u64 L.u64 Raft.first_index _ v _ s.db rep (change_first v i),
    )

    pub save_last_index_lem : (i : ℕ) → Saves (save_last_index i s) (record v { last = some i })
    unfolding save_last_index name
    save_last_index_lem i = (
      _,
      engine_write_lem F.json_u64 L.u64 Raft.last_index _ v s rep,
      write-Represents F.json_u64 L.u64 Raft.last_index _ v _ s.db rep (change_last v i),
    )

    pub write_entry_lem :
        (e : Entry)
        → Saves
            (engine_write F.json_bytes
              (key_name_by_entry e.index)
              (F.proto_entry.encode_to_vec e)
              s)
            (record v { log = add_log e v.log })
    unfolding name
    write_entry_lem e = (
      _,
      engine_write_lem F.json_bytes L.bytes (Raft.entry e.index) _ v s rep,
      write-Represents F.json_bytes L.bytes (Raft.entry e.index) _ v _ s.db rep (change_log v e),
    )

    pub save_uncommit_index_lem :
        (db : R.Db) × (save_uncommit_index s ≡ done tt (record s { db = db }))
        × Represents db (record v { pending = some s.uncommit_index })
    unfolding save_uncommit_index name
    save_uncommit_index_lem = (
      _,
      rw (
        L.uncommit.serialize-packed s.uncommit_index,
        engine_write_lem F.json_bytes L.bytes Raft.uncommit _ v s rep,
      ),
      write-Represents F.json_bytes L.bytes Raft.uncommit _ v _ s.db rep
          (change_pending v s.uncommit_index),
    )

    pub save_snapshot_data_lem :
        (snap : Snapshot)
        → (db : R.Db) × (save_snapshot_data snap s ≡ done tt (record s { db = db }))
          × Represents db (record v { saved = some snap })
    unfolding save_snapshot_data name
    save_snapshot_data_lem snap = (
      _,
      rw (engine_write_lem F.json_bytes L.bytes Raft.snapshot _ v s rep),
      write-Represents F.json_bytes L.bytes Raft.snapshot _ v _ s.db rep (change_saved v snap),
    )

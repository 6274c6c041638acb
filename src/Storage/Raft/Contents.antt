-- ===== src/Storage/Raft/Contents.antt =====
-- What a snapshot's data hold of the database that they were read from.
use mathlib.Core.Option.{or_else, get_or}
use robustmq_geek.Prelude.{
  Bool, ◌≡◌, ◌∙◌, refl, ap, true, false, ◌&&◌, Option, none, some, List, [], ◌∷◌, Bytes, Text,
  eq_bytes, eq_bytes_iff, eq_bytes_refl, is_utf8, if◌then◌else◌, Bool-cases, inl, inr, ok, done,
}
use robustmq_geek.External.Rocksdb.{Rocksdb, IsDatabase, find_item}
use robustmq_geek.External.OpenRaft.{IsDistinct}
use robustmq_geek.External.Raft.{Snapshot, default_hard_state, default_conf_state}
use robustmq_geek.Storage.Rocksdb.{
  cf_cluster, utf8_items, read_all, read_all_by_cf, column_family_list, Raw,
}
use robustmq_geek.Storage.Raft.{RaftFormats, Storage}
use robustmq_geek.Storage.Raft.Snapshots.{create_snapshot}
use robustmq_geek.Storage.Raft.View.{AreRaftFormats, View, Represents}
use robustmq_geek.Storage.Raft.Compaction.{taken, create_snapshot_lem}
use robustmq_geek.Storage.Raft.Merge.{over}

-- The value of a key in a list of maps, and the values of a key under a family's name in the
-- unpacked data of a snapshot.
unfoldable pub value_in : Bytes → List Raw → Option Bytes
value_in k [] = none
value_in k (raw ∷ raws) = or_else (find_item k raw) (value_in k raws)

unfoldable pub held : Text → Bytes → List (Text × List Raw) → Option Bytes
held cf k [] = none
held cf k ((family, raws) ∷ families) =
    if eq_bytes cf family then value_in k raws else held cf k families

-- A value that a snapshot can carry: of a UTF-8 key, and itself UTF-8.
abbrev pub carried : Bytes → Option Bytes → Option Bytes
carried k found = over k found none

value_in-kept :
    (k key val : Bytes) (raws : List Raw)
    → value_in k (((key, val) ∷ []) ∷ raws) ≡ (if eq_bytes k key then some val else value_in k raws)
unfolding value_in find_item or_else
value_in-kept k key val raws = go (eq_bytes k key)
  where
    go :
        (same : Bool)
        → or_else (if same then some val else none) (value_in k raws)
          ≡ (if same then some val else value_in k raws)
    go true = refl
    go false = refl

value_in-utf8_items :
    (items : List (Bytes × Bytes)) (k : Bytes)
    → IsDistinct items
    → value_in k (utf8_items items) ≡ carried k (find_item k items)
unfolding utf8_items find_item over
value_in-utf8_items [] k distinct = unfold value_in in refl
value_in-utf8_items ((key, val) ∷ items) k (fresh, distinct) =
    let tail = value_in-utf8_items items k distinct in
    elim (Bool-cases (eq_bytes k key)) [
      | inl same ↦
          let here : k ≡ key = (eq_bytes_iff k key).0 same in
          elim (Bool-cases (is_utf8 key && is_utf8 val)) [
            | inl text ↦
                rw text (value_in-kept k key val (utf8_items items) ∙ rw (same, here, text) refl)
            | inr other ↦ rw other (tail ∙ rw (here, fresh, eq_bytes_refl key, other) refl)
          ]
      | inr differ ↦ elim (Bool-cases (is_utf8 key && is_utf8 val)) [
        | inl text ↦
            rw (text, differ) (value_in-kept k key val (utf8_items items) ∙ rw (differ) tail)
        | inr other ↦ rw (other, differ) tail
      ]
    ]

module _ ⦃R : Rocksdb⦄ ⦃D : IsDatabase R⦄ where
  -- What unpacked data hold that carry the content of the one column family, and nothing besides.
  abbrev pub Holds : List (Text × List Raw) → R.Db → Type 0
  Holds families db =
      (cf : Text) (k : Bytes)
      → held cf k families
        ≡ (if eq_bytes cf cf_cluster then carried k (D.find db cf_cluster k) else none)

  pub read_all-Holds :
      (db : R.Db)
      → D.healthy db ≡ true
      → IsDistinct (R.iterate db cf_cluster [])
      → Holds (read_all db) db
  unfolding held read_all read_all_by_cf column_family_list
  read_all-Holds db fine distinct cf k =
      ap (λ found. if eq_bytes cf cf_cluster then found else none)
        (value_in-utf8_items (R.iterate db cf_cluster []) k distinct
          ∙ ap (carried k) (D.find-iterate db cf_cluster [] k fine))

  module _ ⦃F : RaftFormats⦄ ⦃L : AreRaftFormats F⦄ where
    -- On a database without I/O errors whose iterator passes no key twice, `create_snapshot`
    -- returns with a snapshot saved. Its metadata, which are those in memory from then on, have the
    -- configuration, and the commit index and the term of the hard state; the first index of the log
    -- is that index; nothing else of the view and of the storage in memory is changed. Its data
    -- unpack to families in which a key of the cluster's family has the value that it had in the
    -- database, if key and value are both UTF-8, and no value if one of them is not, and in which no
    -- other family has a value.
    pub create_snapshot-Holds :
        (v : View) (s : Storage)
        → Represents s.db v
        → IsDistinct (R.iterate s.db cf_cluster [])
        → (db : R.Db) × (snap : Snapshot) × (families : List (Text × List Raw)) × (create_snapshot s
            ≡ done tt (record s { snapshot_metadata = snap.metadata; db = db }))
          × (snap.metadata ≡ record {
            conf_state = get_or v.conf default_conf_state;
            index = (get_or v.hard default_hard_state).commit;
            term = (get_or v.hard default_hard_state).term;
          })
          × Represents db (record v { first = some snap.metadata.index; saved = some snap })
          × (F.bincode_all.deserialize snap.bytes ≡ ok families)
          × Holds families s.db
    create_snapshot-Holds v s rep distinct =
        let (db, p, r) = create_snapshot_lem v s rep in
        (
          db,
          taken v s.db,
          read_all s.db,
          p,
          refl,
          r,
          L.all.deserialize-packed (read_all s.db),
          read_all-Holds s.db rep.fine distinct,
        )

-- ===== src/Storage/Raft/Merge.antt =====
-- What `write_all` makes of a database: the data of a snapshot over what is there.
use mathlib.Core.Path.{subst}
use mathlib.Core.Option
use mathlib.Core.Option.{or_else}
use robustmq_geek.Prelude.{
  ◌≡◌, ◌∙◌, refl, sym, true, false, ◌&&◌, Option, none, some, List, [], ◌∷◌, Bytes, eq_bytes,
  eq_bytes_iff, eq_bytes_refl, is_utf8, if◌then◌else◌, Bool-cases, inl, inr,
}
use robustmq_geek.External.Rocksdb.{Rocksdb, IsDatabase, find_item}
use robustmq_geek.External.OpenRaft.{IsDistinct}
use robustmq_geek.Storage.Keys.Raft.{
  RaftKey, first_index, last_index, hard_state, conf_state, uncommit, snapshot, entry, name,
  is_utf8-name,
}
use robustmq_geek.Storage.Rocksdb.{cf_cluster, write_str, utf8_items}
use robustmq_geek.Storage.Raft.{RaftFormats}
use robustmq_geek.Storage.Raft.Snapshots.{write_raw, write_raws}
use robustmq_geek.Storage.Raft.View.{AreRaftFormats, View, stored}

-- The value that the data of a snapshot has for a key, if both are UTF-8, or else the old one.
unfoldable pub over : Bytes → Option Bytes → Option Bytes → Option Bytes
over k none old = old
over k (some val) old = if is_utf8 k && is_utf8 val then some val else old

-- The first view over the second.
abbrev pub merged : View → View → View
merged v w = record {
  first = or_else v.first w.first;
  last = or_else v.last w.last;
  hard = or_else v.hard w.hard;
  conf = or_else v.conf w.conf;
  pending = or_else v.pending w.pending;
  saved = or_else v.saved w.saved;
  log = λ i. or_else (v.log i) (w.log i);
}

over-map :
    {A : Type 0} (k : Bytes) (f : A → Bytes) (o old : Option A)
    → is_utf8 k ≡ true
    → ((a : A) → is_utf8 (f a) ≡ true)
    → over k (Option.map f o) (Option.map f old) ≡ Option.map f (or_else o old)
unfolding over or_else
over-map k f none old u h = refl
over-map k f (some a) old u h = rw (u, h a) refl

module _ ⦃F : RaftFormats⦄ ⦃L : AreRaftFormats F⦄ where
  pub over-stored :
      (v w : View) (k : RaftKey) → over (name k) (stored v k) (stored w k) ≡ stored (merged v w) k
  over-stored v w first_index =
      over-map _ _ v.first w.first (is_utf8-name first_index) L.u64.is_utf8-written
  over-stored v w last_index =
      over-map _ _ v.last w.last (is_utf8-name last_index) L.u64.is_utf8-written
  over-stored v w hard_state =
      over-map _ _ v.hard w.hard (is_utf8-name hard_state) (λ a. L.bytes.is_utf8-written _)
  over-stored v w conf_state =
      over-map _ _ v.conf w.conf (is_utf8-name conf_state) (λ a. L.bytes.is_utf8-written _)
  over-stored v w uncommit =
      over-map _ _ v.pending w.pending (is_utf8-name uncommit) (λ a. L.bytes.is_utf8-written _)
  over-stored v w snapshot =
      over-map _ _ v.saved w.saved (is_utf8-name snapshot) (λ a. L.bytes.is_utf8-written _)
  over-stored v w (entry i) =
      over-map _ _ (v.log i) (w.log i) (is_utf8-name (entry i)) (λ a. L.bytes.is_utf8-written _)

module _ ⦃R : Rocksdb⦄ ⦃D : IsDatabase R⦄ ⦃F : RaftFormats⦄ where
  write_str-healthy :
      (k val : Bytes) (d : R.Db)
      → D.healthy d ≡ true
      → D.healthy (write_str cf_cluster k val d).1 ≡ true
  unfolding write_str
  write_str-healthy k val d fine = D.put-healthy d cf_cluster k val fine

  find-write_str :
      (k val : Bytes) (d : R.Db) (j : Bytes)
      → D.healthy d ≡ true
      → D.find (write_str cf_cluster k val d).1 cf_cluster j
        ≡ (if eq_bytes j k then some val else D.find d cf_cluster j)
  unfolding write_str eq_bytes
  find-write_str k val d j fine = D.find-put d cf_cluster k val cf_cluster j fine

  pub write_raws-healthy :
      (items : List (Bytes × Bytes)) (d : R.Db)
      → D.healthy d ≡ true
      → D.healthy (write_raws (utf8_items items) d) ≡ true
  unfolding write_raws write_raw utf8_items
  write_raws-healthy [] d fine = fine
  write_raws-healthy ((k, val) ∷ items) d fine = elim (Bool-cases (is_utf8 k && is_utf8 val)) [
    | inl text ↦
        rw text (
          write_raws-healthy items (write_str cf_cluster k val d).1
            (write_str-healthy k val d fine))
    | inr other ↦ rw other (write_raws-healthy items d fine)
  ]

  unfoldable pub Reads : List (Bytes × Bytes) → R.Db → R.Db → Bytes → Type 0
  Reads items d e j = D.find e cf_cluster j ≡ over j (find_item j items) (D.find d cf_cluster j)

  -- An item that is written and one that is not, at its own key; and either at another.
  Reads-own :
      (k val : Bytes) (items : List (Bytes × Bytes)) (d e : R.Db)
      → D.healthy d ≡ true
      → (is_utf8 k && is_utf8 val) ≡ true
      → find_item k items ≡ none
      → Reads items (write_str cf_cluster k val d).1 e k
      → Reads ((k, val) ∷ items) d e k
  unfolding Reads over find_item
  Reads-own k val items d e fine text fresh reads =
      reads ∙ rw (fresh, find-write_str k val d k fine, eq_bytes_refl k, text) refl

  Reads-skipped :
      (k val : Bytes) (items : List (Bytes × Bytes)) (d e : R.Db)
      → (is_utf8 k && is_utf8 val) ≡ false
      → find_item k items ≡ none
      → Reads items d e k
      → Reads ((k, val) ∷ items) d e k
  unfolding Reads over find_item
  Reads-skipped k val items d e other fresh reads = reads ∙ rw (fresh, eq_bytes_refl k, other) refl

  find_item-other :
      (k val j : Bytes) (items : List (Bytes × Bytes))
      → eq_bytes j k ≡ false
      → find_item j ((k, val) ∷ items) ≡ find_item j items
  unfolding find_item
  find_item-other k val j items differ = rw differ refl

  Reads-passed :
      (k val j : Bytes) (items : List (Bytes × Bytes)) (d e : R.Db)
      → eq_bytes j k ≡ false
      → Reads items d e j
      → Reads ((k, val) ∷ items) d e j
  unfolding Reads
  Reads-passed k val j items d e differ reads =
      reads ∙ rw (find_item-other k val j items differ) refl

  Reads-other :
      (k val j : Bytes) (items : List (Bytes × Bytes)) (d e : R.Db)
      → D.healthy d ≡ true
      → eq_bytes j k ≡ false
      → Reads items (write_str cf_cluster k val d).1 e j
      → Reads ((k, val) ∷ items) d e j
  unfolding Reads
  Reads-other k val j items d e fine differ reads =
      Reads-passed k val j items d e differ
        (reads ∙ rw (find-write_str k val d j fine, differ) refl)

  pub find-write_raws :
      (items : List (Bytes × Bytes)) (d : R.Db) (j : Bytes)
      → IsDistinct items
      → D.healthy d ≡ true
      → Reads items d (write_raws (utf8_items items) d) j
  unfolding write_raws write_raw utf8_items
  find-write_raws [] d j distinct fine = unfold Reads over find_item in refl
  find-write_raws ((k, val) ∷ items) d j (fresh, distinct) fine =
      let d1 = (write_str cf_cluster k val d).1 in
      let fine1 = write_str-healthy k val d fine in
      elim (Bool-cases (is_utf8 k && is_utf8 val)) [
        | inl text ↦ rw text (elim (Bool-cases (eq_bytes j k)) [
          | inl same ↦
              subst (Reads ((k, val) ∷ items) d (write_raws (utf8_items items) d1))
                (sym ((eq_bytes_iff j k).0 same))
                (Reads-own k val items d (write_raws (utf8_items items) d1) fine text fresh
                  (find-write_raws items d1 k distinct fine1))
          | inr differ ↦
              Reads-other k val j items d (write_raws (utf8_items items) d1) fine differ
                (find-write_raws items d1 j distinct fine1)
        ])
        | inr other ↦ rw other (elim (Bool-cases (eq_bytes j k)) [
          | inl same ↦
              subst (Reads ((k, val) ∷ items) d (write_raws (utf8_items items) d))
                (sym ((eq_bytes_iff j k).0 same))
                (Reads-skipped k val items d (write_raws (utf8_items items) d) other fresh
                  (find-write_raws items d k distinct fine))
          | inr differ ↦
              Reads-passed k val j items d (write_raws (utf8_items items) d) differ
                (find-write_raws items d j distinct fine)
        ])
      ]

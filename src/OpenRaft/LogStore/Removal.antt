-- ===== src/OpenRaft/LogStore/Removal.antt =====
-- `truncate` and `purge` against the view of the log.
use robustmq_geek.Prelude.{
  ℕ, ◌-◌, ◌^◌, ◌<◌, ◌≡◌, ◌∙◌, refl, ap, Bool, true, false, not, ◌&&◌, Option, none, some, Bytes,
  codes, ok, done, eq_bytes, leb, ltb, add_one, arith, if◌then◌else◌,
}
use robustmq_geek.External.Rocksdb.{Rocksdb, IsDatabase, le_bytes}
use robustmq_geek.External.OpenRaft.{LogId, Wal, IsWal, Ranges, AreRanges}
use robustmq_geek.OpenRaft.Types.{Entry}
use robustmq_geek.OpenRaft.Keys.{id_to_bin, le_bytes-id_to_bin}
use robustmq_geek.OpenRaft.LogStore.{LogFormats, store, logs, parsed, delete_range, truncate, purge}
use robustmq_geek.OpenRaft.LogStore.View.{AreLogFormats, LogView, Represents}
use robustmq_geek.OpenRaft.LogStore.Saved.{set_last_purged__lem}

if_same : {A : Type 0} (b : Bool) (a : A) → (if b then a else a) ≡ a
if_same true a = refl
if_same false a = refl

-- A log without the entries from an index up to another.
abbrev pub without : ℕ → ℕ → (ℕ → Option Entry) → ℕ → Option Entry
without from to log i = if leb from i && ltb i to then none else log i

module _ ⦃R : Rocksdb⦄ ⦃D : IsDatabase R⦄ ⦃W : Wal R⦄ ⦃S : Ranges R⦄ ⦃Y : AreRanges D S⦄
    ⦃F : LogFormats⦄ ⦃L : AreLogFormats F⦄ where
  delete_range_lem :
      (from to : ℕ) (d : R.Db) (v : LogView)
      → Represents d v
      → from < 2 ^ 64
      → to < 2 ^ 64
      → (d' : R.Db) × (delete_range logs (id_to_bin from) (id_to_bin to) d ≡ done (ok tt) d')
        × Represents d' (record v { log = without from to v.log })
  unfolding eq_bytes
  delete_range_lem from to d v rep hf ht = (
    d',
    rw (Y.delete_range-ok d logs (id_to_bin from) (id_to_bin to) rep.fine) refl,
    record {
      fine = Y.delete_range-healthy d logs (id_to_bin from) (id_to_bin to) rep.fine;
      found = λ i h.
          Y.find-delete_range d logs (id_to_bin from) (id_to_bin to) logs (id_to_bin i) rep.fine
          ∙ rw (le_bytes-id_to_bin from i hf h, le_bytes-id_to_bin to i ht h)
              (ground (arith, rep.found i h));
      keyed = λ k h. rep.keyed k λ e. h (gone k e);
      own = λ i e p. ground (arith, rep.own i e);
      purged = ap (parsed F.json_log_id) (elsewhere (codes "last_purged_log_id")) ∙ rep.purged;
      committed = ap (parsed F.json_log_id) (elsewhere (codes "committed")) ∙ rep.committed;
      vote = ap (parsed F.json_vote) (elsewhere (codes "vote")) ∙ rep.vote;
    },
  )
    where
      d' : R.Db
      d' = (S.delete_range_cf d logs (id_to_bin from) (id_to_bin to)).1

      elsewhere : (k : Bytes) → D.find d' store k ≡ D.find d store k
      elsewhere k = Y.find-delete_range d logs (id_to_bin from) (id_to_bin to) store k rep.fine

      gone : (k : Bytes) → D.find d logs k ≡ none → D.find d' logs k ≡ none
      gone k e =
          Y.find-delete_range d logs (id_to_bin from) (id_to_bin to) logs k rep.fine
          ∙ rw e (if_same (le_bytes (id_to_bin from) k && not (le_bytes (id_to_bin to) k)) none)

  truncate_lem :
      (log_id : LogId) (d : R.Db) (v : LogView)
      → Represents d v
      → log_id.index < 2 ^ 64
      → (d' : R.Db) × (truncate log_id d ≡ done (ok tt) d')
        × Represents d' (record v { log = without log_id.index (2 ^ 64 - 1) v.log })
  unfolding truncate
  truncate_lem log_id d v rep h = delete_range_lem log_id.index (2 ^ 64 - 1) d v rep h (omega arith)

  purge_lem :
      ⦃X : IsWal D W⦄ (log_id : LogId) (d : R.Db) (v : LogView)
      → Represents d v
      → (d' : R.Db) × (purge log_id d ≡ done (ok tt) d')
        × Represents d'
            (record v { log = without 0 (add_one log_id.index) v.log; purged = some log_id })
  unfolding purge
  purge_lem log_id d v rep =
      let (d1, p1, r1) = set_last_purged__lem d v rep log_id in
      let (d2, p2, r2) =
        delete_range_lem 0 (add_one log_id.index) d1 _ r1 (omega arith) (omega arith) in
      (d2, rw (p1, p2) refl, r2)

  -- On a database without I/O errors, `truncate` removes the entries from the given index on, but
  -- for one under the greatest index of 64 bits, which stays. `purge` saves the log id as the last
  -- purged one and removes the entries below its index plus one, which wraps to 0 for the greatest
  -- index of 64 bits, where nothing is removed. Nothing else of
  -- the view changes.
  pub truncate-purge :
      ⦃X : IsWal D W⦄ (log_id : LogId) (d : R.Db) (v : LogView)
      → Represents d v
      → log_id.index < 2 ^ 64
      → ((d' : R.Db) × (truncate log_id d ≡ done (ok tt) d')
          × Represents d' (record v { log = without log_id.index (2 ^ 64 - 1) v.log }))
        × ((d' : R.Db) × (purge log_id d ≡ done (ok tt) d')
            × Represents d'
                (record v { log = without 0 (add_one log_id.index) v.log; purged = some log_id }))
  truncate-purge log_id d v rep h = (truncate_lem log_id d v rep h, purge_lem log_id d v rep)

-- ===== src/Raft/RocksdbStorage/Reads.antt =====
-- What the `raft` crate reads of the log on a database that meets no I/O error.
use mathlib.Core.Option
use mathlib.Core.Option.{get_or}
use Prim.Native.Nat.{max}
use robustmq_geek.Prelude.{ℕ, zero, suc, ◌+◌, ◌-◌, ◌≤◌, ◌<◌, ◌≡◌, ◌≢◌, refl, ap, ◌∙◌, true, false}
use robustmq_geek.Prelude.{
  Text, Option, none, some, List, [], ◌∷◌, ◌++◌, Result, ok, err, Run, done, panicked,
}
use robustmq_geek.Prelude.{
  if◌then◌else◌, ltb, ◌==◌, add_one, arith, ==_refl, if-false, Bool-cases, inl, inr, count_from,
  range_inclusive,
}
use robustmq_geek.External.Rocksdb.{Rocksdb, IsDatabase}
use robustmq_geek.External.Raft.{
  StorageError, Entry, Snapshot, default_hard_state, compacted, unavailable,
}
use robustmq_geek.Storage.Rocksdb.{cf_cluster, read_all, Raw}
use robustmq_geek.External.OpenRaft.{IsDistinct}
use robustmq_geek.Storage.Raft.{RaftFormats, Storage, first_index}
use robustmq_geek.Storage.Raft.View.{AreRaftFormats, View, Represents}
use robustmq_geek.Storage.Raft.Access.{first_index_lem, last_index_lem, entry_by_idx_lem}
use robustmq_geek.Storage.Raft.ReadBack.{present, with_found, collect_entries_lem}
use robustmq_geek.Storage.Raft.Contents.{Holds, read_all-Holds}
use robustmq_geek.Storage.Raft.Compaction.{metadata, taken, create_snapshot_lem, snapshot_lem}
use robustmq_geek.Raft.RocksdbStorage.{entries, term, term_or, raised, snapshot, create_snapshot}

with_found-append :
    (o : Option Entry) (xs ys : List Entry) → with_found o (xs ++ ys) ≡ with_found o xs ++ ys
with_found-append none xs ys = refl
with_found-append (some e) xs ys = refl

present-append :
    (log : ℕ → Option Entry) (is js : List ℕ)
    → present log (is ++ js) ≡ present log is ++ present log js
unfolding present
present-append log [] js = refl
present-append log (i ∷ is) js =
    rw (present-append log is js) (with_found-append (log i) (present log is) (present log js))

count_from-suc : (low n : ℕ) → count_from low (suc n) ≡ count_from low n ++ (low + n) ∷ []
unfolding count_from
count_from-suc low zero = ap (λ (m : ℕ). m ∷ []) (omega arith)
count_from-suc low (suc n) =
    ap (λ l. low ∷ l)
      (count_from-suc (suc low) n ∙ ap (λ (m : ℕ). count_from (suc low) n ++ m ∷ []) (omega arith))

range_inclusive-split :
    (low high : ℕ)
    → low ≤ high
    → range_inclusive low high ≡ count_from low (high - low) ++ high ∷ []
unfolding range_inclusive
range_inclusive-split low high h =
    ap (count_from low) (omega arith)
    ∙ count_from-suc low (high - low)
    ∙ ap (λ (m : ℕ). count_from low (high - low) ++ m ∷ []) (omega arith)

raised_lem :
    (snap : Snapshot) (request_index : ℕ)
    → raised snap request_index ≡ record snap {
      metadata = record snap.metadata { index = max snap.metadata.index request_index };
    }
unfolding raised
raised_lem snap request_index = elim (Bool-cases (ltb snap.metadata.index request_index)) [
  | inl less ↦
      rw less
        (ap (λ n. record snap { metadata = record snap.metadata { index = n } }) (ground arith))
  | inr more ↦
      rw more
        (ap (λ n. record snap { metadata = record snap.metadata { index = n } }) (ground arith))
]

module _ ⦃R : Rocksdb⦄ ⦃D : IsDatabase R⦄ ⦃F : RaftFormats⦄ ⦃L : AreRaftFormats F⦄ where
  -- Within the bounds of the log, `entries low high` returns the entries of the documented range
  -- [low, high), and after them also the entry at `high` if the database has one.
  pub entries_lem :
      (low high : ℕ) (v : View) (s : Storage)
      → Represents s.db v
      → get_or v.first (add_one s.snapshot_metadata.index) ≤ low
      → low ≤ high
      → high ≤ add_one (get_or v.last s.snapshot_metadata.index)
      → entries low high s
        ≡ done (ok (present v.log (count_from low (high - low)) ++ with_found (v.log high) [])) s
  unfolding entries
  entries_lem low high v s rep above order below =
      rw (first_index_lem v s rep, in_log)
        (rw (last_index_lem v s rep, in_range)
          (rw (collect_entries_lem (range_inclusive low high) v s rep) (
            ap (λ l. done (ok l) s)
              (ap (present v.log) (range_inclusive-split low high order)
                ∙ present-append v.log (count_from low (high - low)) (high ∷ [])
                ∙ unfold present in refl))))
    where
      in_log : ltb low (get_or v.first (add_one s.snapshot_metadata.index)) ≡ false
      in_log = ground (arith, above)

      in_range : ltb (add_one (get_or v.last s.snapshot_metadata.index)) high ≡ false
      in_range = ground (arith, below)

  -- Below the first index `entries` reports that the entries are compacted; from there on, an
  -- upper end past the index after the last makes it panic. Neither changes anything.
  pub entries_refuses :
      (low high : ℕ) (v : View) (s : Storage)
      → Represents s.db v
      → (low < get_or v.first (add_one s.snapshot_metadata.index)
          → entries low high s ≡ done (err compacted) s)
        × (get_or v.first (add_one s.snapshot_metadata.index) ≤ low
            → add_one (get_or v.last s.snapshot_metadata.index) < high
            → entries low high s ≡ panicked s)
  unfolding entries
  entries_refuses low high v s rep = (
    λ h. rw (first_index_lem v s rep) (rw (below h)),
    λ h k. rw (first_index_lem v s rep) (rw (in_log h) (rw (last_index_lem v s rep, past k))),
  )
    where
      below :
          low < get_or v.first (add_one s.snapshot_metadata.index)
          → ltb low (get_or v.first (add_one s.snapshot_metadata.index)) ≡ true
      below h = ground (arith, h)

      in_log :
          get_or v.first (add_one s.snapshot_metadata.index) ≤ low
          → ltb low (get_or v.first (add_one s.snapshot_metadata.index)) ≡ false
      in_log h = ground (arith, h)

      past :
          add_one (get_or v.last s.snapshot_metadata.index) < high
          → ltb (add_one (get_or v.last s.snapshot_metadata.index)) high ≡ true
      past h = ground (arith, h)

  -- Away from the snapshot's index, `term` reports a compacted index below the first index and an
  -- unavailable one past the last; in between it returns the term of the entry, or the term of the
  -- snapshot where the entry is missing. It changes nothing.
  pub term_lem :
      (idx : ℕ) (v : View) (s : Storage)
      → Represents s.db v
      → idx ≢ s.snapshot_metadata.index
      → term idx s ≡ (
          if ltb idx (get_or v.first (add_one s.snapshot_metadata.index))
          then done (err compacted) s
          else if ltb (get_or v.last s.snapshot_metadata.index) idx
          then done (err unavailable) s
          else done (ok (get_or (Option.map (λ e. e.term) (v.log idx)) s.snapshot_metadata.term)) s)
  unfolding term
  term_lem idx v s rep ne = rw elsewhere (
      rw (first_index_lem v s rep)
        (elim (Bool-cases (ltb idx (get_or v.first (add_one s.snapshot_metadata.index)))) [
          | inl low ↦ rw low
          | inr in_log ↦ rw in_log (
              rw (last_index_lem v s rep)
                (elim (Bool-cases (ltb (get_or v.last s.snapshot_metadata.index) idx)) [
                  | inl high ↦ rw high
                  | inr in_range ↦
                      rw in_range (rw (entry_by_idx_lem v s rep idx) (found (v.log idx)))
                ]))
        ]))
    where
      elsewhere : (idx == s.snapshot_metadata.index) ≡ false
      elsewhere = ground (arith, ne)

      found :
          (o : Option Entry)
          → ◌≡◌ {A = Run Storage (Result StorageError ℕ)}
              (done (ok (term_or s.snapshot_metadata.term o)) s)
              (done (ok (get_or (Option.map (λ e. e.term) o) s.snapshot_metadata.term)) s)
      found none = refl
      found (some e) = refl

  -- At the snapshot's index `term` returns that index itself, whatever the snapshot's term is.
  pub term-snapshot_index :
      (s : Storage) → term s.snapshot_metadata.index s ≡ done (ok s.snapshot_metadata.index) s
  unfolding term
  term-snapshot_index s = rw (==_refl s.snapshot_metadata.index)

  -- After `create_snapshot`, `term` of the committed index returns the index, whatever the terms of
  -- the entry there and of the hard state are, and the first index of the log is that index itself,
  -- not the one after it.
  pub term-create_snapshot :
      (v : View) (s : Storage)
      → Represents s.db v
      → (s' : Storage) × (create_snapshot s ≡ done (ok tt) s')
        × (s'.snapshot_metadata.term ≡ (metadata v).term)
        × (term (metadata v).index s' ≡ done (ok (metadata v).index) s')
        × (first_index s' ≡ done (metadata v).index s')
  unfolding create_snapshot
  term-create_snapshot v s rep =
      let (d, p, r) = create_snapshot_lem v s rep in
      let s' : Storage = record s { snapshot_metadata = metadata v; db = d } in
      (s', rw p, refl, term-snapshot_index s', first_index_lem _ s' r)

  -- On a database without I/O errors whose iterator passes no key twice, and unless snapshots are
  -- marked as unavailable, `snapshot` returns a fresh snapshot. Its index is the larger of the
  -- commit index and the requested one, so never below the request, and its term that of the hard
  -- state. Its data, which are also saved, unpack to families in which a key of the cluster's family
  -- has its value of the database, if key and value are both UTF-8, and no value if one of them is
  -- not, and in which no other family has a value.
  pub snapshot-ge-request :
      (request_index : ℕ) (v : View) (s : Storage)
      → Represents s.db v
      → IsDistinct (R.iterate s.db cf_cluster [])
      → s.trigger_snap_unavailable ≡ false
      → (snap : Snapshot) × (s' : Storage) × (families : List (Text × List Raw)) × (snapshot
            request_index s
          ≡ done (ok snap) s')
        × (snap.metadata.index ≡ max (get_or v.hard default_hard_state).commit request_index)
        × (snap.metadata.term ≡ (get_or v.hard default_hard_state).term)
        × (F.bincode_all.deserialize snap.bytes ≡ ok families)
        × Holds families s.db
        × Represents s'.db (record v {
          first = some (metadata v).index;
          saved = some (record snap { metadata = metadata v });
        })
  unfolding snapshot
  snapshot-ge-request request_index v s rep distinct available =
      let (d, p, r) = snapshot_lem v s rep in
      let s' : Storage = record s { snapshot_metadata = metadata v; db = d } in
      let snap : Snapshot = record (taken v s.db) {
        metadata = record (metadata v) { index = max (metadata v).index request_index };
      } in
      (
        snap,
        s',
        read_all s.db,
        if-false s.trigger_snap_unavailable _ _ s available
            ∙ rw p (ap (λ x. done (ok x) s') (raised_lem (taken v s.db) request_index)),
        refl,
        refl,
        L.all.deserialize-packed (read_all s.db),
        read_all-Holds s.db rep.fine distinct,
        r,
      )

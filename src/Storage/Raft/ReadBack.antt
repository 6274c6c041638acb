-- ===== src/Storage/Raft/ReadBack.antt =====
-- Appended entries are read back by `entrys`; entries outside their range stay as they were.
use robustmq_geek.Prelude.{ℕ, suc, ◌+◌, ◌≤◌, ◌<◌, ◌≡◌, refl, ap, ◌∙◌}
use robustmq_geek.Prelude.{Option, none, some, List, [], ◌∷◌, arith}
use robustmq_geek.Prelude.{length, range_inclusive, count_from, done}
use robustmq_geek.External.Rocksdb.{Rocksdb, IsDatabase}
use robustmq_geek.External.Raft.{Entry}
use robustmq_geek.Storage.Raft.{RaftFormats, Storage, entry_by_idx}
use robustmq_geek.Storage.Raft.Log.{append, entrys, collect_entries}
use robustmq_geek.Storage.Raft.View.{AreRaftFormats, View, Represents}
use robustmq_geek.Storage.Raft.Changes.{add_log}
use robustmq_geek.Storage.Raft.Access.{entry_by_idx_lem}
use robustmq_geek.Storage.Raft.Append.{Fits, appended, append_accepts}

-- Entries with consecutive indices from the given one on.
abbrev pub Numbered : ℕ → List Entry → Type 0
Numbered i [] = Unit
Numbered i (e ∷ es) = (e.index ≡ i) × Numbered (suc i) es

abbrev pub with_found : Option Entry → List Entry → List Entry
with_found (some e) rest = e ∷ rest
with_found none rest = rest

-- The entries that a map has at the given indices.
unfoldable pub present : (ℕ → Option Entry) → List ℕ → List Entry
present log [] = []
present log (i ∷ is) = with_found (log i) (present log is)

log-appended_below :
    (es : List Entry) (i j : ℕ) (v : View) → Numbered i es → j < i → (appended es v).log j ≡ v.log j
log-appended_below [] i j v n h = refl
log-appended_below (e ∷ es) i j v n h =
    log-appended_below es (suc i) j _ n.1 (omega arith) ∙ ground (arith, n.0)

log-appended_above :
    (es : List Entry) (i j : ℕ) (v : View)
    → Numbered i es
    → i + length es ≤ j
    → (appended es v).log j ≡ v.log j
log-appended_above [] i j v n h = refl
log-appended_above (e ∷ es) i j v n h =
    log-appended_above es (suc i) j _ n.1 (omega arith) ∙ ground (arith, n.0)

present-appended :
    (es : List Entry) (i : ℕ) (v : View)
    → Numbered i es
    → present (appended es v).log (count_from i (length es)) ≡ es
unfolding present count_from
present-appended [] i v n = refl
present-appended (e ∷ es) i v n =
    let w : View = record v { log = add_log e v.log; last = some e.index } in
    let here : (appended es w).log i ≡ some e =
      log-appended_below es (suc i) i w n.1 (omega arith) ∙ ground (arith, n.0) in
    rw (here, present-appended es (suc i) w n.1)

range_inclusive-length : (low n : ℕ) → range_inclusive low (low + n) ≡ count_from low (suc n)
unfolding range_inclusive
range_inclusive-length low n = ap (count_from low) (omega arith)

module _ ⦃R : Rocksdb⦄ ⦃D : IsDatabase R⦄ ⦃F : RaftFormats⦄ ⦃L : AreRaftFormats F⦄ where
  pub collect_entries_lem :
      (is : List ℕ) (v : View) (s : Storage)
      → Represents s.db v
      → collect_entries is s ≡ done (present v.log is) s
  unfolding collect_entries present
  collect_entries_lem [] v s rep = refl
  collect_entries_lem (i ∷ is) v s rep =
      rw (entry_by_idx_lem v s rep i, collect_entries_lem is v s rep) (joined (v.log i))
    where
      joined :
          (o : Option Entry)
          → done (elim o [ some e ↦ e ∷ present v.log is | none ↦ present v.log is ]) s
            ≡ done (with_found o (present v.log is)) s
      joined none = refl
      joined (some e) = refl

  -- `entrys` returns the entries that the log has from `low` to `high`, both included, in order.
  pub entrys_lem :
      (low high : ℕ) (v : View) (s : Storage)
      → Represents s.db v
      → entrys low high s ≡ done (present v.log (range_inclusive low high)) s
  unfolding entrys
  entrys_lem low high v s rep = collect_entries_lem (range_inclusive low high) v s rep

  -- On a database without I/O errors, entries with consecutive indices that `append` accepts are
  -- what `entrys` returns over their range afterwards, and every other index has the entry, or the
  -- lack of one, that it had before, also above the new last index.
  pub append-entrys :
      (e : Entry) (es : List Entry) (v : View) (s : Storage)
      → Represents s.db v
      → Fits s.snapshot_metadata.index v e.index
      → Numbered e.index (e ∷ es)
      → (s' : Storage) × (append (e ∷ es) s ≡ done tt s')
        × (entrys e.index (e.index + length es) s' ≡ done (e ∷ es) s')
        × ((j : ℕ) → j < e.index → entry_by_idx j s' ≡ done (v.log j) s')
        × ((j : ℕ) → e.index + length es < j → entry_by_idx j s' ≡ done (v.log j) s')
  append-entrys e es v s rep fits n =
      let (db, p, r) = append_accepts e es v s rep fits in
      let s' : Storage = record s { uncommit_index = _; db = db } in
      let range : present (appended (e ∷ es) v).log (range_inclusive e.index (e.index + length es))
          ≡ e ∷ es =
        rw (range_inclusive-length e.index (length es)) (present-appended (e ∷ es) e.index v n) in
      (
        s',
        p,
        entrys_lem e.index (e.index + length es) _ s' r ∙ ap (λ l. done l s') range,
        λ j h.
            entry_by_idx_lem _ s' r j
            ∙ ap (λ o. done o s') (log-appended_below (e ∷ es) e.index j v n h),
        λ j h.
            entry_by_idx_lem _ s' r j
            ∙ ap (λ o. done o s') (log-appended_above (e ∷ es) e.index j v n (omega arith)),
      )

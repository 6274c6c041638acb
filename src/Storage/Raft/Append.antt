-- ===== src/Storage/Raft/Append.antt =====
-- `append` on a database that meets no I/O error: what it accepts, what it writes, and that the
-- entries are read back.
use mathlib.Core.Option.{get_or}
use robustmq_geek.Prelude.{ℕ, ◌≤◌, ◌<◌, ◌≡◌, refl, ◌⊎◌, inl, inr, true, false}
use robustmq_geek.Prelude.{some, List, [], ◌∷◌, ltb, add_one, arith}
use robustmq_geek.Prelude.{done, panicked}
use robustmq_geek.Prelude.{Bool-cases}
use robustmq_geek.Prelude.Dict
use robustmq_geek.Prelude.Dict.{Dict}
use robustmq_geek.External.Rocksdb.{Rocksdb, IsDatabase}
use robustmq_geek.External.Raft.{Entry}
use robustmq_geek.Storage.Raft.{RaftFormats, Storage}
use robustmq_geek.Storage.Raft.Log.{append, append_each, append_entry}
use robustmq_geek.Storage.Raft.View.{AreRaftFormats, View, Represents}
use robustmq_geek.Storage.Raft.Changes.{add_log}
use robustmq_geek.Storage.Raft.Access.{
  first_index_lem, last_index_lem, write_entry_lem, save_last_index_lem, save_uncommit_index_lem,
}

-- The view and the map of uncommitted indices after the loop of `append`.
abbrev pub appended : List Entry → View → View
appended [] v = v
appended (e ∷ es) v = appended es (record v { log = add_log e v.log; last = some e.index })

abbrev pub marked : List Entry → Dict ℕ → Dict ℕ
marked [] m = m
marked (e ∷ es) m = marked es (Dict.insert e.index 1 m)

-- What the guards of `append` ask of the first new entry.
pub record Fits (s : ℕ) (v : View) (index : ℕ) : Type 0 where
  pub not_compacted : get_or v.first (add_one s) ≤ index
  pub no_gap : index ≤ add_one (get_or v.last s)

module _ ⦃R : Rocksdb⦄ ⦃D : IsDatabase R⦄ ⦃F : RaftFormats⦄ ⦃L : AreRaftFormats F⦄ where
  append_entry_lem :
      (e : Entry) (v : View) (s : Storage)
      → Represents s.db v
      → (db : R.Db) × (append_entry e s
          ≡ done tt (record s { uncommit_index = Dict.insert e.index 1 s.uncommit_index; db = db }))
        × Represents db (record v { log = add_log e v.log; last = some e.index })
  unfolding append_entry
  append_entry_lem e v s rep =
      let (d1, p1, r1) = write_entry_lem v s rep e in
      let s1 : Storage = record s {
        uncommit_index = Dict.insert e.index 1 s.uncommit_index;
        db = d1;
      } in
      let (d2, p2, r2) = save_last_index_lem _ s1 r1 e.index in (d2, rw p1 (rw p2), r2)

  append_each_lem :
      (es : List Entry) (v : View) (s : Storage)
      → Represents s.db v
      → (db : R.Db) × (append_each es s
          ≡ done tt (record s { uncommit_index = marked es s.uncommit_index; db = db }))
        × Represents db (appended es v)
  unfolding append_each
  append_each_lem [] v s rep = (s.db, refl, rep)
  append_each_lem (e ∷ es) v s rep =
      let (d1, p1, r1) = append_entry_lem e v s rep in
      let s1 : Storage = record s {
        uncommit_index = Dict.insert e.index 1 s.uncommit_index;
        db = d1;
      } in
      let (d2, p2, r2) = append_each_lem es _ s1 r1 in (d2, rw p1 p2, r2)

  -- On a database without I/O errors, entries whose first index is neither below the first index
  -- of the log nor past the one after its last are appended: the call returns, the database then
  -- holds the view with each entry under its index, the last entry's index as last index and the
  -- new indices as uncommitted, in memory and on disk, and nothing else of the view and of
  -- the storage in memory is changed.
  pub append_accepts :
      (e : Entry) (es : List Entry) (v : View) (s : Storage)
      → Represents s.db v
      → Fits s.snapshot_metadata.index v e.index
      → (db : R.Db) × (append (e ∷ es) s
          ≡ done tt (record s { uncommit_index = marked (e ∷ es) s.uncommit_index; db = db }))
        × Represents db
            (record (appended (e ∷ es) v) { pending = some (marked (e ∷ es) s.uncommit_index) })
  unfolding append
  append_accepts e es v s rep fits =
      let (d1, p1, r1) = append_each_lem (e ∷ es) v s rep in
      let s1 : Storage = record s { uncommit_index = marked (e ∷ es) s.uncommit_index; db = d1 } in
      let (d2, p2, r2) = save_uncommit_index_lem _ s1 r1 in
      (d2, rw (first_index_lem v s rep, low) (rw (last_index_lem v s rep, high) (rw p1 p2)), r2)
    where
      low : ltb e.index (get_or v.first (add_one s.snapshot_metadata.index)) ≡ false
      low = ground (arith, fits.not_compacted)

      high : ltb (add_one (get_or v.last s.snapshot_metadata.index)) e.index ≡ false
      high = ground (arith, fits.no_gap)

  -- Entries that start below the first index, or that would leave a gap after the last, make
  -- `append` panic before anything is written.
  pub append_refuses :
      (e : Entry) (es : List Entry) (v : View) (s : Storage)
      → Represents s.db v
      → (e.index < get_or v.first (add_one s.snapshot_metadata.index))
        ⊎ (add_one (get_or v.last s.snapshot_metadata.index) < e.index)
      → append (e ∷ es) s ≡ panicked s
  unfolding append
  append_refuses e es v s rep bad =
      rw (first_index_lem v s rep)
        (elim (Bool-cases (ltb e.index (get_or v.first (add_one s.snapshot_metadata.index)))) [
          | inl low ↦ rw low
          | inr fits ↦ rw fits (rw (last_index_lem v s rep, gap fits))
        ])
    where
      gap :
          ltb e.index (get_or v.first (add_one s.snapshot_metadata.index)) ≡ false
          → ltb (add_one (get_or v.last s.snapshot_metadata.index)) e.index ≡ true
      gap fits = ground arith

-- ===== src/OpenRaft/LogStore/Append.antt =====
-- `append` against the view of the log.
use robustmq_geek.Prelude.{
  ℕ, ◌^◌, ◌<◌, ◌==◌, ==_refl, ◌≡◌, ◌∙◌, refl, ap, true, Option, some, List, [], ◌∷◌, Bytes, codes,
  ok, done, eq_bytes, eq_bytes_iff, Bool-cases, inl, inr, arith, if◌then◌else◌,
}
use robustmq_geek.External.Rocksdb.{Rocksdb, IsDatabase}
use robustmq_geek.External.OpenRaft.{Wal, Ranges}
use robustmq_geek.OpenRaft.Types.{Entry}
use robustmq_geek.OpenRaft.Keys.{id_to_bin, bin_to_id-id_to_bin, eq_bytes-id_to_bin}
use robustmq_geek.OpenRaft.LogStore.{
  LogFormats, LogStore, store, logs, parsed, append, append_entry, append_entries,
}
use robustmq_geek.OpenRaft.LogStore.View.{AreLogFormats, LogView, Represents}

abbrev pub with_entry : Entry → (ℕ → Option Entry) → ℕ → Option Entry
with_entry e log i = if i == e.log_id.index then some e else log i

-- The log after the entries, of which a later one takes the place of an earlier one.
abbrev pub with_entries : List Entry → (ℕ → Option Entry) → ℕ → Option Entry
with_entries [] log = log
with_entries (e ∷ entries) log = with_entries entries (with_entry e log)

abbrev pub AllFit : List Entry → Type 0
AllFit [] = Unit
AllFit (e ∷ entries) = (e.log_id.index < 2 ^ 64) × AllFit entries

module _ ⦃R : Rocksdb⦄ ⦃D : IsDatabase R⦄ ⦃W : Wal R⦄ ⦃S : Ranges R⦄ ⦃F : LogFormats⦄
    ⦃L : AreLogFormats F⦄ where
  abbrev putting : Entry → R.Db → R.Db
  putting e d = (R.put_cf d logs (id_to_bin e.log_id.index) (L.entry.written e)).1

  append_entry-runs :
      (e : Entry) (d : R.Db)
      → D.healthy d ≡ true
      → e.log_id.index < 2 ^ 64
      → append_entry e d ≡ done (ok tt) (putting e d)
  unfolding append_entry
  append_entry-runs e d fine fits =
      rw
        (
          bin_to_id-id_to_bin e.log_id.index fits,
          L.entry.to_vec-written e,
          ==_refl e.log_id.index,
          D.put-ok d logs (id_to_bin e.log_id.index) (L.entry.written e) fine,
        )
        refl

  putting-Represents :
      (e : Entry) (d : R.Db) (v : LogView)
      → Represents d v
      → e.log_id.index < 2 ^ 64
      → Represents (putting e d) (record v { log = with_entry e v.log })
  unfolding eq_bytes
  putting-Represents e d v rep fits = record {
    fine = D.put-healthy d logs key json rep.fine;
    found = λ i h.
        D.find-put d logs key json logs (id_to_bin i) rep.fine
        ∙ rw (eq_bytes-id_to_bin i e.log_id.index h fits) (elim (Bool-cases (i == e.log_id.index)) [
          | inl same ↦ rw same refl
          | inr other ↦ rw other (rep.found i h)
        ]);
    keyed = λ k h. elim (Bool-cases (eq_bytes k key)) [
      | inl same ↦ (e.log_id.index, fits, (eq_bytes_iff k key).0 same)
      | inr other ↦ rep.keyed k λ p. h (D.find-put d logs key json logs k rep.fine ∙ rw other p)
    ];
    own = λ i x p. ground (arith, rep.own i x);
    purged = ap (parsed F.json_log_id) (elsewhere (codes "last_purged_log_id")) ∙ rep.purged;
    committed = ap (parsed F.json_log_id) (elsewhere (codes "committed")) ∙ rep.committed;
    vote = ap (parsed F.json_vote) (elsewhere (codes "vote")) ∙ rep.vote;
  }
    where
      key : Bytes
      key = id_to_bin e.log_id.index

      json : Bytes
      json = L.entry.written e

      elsewhere : (k : Bytes) → D.find (putting e d) store k ≡ D.find d store k
      elsewhere k = D.find-put d logs key json store k rep.fine

  pub append_entries-runs :
      (entries : List Entry) (d : R.Db) (v : LogView)
      → Represents d v
      → AllFit entries
      → (d' : R.Db) × (append_entries entries d ≡ done (ok tt) d')
        × Represents d' (record v { log = with_entries entries v.log })
  unfolding append_entries
  append_entries-runs [] d v rep fit = (d, refl, rep)
  append_entries-runs (e ∷ entries) d v rep fit =
      let (d', p, rep') =
        append_entries-runs entries (putting e d) _ (putting-Represents e d v rep fit.0) fit.1 in
      (d', rw (append_entry-runs e d rep.fine fit.0, p) refl, rep')

  -- On a database without I/O errors, `append` of entries whose indices fit in 64 bits returns,
  -- completes its callback, and leaves the log with each entry under its index, a later one in place
  -- of an earlier one; every other entry, the last purged and committed ids and the vote stay.
  pub append_lem :
      (entries : List Entry) (callback : ℕ) (s : LogStore R.Db) (v : LogView)
      → Represents s.db v
      → AllFit entries
      → (d' : R.Db) × (append entries callback s
          ≡ done (ok tt) (record { db = d'; completed = callback ∷ s.completed }))
        × Represents d' (record v { log = with_entries entries v.log })
  unfolding append
  append_lem entries callback s v rep fit =
      let (d', p, rep') = append_entries-runs entries s.db v rep fit in (d', rw p refl, rep')

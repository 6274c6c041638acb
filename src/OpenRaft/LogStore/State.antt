-- ===== src/OpenRaft/LogStore/State.antt =====
-- `get_log_state` against the view of the log.
use mathlib.Core.Option
use robustmq_geek.Prelude.{
  ℕ, ◌^◌, ◌≤◌, ◌<◌, ◌≡◌, ◌≢◌, ◌∙◌, ◌⊎◌, refl, sym, ap, true, Option, none, some, Bytes, Result, ok,
  done, question-ok, pure, Option-cases, inl, inr, leb, arith,
}
use robustmq_geek.Common.Errors.{Fault}
use robustmq_geek.External.Rocksdb.{Rocksdb, IsDatabase, le_bytes}
use robustmq_geek.External.OpenRaft.{LogState, Wal, IsWal, Ranges, AreRanges}
use robustmq_geek.OpenRaft.Types.{Entry}
use robustmq_geek.OpenRaft.Keys.{id_to_bin, le_bytes-id_to_bin}
use robustmq_geek.OpenRaft.LogStore.{
  LogFormats, logs, get_log_state, log_state, last_entry, get_last_purged_,
}
use robustmq_geek.OpenRaft.LogStore.View.{AreLogFormats, LogView, Represents, at-key, some≢none}
use robustmq_geek.OpenRaft.LogStore.Saved.{get_last_purged__lem}

map-none : {A B : Type 0} (f : A → B) (o : Option A) → Option.map f o ≡ none → o ≡ none
map-none f none p = refl
map-none f (some a) p = cc

-- An index and its entry, above which a log has none.
abbrev pub IsLast : (ℕ → Option Entry) → Entry → Type 0
IsLast log e =
    (log e.log_id.index ≡ some e)
    × ((j : ℕ) (x : Entry) → j < 2 ^ 64 → log j ≡ some x → j ≤ e.log_id.index)

module _ ⦃R : Rocksdb⦄ ⦃D : IsDatabase R⦄ ⦃W : Wal R⦄ ⦃X : IsWal D W⦄ ⦃S : Ranges R⦄
    ⦃Y : AreRanges D S⦄ ⦃F : LogFormats⦄ ⦃L : AreLogFormats F⦄ where
  last_entry-parses :
      (d : R.Db) (r : Result Fault (Bytes × Bytes)) (k json : Bytes) (e : Entry)
      → r ≡ ok (k, json)
      → F.json_entry.from_slice json ≡ ok e
      → last_entry (some r) d ≡ done (some e.log_id) d
  unfolding last_entry
  last_entry-parses d r k json e is_ok parses = rw is_ok (rw parses refl)

  get_log_state-last :
      (d : R.Db) (v : LogView) (r : Result Fault (Bytes × Bytes)) (k json : Bytes) (e : Entry)
      → Represents d v
      → S.iterator_end d logs ≡ some r
      → r ≡ ok (k, json)
      → L.entry.written e ≡ json
      → get_log_state d
        ≡ done (ok (record { last_purged_log_id = v.purged; last_log_id = some e.log_id })) d
  unfolding get_log_state
  get_log_state-last d v r k json e rep p is_ok wrote =
      rw
        (
          p,
          last_entry-parses d r k json e is_ok
              (ap F.json_entry.from_slice (sym wrote) ∙ L.entry.from_slice-written e),
        )
        (question-ok get_last_purged_ (λ p. pure (ok (log_state (some e.log_id) p)))
          (get_last_purged__lem d v rep))

  -- On a database without I/O errors, `get_log_state` returns the last purged log id as saved, and
  -- as last log id that of the entry with the greatest index, or the last purged one if the log has
  -- no entry; the database stays as it is.
  pub get_log_state_lem :
      (d : R.Db) (v : LogView)
      → Represents d v
      → (state : LogState) × (get_log_state d ≡ done (ok state) d)
        × (state.last_purged_log_id ≡ v.purged)
        × ((((i : ℕ) → i < 2 ^ 64 → v.log i ≡ none) × (state.last_log_id ≡ v.purged))
            ⊎ ((e : Entry) × IsLast v.log e × (state.last_log_id ≡ some e.log_id)))
  unfolding get_log_state last_entry
  get_log_state_lem d v rep = elim (Option-cases (S.iterator_end d logs)) [
    | inl empty ↦ (
      record { last_purged_log_id = v.purged; last_log_id = v.purged },
      rw empty (
          question-ok get_last_purged_ (λ p. pure (ok (log_state none p)))
            (get_last_purged__lem d v rep)),
      refl,
      inl (
        λ i h.
            map-none L.entry.written (v.log i)
              (sym (rep.found i h) ∙ Y.iterator_end-none d logs (id_to_bin i) rep.fine empty),
        refl,
      ),
    )
    | inr (r, p) ↦
        let (k, json, is_ok, there, greatest) = Y.iterator_end-some d logs r rep.fine p in
        let (i, h, q, e, here, wrote, own) = at-key d v k json rep there in
        (
          record { last_purged_log_id = v.purged; last_log_id = some e.log_id },
          get_log_state-last d v r k json e rep p is_ok wrote,
          refl,
          inr (
            e,
            (
              ap v.log own ∙ here,
              λ j x hj at_j.
                  below k i e j x h q own hj (greatest (id_to_bin j) (present j x hj at_j)),
            ),
            refl,
          ),
        )
  ]
    where
      present :
          (j : ℕ) (x : Entry) → j < 2 ^ 64 → v.log j ≡ some x → D.find d logs (id_to_bin j) ≢ none
      present j x hj at_j n =
          some≢none (sym (ap (Option.map L.entry.written) at_j) ∙ sym (rep.found j hj) ∙ n)

      below :
          (k : Bytes) (i : ℕ) (e : Entry) (j : ℕ) (x : Entry)
          → i < 2 ^ 64
          → k ≡ id_to_bin i
          → e.log_id.index ≡ i
          → j < 2 ^ 64
          → le_bytes (id_to_bin j) k ≡ true
          → j ≤ e.log_id.index
      below k i e j x h q own hj le =
          let small : leb j i ≡ true =
            sym (le_bytes-id_to_bin j i hj h) ∙ ap (le_bytes (id_to_bin j)) (sym q) ∙ le in
          ground arith

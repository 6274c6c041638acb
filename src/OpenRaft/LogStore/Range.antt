-- ===== src/OpenRaft/LogStore/Range.antt =====
-- `try_get_log_entries` against the view of the log.
use mathlib.Core.Option
use mathlib.Core.Path.{subst}
use robustmq_geek.Prelude.{
  ℕ, ◌^◌, ◌≤◌, ◌<◌, ◌==◌, ==_refl, ◌≡◌, ◌≢◌, ◌∙◌, refl, sym, ap, true, false, Bool, Option, none,
  some, List, [], ◌∷◌, map, Bytes, ok, ok_of, done, eq_bytes, eq_bytes_iff, eq_bytes_refl,
  Bool-cases, inl, inr, leb, arith, if◌then◌else◌,
}
use robustmq_geek.External.Rocksdb.{Rocksdb, IsDatabase, le_bytes, AllFrom, IsAscending, find_item}
use robustmq_geek.External.OpenRaft.{Wal, Ranges, AreRanges, IsDistinct}
use robustmq_geek.OpenRaft.Types.{Entry}
use robustmq_geek.OpenRaft.Keys.{
  id_to_bin, bin_to_id-id_to_bin, le_bytes-id_to_bin, eq_bytes-id_to_bin,
}
use robustmq_geek.OpenRaft.LogStore.{
  LogFormats, logs, parsed, Bound, contains, first_id, take_entries, try_get_log_entries,
}
use robustmq_geek.OpenRaft.LogStore.View.{AreLogFormats, LogView, Represents, at-key}
use robustmq_geek.OpenRaft.LogStore.Ordered.{
  entry_at, AllAfter, IsOrdered, AllWithin, taken, contains-first, entry_at-taken, taken-IsOrdered,
}

module _ ⦃R : Rocksdb⦄ ⦃D : IsDatabase R⦄ ⦃W : Wal R⦄ ⦃S : Ranges R⦄ ⦃Y : AreRanges D S⦄
    ⦃F : LogFormats⦄ ⦃L : AreLogFormats F⦄ where
  first-missing :
      (b : Bool) (x : Bytes) (o : Option Bytes)
      → (if b then some x else o) ≡ none
      → (b ≡ false) × (o ≡ none)
  first-missing true x o p = cc
  first-missing false x o p = (refl, p)

  later-found :
      (j k json found : Bytes) (l : List (Bytes × Bytes))
      → find_item k l ≡ none
      → find_item j l ≡ some found
      → find_item j ((k, json) ∷ l) ≡ some found
  unfolding find_item
  later-found j k json found l missing p = elim (Bool-cases (eq_bytes j k)) [
    | inl same ↦
        elim (missing-found (sym (ap (λ x. find_item x l) ((eq_bytes_iff j k).0 same)) ∙ p)
          missing) [ ]
    | inr other ↦ rw other p
  ]
    where
      missing-found : {o : Option Bytes} → o ≡ some found → o ≢ none
      missing-found a b = cc

  abbrev items_of : List Entry → List (Bytes × Bytes)
  items_of [] = []
  items_of (e ∷ es) = (id_to_bin e.log_id.index, L.entry.written e) ∷ items_of es

  take_entries-items_of :
      (range : Bound × Bound) (n : ℕ) (es : List Entry) (d : R.Db)
      → AllWithin n es
      → take_entries range (map (λ item. ok item) (items_of es)) d ≡ done (taken range es) d
  unfolding take_entries taken
  take_entries-items_of range n [] d w = refl
  take_entries-items_of range n (e ∷ es) d w =
      rw
        (
          bin_to_id-id_to_bin e.log_id.index w.1,
          L.entry.from_slice-written e,
          ==_refl e.log_id.index,
        )
        (elim (Bool-cases (contains range e.log_id.index)) [
          | inl inside ↦ rw inside (rw (take_entries-items_of range n es d w.2) refl)
          | inr out ↦ rw out refl
        ])

  -- What a list of items is to find of the log.
  abbrev Finds : LogView → ℕ → List (Bytes × Bytes) → Type 0
  Finds v n l =
      (k json : Bytes)
      → find_item k l ≡ some json
      → (i : ℕ) × (i < 2 ^ 64)
        × (k ≡ id_to_bin i)
        × (n ≤ i)
        × (e : Entry) × (L.entry.written e ≡ json)
        × (e.log_id.index ≡ i)

  AllAfter-items_of :
      (i n : ℕ) (es : List Entry)
      → i < 2 ^ 64
      → AllWithin n es
      → AllFrom (id_to_bin i) (items_of es)
      → find_item (id_to_bin i) (items_of es) ≡ none
      → AllAfter i es
  unfolding find_item
  AllAfter-items_of i n [] h w a f = tt
  AllAfter-items_of i n (e ∷ es) h w a f =
      let (other, rest) = first-missing _ _ _ f in
      let differs : (i == e.log_id.index) ≡ false =
        sym (eq_bytes-id_to_bin i e.log_id.index h w.1) ∙ other in
      let ascends : leb i e.log_id.index ≡ true =
        sym (le_bytes-id_to_bin i e.log_id.index h w.1) ∙ a.0 in
      (ground arith, AllAfter-items_of i n es h w.2 a.1 rest)

  entries_of :
      (v : LogView) (n : ℕ) (l : List (Bytes × Bytes))
      → IsAscending l
      → IsDistinct l
      → Finds v n l
      → (es : List Entry) × (l ≡ items_of es) × IsOrdered es × AllWithin n es
  unfolding find_item
  entries_of v n [] a s f = ([], refl, tt, tt)
  entries_of v n ((k, json) ∷ l) a s f =
      let (i, h, q, from, e, wrote, own) = f k json (rw (eq_bytes_refl k) refl) in
      let (es, p, o, w) =
        entries_of v n l a.1 s.1 (λ j found at. f j found (later-found j k json found l s.0 at)) in
      let at_key : k ≡ id_to_bin e.log_id.index = q ∙ ap id_to_bin (sym own) in
      let fits : e.log_id.index < 2 ^ 64 = subst (λ x. x < 2 ^ 64) (sym own) h in
      (
        e ∷ es,
        ap (λ x. (x, json) ∷ l) at_key
            ∙ ap (λ x. (id_to_bin e.log_id.index, x) ∷ l) (sym wrote)
            ∙ ap (λ t. (id_to_bin e.log_id.index, L.entry.written e) ∷ t) p,
        (
          AllAfter-items_of e.log_id.index n es fits w
              (subst (λ x. AllFrom x (items_of es)) at_key (subst (λ t. AllFrom k t) p a.0))
              (subst (λ x. find_item x (items_of es) ≡ none) at_key
                (subst (λ t. find_item k t ≡ none) p s.0)),
          o,
        ),
        (subst (λ x. n ≤ x) (sym own) from, fits, w),
      )

  item-entry_at :
      (i n : ℕ) (es : List Entry)
      → i < 2 ^ 64
      → AllWithin n es
      → find_item (id_to_bin i) (items_of es) ≡ Option.map L.entry.written (entry_at i es)
  unfolding find_item entry_at
  item-entry_at i n [] h w = refl
  item-entry_at i n (e ∷ es) h w =
      rw (eq_bytes-id_to_bin i e.log_id.index h w.1) (ground (arith, item-entry_at i n es h w.2))

  parsed-written : (o : Option Entry) → parsed F.json_entry (Option.map L.entry.written o) ≡ o
  parsed-written none = refl
  parsed-written (some e) = ap ok_of (L.entry.from_slice-written e)

  written-injective :
      (a b : Option Entry) → Option.map L.entry.written a ≡ Option.map L.entry.written b → a ≡ b
  written-injective a b p = sym (parsed-written a) ∙ ap (parsed F.json_entry) p ∙ parsed-written b

  if-some :
      (b : Bool) (o : Option Bytes) (x : Bytes)
      → (if b then o else none) ≡ some x
      → (b ≡ true) × (o ≡ some x)
  if-some true o x p = (refl, p)
  if-some false o x p = cc

  module _ (d : R.Db) (v : LogView) (rep : Represents d v) (n : ℕ) (h : n < 2 ^ 64) where
    abbrev ahead : List (Bytes × Bytes)
    ahead = R.iterate d logs (id_to_bin n)

    iterate-Finds : Finds v n ahead
    iterate-Finds k json p =
        let (from, there) =
          if-some _ _ json (sym (D.find-iterate d logs (id_to_bin n) k rep.fine) ∙ p) in
        let (i, fits, q, e, here, wrote, own) = at-key d v k json rep there in
        let ahead_of : leb n i ≡ true =
          sym (le_bytes-id_to_bin n i h fits) ∙ ap (le_bytes (id_to_bin n)) (sym q) ∙ from in
        (i, fits, q, ground arith, e, wrote, own)

    entry_at-log :
        (es : List Entry) (i : ℕ)
        → ahead ≡ items_of es
        → AllWithin n es
        → n ≤ i
        → i < 2 ^ 64
        → entry_at i es ≡ v.log i
    entry_at-log es i p w from fits =
        let reached : leb n i ≡ true = ground arith in
        written-injective (entry_at i es) (v.log i) (
          sym (item-entry_at i n es fits w)
          ∙ ap (find_item (id_to_bin i)) (sym p)
          ∙ D.find-iterate d logs (id_to_bin n) (id_to_bin i) rep.fine
          ∙ rw (le_bytes-id_to_bin n i h fits, reached) (rep.found i fits))

  -- On a database without I/O errors, `try_get_log_entries` returns, in ascending order of their
  -- indices, exactly the entries of the log whose index is in the range, and changes nothing.
  pub try_get_log_entries_lem :
      (range : Bound × Bound) (d : R.Db) (v : LogView)
      → Represents d v
      → first_id range.0 < 2 ^ 64
      → (es : List Entry) × (try_get_log_entries range d ≡ done (ok es) d)
        × IsOrdered es
        × ((i : ℕ) → i < 2 ^ 64 → entry_at i es ≡ (if contains range i then v.log i else none))
  unfolding try_get_log_entries
  try_get_log_entries_lem range d v rep h =
      let n = first_id range.0 in
      let (es, p, o, w) =
        entries_of v n (ahead d v rep n h) (D.iterate-IsAscending d logs (id_to_bin n))
          (Y.iterate-IsDistinct d logs (id_to_bin n)) (iterate-Finds d v rep n h) in
      (
        taken range es,
        rw
            (
              Y.iterator_from-iterate d logs (id_to_bin n) rep.fine ∙ ap (map (λ item. ok item)) p,
              take_entries-items_of range n es d w,
            )
            refl,
        taken-IsOrdered range es o,
        λ i fits. entry_at-taken range i es fits o w ∙ elim (Bool-cases (contains range i)) [
          | inl inside ↦
              rw inside
                (entry_at-log d v rep n h es i p w (contains-first range i fits inside) fits)
          | inr outside ↦ rw outside refl
        ],
      )

-- ===== src/Storage/Rocksdb/Scan.antt =====
-- `read_prefix`: the scan returns the entries under the prefix and no others, unless a key that is
-- not UTF-8 stands in its way.
use robustmq_geek.Prelude.{ℕ, zero, suc, ◌<◌, ◌≡◌, refl, true, false, none, some, arith, ◌∙◌}
use robustmq_geek.Prelude.{
  List, [], ◌∷◌, Bytes, Text, eq_bytes_iff, is_utf8, starts_with, if◌then◌else◌,
}
use robustmq_geek.Prelude.{length}
use robustmq_geek.External.Rocksdb.{Rocksdb, IsDatabase, le_bytes, AllFrom, IsAscending, find_item}
use robustmq_geek.Storage.Rocksdb.{scan_prefix, read_prefix}

-- A key between a prefix and a key under it lies under it too.
starts_with-between :
    (p a b : Bytes)
    → le_bytes p a ≡ true
    → le_bytes a b ≡ true
    → starts_with b p ≡ true
    → starts_with a p ≡ true
unfolding starts_with
starts_with-between [] a b pa ab bp = refl
starts_with-between (x ∷ p) [] b pa ab bp = cc
starts_with-between (x ∷ p) (y ∷ a) [] pa ab bp = cc
starts_with-between (x ∷ p) (y ∷ a) (z ∷ b) pa ab bp = ground (arith, starts_with-between p a b)

le_bytes-starts_with : (p a : Bytes) → starts_with a p ≡ true → le_bytes p a ≡ true
unfolding starts_with
le_bytes-starts_with [] a h = refl
le_bytes-starts_with (x ∷ p) [] h = cc
le_bytes-starts_with (x ∷ p) (y ∷ a) h = ground (arith, le_bytes-starts_with p a)

-- Past a key that is not under the prefix none is.
none_after :
    (p a k : Bytes) (l : List (Bytes × Bytes))
    → le_bytes p a ≡ true
    → starts_with a p ≡ false
    → AllFrom a l
    → starts_with k p ≡ true
    → find_item k l ≡ none
unfolding find_item
none_after p a k [] pa h all kp = refl
none_after p a k ((j, v) ∷ l) pa h all kp =
    ground (arith, none_after p a k l pa h all.1 kp, eq_bytes_iff k j, starts_with-between p a k pa)

abbrev pub AllUtf8 : List (Bytes × Bytes) → Type 0
AllUtf8 [] = Unit
AllUtf8 ((k, _) ∷ l) = (is_utf8 k ≡ true) × AllUtf8 l

-- What the scan is to return.
pub prefixed : Text → List (Bytes × Bytes) → List (Bytes × Bytes)
prefixed p [] = []
prefixed p ((k, v) ∷ l) = if starts_with k p then (k, v) ∷ prefixed p l else []

scan_prefix-prefixed :
    (rounds : ℕ) (p : Text) (items : List (Bytes × Bytes))
    → length items < rounds
    → AllUtf8 items
    → scan_prefix rounds p items ≡ some (prefixed p items)
unfolding scan_prefix prefixed
scan_prefix-prefixed zero p items h u = elim h [ ]
scan_prefix-prefixed (suc rounds) p [] h u = refl
scan_prefix-prefixed (suc rounds) p ((k, v) ∷ items) h u =
    ground (arith, scan_prefix-prefixed rounds p items (omega arith) u.1)

find_item-prefixed :
    (p k : Text) (items : List (Bytes × Bytes))
    → AllFrom p items
    → IsAscending items
    → find_item k (prefixed p items) ≡ (if starts_with k p then find_item k items else none)
unfolding find_item prefixed
find_item-prefixed p k [] all asc = ground arith
find_item-prefixed p k ((j, v) ∷ items) all asc = ground (
  arith,
  find_item-prefixed p k items all.1 asc.1,
  eq_bytes_iff k j,
  none_after p j k items all.0,
)

module _ ⦃R : Rocksdb⦄ ⦃D : IsDatabase R⦄ (d : R.Db) (fine : D.healthy d ≡ true) where
  -- On a database without I/O errors whose keys from the prefix on are all UTF-8, `read_prefix`
  -- ends within one round more than there are such keys. It returns a list in which a key has the
  -- value that it has in the database if it starts with the prefix, and which has no other key.
  pub read_prefix_complete :
      (rounds : ℕ) (cf search_key : Text)
      → AllUtf8 (R.iterate d cf search_key)
      → length (R.iterate d cf search_key) < rounds
      → (result : List (Text × Bytes)) × (read_prefix rounds cf search_key d ≡ some result)
        × ((k : Text)
            → find_item k result ≡ (if starts_with k search_key then D.find d cf k else none))
  unfolding read_prefix
  read_prefix_complete rounds cf search_key u h = (
    prefixed search_key (R.iterate d cf search_key),
    scan_prefix-prefixed rounds search_key (R.iterate d cf search_key) h u,
    λ k.
        find_item-prefixed search_key k (R.iterate d cf search_key)
          (D.iterate-AllFrom d cf search_key) (D.iterate-IsAscending d cf search_key)
        ∙ ground (arith, D.find-iterate d cf search_key k fine, le_bytes-starts_with search_key k),
  )

module _ ⦃R : Rocksdb⦄ where
  scan_prefix_stuck :
      (rounds : ℕ) (p k v : Text) (items : List (Bytes × Bytes))
      → is_utf8 k ≡ false
      → scan_prefix rounds p ((k, v) ∷ items) ≡ none
  unfolding scan_prefix
  scan_prefix_stuck zero p k v items h = refl
  scan_prefix_stuck (suc rounds) p k v items h = rw h (scan_prefix_stuck rounds p k v items h)

  -- When the first key from the prefix on is not UTF-8, the scan never ends: however many rounds
  -- it is given, it is still running.
  pub read_prefix_hangs :
      (d : R.Db) (rounds : ℕ) (cf search_key : Text) (k v : Bytes) (items : List (Bytes × Bytes))
      → R.iterate d cf search_key ≡ (k, v) ∷ items
      → is_utf8 k ≡ false
      → read_prefix rounds cf search_key d ≡ none
  unfolding read_prefix
  read_prefix_hangs d rounds cf search_key k v items first bad =
      rw first (scan_prefix_stuck rounds search_key k v items bad)

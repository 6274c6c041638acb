-- ===== src/Tests/Memory/Iterators.antt =====
-- Iterators and ranges over the database in memory.
use mathlib.Core.Option
use mathlib.Core.Path.{subst}
use robustmq_geek.Prelude.{
  ◌≡◌, ◌≢◌, ◌∙◌, sym, refl, true, Option, none, some, List, [], ◌∷◌, map, Bytes, Text, Result, ok,
  eq_bytes, eq_bytes_iff, arith, Bool-cases, Option-cases, inl, inr,
}
use robustmq_geek.Common.Errors.{Fault}
use robustmq_geek.External.Rocksdb.{le_bytes, AllFrom, IsAscending, find_item}
use robustmq_geek.External.TreeMap.{Items}
use robustmq_geek.External.OpenRaft.{Ranges, AreRanges}
use robustmq_geek.Tests.Memory.{
  Call, clear, contents, contents-IsAscending, find, find-clear, memory, memory-IsDatabase,
  items_from,
}
use robustmq_geek.Tests.Memory.Distinct.{iterate-IsDistinct}
use robustmq_geek.OpenRaft.LogStore.{}
use robustmq_geek.Tests.OpenRaft.{wal, wal-IsWal}

-- The last key of a list of items.
pub last_key : Items → Option Bytes
last_key [] = none
last_key ((k, v) ∷ []) = some k
last_key ((k, v) ∷ item ∷ l) = last_key (item ∷ l)

abbrev at_end : Items → Option (Result Fault (Bytes × Bytes))
at_end l = elim (last_key l) [ none ↦ none | some k ↦ Option.map (λ v. ok (k, v)) (find_item k l) ]

some-injective : {A : Type 0} {a b : A} → some a ≡ some b → a ≡ b
some-injective p = cc

le_bytes_refl : (a : Bytes) → le_bytes a a ≡ true
le_bytes_refl [] = refl
le_bytes_refl (x ∷ a) = ground (arith, le_bytes_refl a)

AllFrom-last_key :
    (i k : Bytes) (l : Items) → AllFrom i l → last_key l ≡ some k → le_bytes i k ≡ true
unfolding last_key
AllFrom-last_key i k [] a p = cc
AllFrom-last_key i k ((j, v) ∷ []) a p = subst (λ x. le_bytes i x ≡ true) (some-injective p) a.0
AllFrom-last_key i k ((j, v) ∷ item ∷ l) a p = AllFrom-last_key i k (item ∷ l) a.1 p

find_item-last_key :
    (k : Bytes) (l : Items) → last_key l ≡ some k → (v : Bytes) × (find_item k l ≡ some v)
unfolding last_key find_item
find_item-last_key k [] p = cc
find_item-last_key k ((j, v) ∷ []) p = (v, rw ((eq_bytes_iff k j).1 (sym (some-injective p))) refl)
find_item-last_key k ((j, v) ∷ item ∷ l) p = elim (Bool-cases (eq_bytes k j)) [
  | inl same ↦ (v, rw same refl)
  | inr other ↦ let (w, q) = find_item-last_key k (item ∷ l) p in (w, rw other q)
]

last_key-cons : (item : Bytes × Bytes) (l : Items) → last_key (item ∷ l) ≢ none
unfolding last_key
last_key-cons (k, v) [] p = cc
last_key-cons (k, v) (item ∷ l) p = last_key-cons item l p

find_item-last_key-none : (k : Bytes) (l : Items) → last_key l ≡ none → find_item k l ≡ none
unfolding last_key find_item
find_item-last_key-none k [] p = refl
find_item-last_key-none k ((j, v) ∷ []) p = cc
find_item-last_key-none k ((j, v) ∷ item ∷ l) p = elim (last_key-cons item l p) [ ]

last_key-greatest :
    (j k : Bytes) (l : Items)
    → IsAscending l
    → last_key l ≡ some k
    → find_item j l ≢ none
    → le_bytes j k ≡ true
unfolding last_key find_item
last_key-greatest j k [] a p n = cc
last_key-greatest j k ((i, v) ∷ []) a p n = elim (Bool-cases (eq_bytes j i)) [
  | inl same ↦
      subst (λ x. le_bytes j x ≡ true) ((eq_bytes_iff j i).0 same ∙ some-injective p)
        (le_bytes_refl j)
  | inr other ↦ elim (n (rw other refl)) [ ]
]
last_key-greatest j k ((i, v) ∷ item ∷ l) a p n = elim (Bool-cases (eq_bytes j i)) [
  | inl same ↦
      subst (λ x. le_bytes x k ≡ true) (sym ((eq_bytes_iff j i).0 same))
        (AllFrom-last_key i k (item ∷ l) a.0 p)
  | inr other ↦ last_key-greatest j k (item ∷ l) a.1 p (λ q. n (rw other q))
]

instance abbrev pub ranges : Ranges memory
ranges = record {
  iterator_from = λ d cf from. map (λ item. ok item) (items_from from (contents d cf));
  iterator_end = λ d cf. at_end (contents d cf);
  delete_range_cf = λ d cf from to. (ok tt, clear cf from to ∷ d);
}

at_end_lem :
    (l : Items) (k v : Bytes)
    → last_key l ≡ some k
    → find_item k l ≡ some v
    → at_end l ≡ some (ok (k, v))
at_end_lem l k v last here = rw (last, at_end) (rw here refl)

absurd-some : {A : Type 0} {o : Option A} {a : A} → o ≡ none → o ≢ some a
absurd-some p q = cc

at_end-none : (l : Items) (k : Bytes) → at_end l ≡ none → find_item k l ≡ none
at_end-none l k p = elim (Option-cases (last_key l)) [
  | inl empty ↦ find_item-last_key-none k l empty
  | inr (j, last) ↦
      let (v, q) = find_item-last_key j l last in elim (absurd-some p (at_end_lem l j v last q)) [ ]
]

at_end-some :
    (l : Items) (r : Result Fault (Bytes × Bytes))
    → IsAscending l
    → at_end l ≡ some r
    → (k : Bytes) × (v : Bytes) × (r ≡ ok (k, v))
      × (find_item k l ≡ some v)
      × ((j : Bytes) → find_item j l ≢ none → le_bytes j k ≡ true)
at_end-some l r a p = elim (Option-cases (last_key l)) [
  | inl empty ↦ elim (absurd-some {o = at_end l} (rw (empty, at_end) refl) p) [ ]
  | inr (k, last) ↦
      let (v, q) = find_item-last_key k l last in
      (
        k,
        v,
        some-injective (sym p ∙ at_end_lem l k v last q),
        q,
        λ j n. last_key-greatest j k l a last n,
      )
]

pub iterator_end-none :
    (d : List Call) (cf : Text) (k : Bytes) → at_end (contents d cf) ≡ none → find d cf k ≡ none
unfolding find
iterator_end-none d cf k p = at_end-none (contents d cf) k p

pub iterator_end-some :
    (d : List Call) (cf : Text) (r : Result Fault (Bytes × Bytes))
    → at_end (contents d cf) ≡ some r
    → (k : Bytes) × (v : Bytes) × (r ≡ ok (k, v))
      × (find d cf k ≡ some v)
      × ((j : Bytes) → find d cf j ≢ none → le_bytes j k ≡ true)
unfolding find
iterator_end-some d cf r p = at_end-some (contents d cf) r (contents-IsAscending d cf) p

instance abbrev pub ranges-AreRanges : AreRanges memory-IsDatabase ranges
ranges-AreRanges = record {
  iterator_from-iterate = λ d cf from h. refl;
  iterate-IsDistinct = λ d cf from. iterate-IsDistinct d cf from;
  iterator_end-none = λ d cf k h p. iterator_end-none d cf k p;
  iterator_end-some = λ d cf r h p. iterator_end-some d cf r p;
  delete_range-ok = λ d cf from to h. refl;
  delete_range-healthy = λ d cf from to h. refl;
  find-delete_range = λ d cf from to c j h. find-clear d cf from to c j;
}

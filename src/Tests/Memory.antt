-- ===== src/Tests/Memory.antt =====
-- A database in memory, as the list of the writes made to it, latest first.
pub mod Distinct
pub mod Iterators
use robustmq_geek.Prelude.{
  ◌≡◌, refl, inl, inr, true, false, Option, none, some, List, [], ◌∷◌, ◌&&◌, not,
}
use robustmq_geek.Prelude.{
  is_utf8, Bytes, Text, eq_bytes, eq_bytes_iff, ok, if◌then◌else◌, arith, Bool-cases,
}
use robustmq_geek.External.TreeMap.{
  Items, insert_item, erase_item, find_item-insert_item, find_item-erase_item,
}
use robustmq_geek.External.Rocksdb.{Rocksdb, IsDatabase, le_bytes, AllFrom, IsAscending, find_item}

le_bytes_total : (a b : Bytes) → le_bytes a b ≡ false → le_bytes b a ≡ true
le_bytes_total [] b h = cc
le_bytes_total (x ∷ a) [] h = refl
le_bytes_total (x ∷ a) (y ∷ b) h = ground (arith, le_bytes_total a b)

le_bytes_trans : (a b c : Bytes) → le_bytes a b ≡ true → le_bytes b c ≡ true → le_bytes a c ≡ true
le_bytes_trans [] b c h k = refl
le_bytes_trans (x ∷ a) [] c h k = cc
le_bytes_trans (x ∷ a) (y ∷ b) [] h k = cc
le_bytes_trans (x ∷ a) (y ∷ b) (z ∷ c) h k = ground (arith, le_bytes_trans a b c)

AllFrom-trans : (j k : Bytes) (l : Items) → le_bytes j k ≡ true → AllFrom k l → AllFrom j l
AllFrom-trans j k [] h a = tt
AllFrom-trans j k ((i, v) ∷ l) h a = (le_bytes_trans j k i h a.0, AllFrom-trans j k l h a.1)

pub items_from : Bytes → Items → Items
items_from k [] = []
items_from k ((j, w) ∷ l) =
    let rest = items_from k l in if le_bytes k j then (j, w) ∷ rest else rest

find_item-items_from :
    (k j : Bytes) (l : Items)
    → find_item j (items_from k l) ≡ (if le_bytes k j then find_item j l else none)
unfolding find_item items_from
find_item-items_from k j [] = ground arith
find_item-items_from k j ((i, w) ∷ l) = ground (arith, find_item-items_from k j l, eq_bytes_iff j i)

AllFrom-insert_item :
    (i k v : Bytes) (l : Items) → le_bytes i k ≡ true → AllFrom i l → AllFrom i (insert_item k v l)
unfolding insert_item
AllFrom-insert_item i k v [] h a = (h, tt)
AllFrom-insert_item i k v ((j, w) ∷ l) h a = ground (arith, AllFrom-insert_item i k v l h a.1)

AllFrom-erase_item : (i k : Bytes) (l : Items) → AllFrom i l → AllFrom i (erase_item k l)
unfolding erase_item
AllFrom-erase_item i k [] a = tt
AllFrom-erase_item i k ((j, w) ∷ l) a = ground (arith, AllFrom-erase_item i k l a.1)

AllFrom-items_from : (i k : Bytes) (l : Items) → AllFrom i l → AllFrom i (items_from k l)
unfolding items_from
AllFrom-items_from i k [] a = tt
AllFrom-items_from i k ((j, w) ∷ l) a = ground (arith, AllFrom-items_from i k l a.1)

pub AllFrom-items_from_self : (k : Bytes) (l : Items) → AllFrom k (items_from k l)
unfolding items_from
AllFrom-items_from_self k [] = tt
AllFrom-items_from_self k ((j, w) ∷ l) = ground (arith, AllFrom-items_from_self k l)

insert_item-IsAscending :
    (k v : Bytes) (l : Items) → IsAscending l → IsAscending (insert_item k v l)
unfolding insert_item
insert_item-IsAscending k v [] a = (tt, tt)
insert_item-IsAscending k v ((j, w) ∷ l) a = elim (Bool-cases (eq_bytes k j)) [
  | inl same ↦ rw same (rw ((eq_bytes_iff k j).0 same) a)
  | inr other ↦ rw other (elim (Bool-cases (le_bytes k j)) [
    | inl below ↦ rw below ((below, AllFrom-trans k j l below a.0), a)
    | inr above ↦ rw above (
      AllFrom-insert_item j k v l (le_bytes_total k j above) a.0,
      insert_item-IsAscending k v l a.1,
    )
  ])
]

erase_item-IsAscending : (k : Bytes) (l : Items) → IsAscending l → IsAscending (erase_item k l)
unfolding erase_item
erase_item-IsAscending k [] a = tt
erase_item-IsAscending k ((j, w) ∷ l) a =
    ground (arith, AllFrom-erase_item j k l a.0, erase_item-IsAscending k l a.1)

pub items_from-IsAscending : (k : Bytes) (l : Items) → IsAscending l → IsAscending (items_from k l)
unfolding items_from
items_from-IsAscending k [] a = tt
items_from-IsAscending k ((j, w) ∷ l) a =
    ground (arith, AllFrom-items_from j k l a.0, items_from-IsAscending k l a.1)

pub data Call : Type 0 where
  put : Text → Bytes → Bytes → Call
  remove : Text → Bytes → Call
  clear : Text → Bytes → Bytes → Call

-- The items outside a range.
pub items_outside : Bytes → Bytes → Items → Items
items_outside from to [] = []
items_outside from to ((k, v) ∷ l) =
    let rest = items_outside from to l in
    if le_bytes from k && not (le_bytes to k) then rest else (k, v) ∷ rest

find_item-items_outside :
    (from to j : Bytes) (l : Items)
    → find_item j (items_outside from to l)
      ≡ (if le_bytes from j && not (le_bytes to j) then none else find_item j l)
unfolding find_item items_outside
find_item-items_outside from to j [] = ground arith
find_item-items_outside from to j ((i, w) ∷ l) =
    ground (arith, find_item-items_outside from to j l, eq_bytes_iff j i)

AllFrom-items_outside :
    (i from to : Bytes) (l : Items) → AllFrom i l → AllFrom i (items_outside from to l)
unfolding items_outside
AllFrom-items_outside i from to [] a = tt
AllFrom-items_outside i from to ((k, v) ∷ l) a =
    ground (arith, AllFrom-items_outside i from to l a.1)

pub items_outside-IsAscending :
    (from to : Bytes) (l : Items) → IsAscending l → IsAscending (items_outside from to l)
unfolding items_outside
items_outside-IsAscending from to [] a = tt
items_outside-IsAscending from to ((k, v) ∷ l) a =
    ground (arith, AllFrom-items_outside k from to l a.0, items_outside-IsAscending from to l a.1)

-- The entries of a family after the calls.
pub contents : List Call → Text → Items
contents [] cf = []
contents (put c k v ∷ calls) cf =
    let old = contents calls cf in if eq_bytes cf c then insert_item k v old else old
contents (remove c k ∷ calls) cf =
    let old = contents calls cf in if eq_bytes cf c then erase_item k old else old
contents (clear c from to ∷ calls) cf =
    let old = contents calls cf in if eq_bytes cf c then items_outside from to old else old

pub contents-IsAscending : (calls : List Call) (cf : Text) → IsAscending (contents calls cf)
unfolding contents
contents-IsAscending [] cf = tt
contents-IsAscending (put c k v ∷ calls) cf = ground (
  arith,
  contents-IsAscending calls cf,
  insert_item-IsAscending k v (contents calls cf) (contents-IsAscending calls cf),
)
contents-IsAscending (remove c k ∷ calls) cf = ground (
  arith,
  contents-IsAscending calls cf,
  erase_item-IsAscending k (contents calls cf) (contents-IsAscending calls cf),
)
contents-IsAscending (clear c from to ∷ calls) cf = ground (
  arith,
  contents-IsAscending calls cf,
  items_outside-IsAscending from to (contents calls cf) (contents-IsAscending calls cf),
)

unfoldable pub find : List Call → Text → Bytes → Option Bytes
find calls cf k = find_item k (contents calls cf)

instance abbrev pub memory : Rocksdb
memory = record {
  Db = List Call;
  put_cf = λ d cf k v. (ok tt, put cf k v ∷ d);
  get_cf = λ d cf k. ok (find d cf k);
  delete_cf = λ d cf k. (ok tt, remove cf k ∷ d);
  key_may_exist_cf = λ d cf k. true;
  iterate = λ d cf from. items_from from (contents d cf);
}

pub find-put :
    (d : List Call) (cf : Text) (k v : Bytes) (c : Text) (j : Bytes)
    → find (put cf k v ∷ d) c j ≡ (if eq_bytes c cf && eq_bytes j k then some v else find d c j)
unfolding find contents
find-put d cf k v c j = ground (arith, find_item-insert_item k v j (contents d c))

pub find-remove :
    (d : List Call) (cf : Text) (k : Bytes) (c : Text) (j : Bytes)
    → find (remove cf k ∷ d) c j ≡ (if eq_bytes c cf && eq_bytes j k then none else find d c j)
unfolding find contents
find-remove d cf k c j = ground (arith, find_item-erase_item k j (contents d c))

pub find-clear :
    (d : List Call) (cf : Text) (from to : Bytes) (c : Text) (j : Bytes)
    → find (clear cf from to ∷ d) c j
      ≡ (if eq_bytes c cf && (le_bytes from j && not (le_bytes to j)) then none else find d c j)
unfolding find contents
find-clear d cf from to c j = ground (arith, find_item-items_outside from to j (contents d c))

pub find-items_from :
    (d : List Call) (cf : Text) (from k : Bytes)
    → find_item k (items_from from (contents d cf))
      ≡ (if le_bytes from k then find d cf k else none)
unfolding find
find-items_from d cf from k = find_item-items_from from k (contents d cf)

instance abbrev pub memory-IsDatabase : IsDatabase memory
memory-IsDatabase = record {
  healthy = λ d. true;
  find = find;
  get-find = λ d cf k h. refl;
  put-ok = λ d cf k v h. refl;
  put-healthy = λ d cf k v h. refl;
  find-put = λ d cf k v c j h. find-put d cf k v c j;
  delete-ok = λ d cf k h. refl;
  delete-healthy = λ d cf k h. refl;
  find-delete = λ d cf k c j h. find-remove d cf k c j;
  may_exist = λ d cf k h. refl;
  find-iterate = λ d cf from k h. find-items_from d cf from k;
  iterate-AllFrom = λ d cf from. AllFrom-items_from_self from (contents d cf);
  iterate-IsAscending =
      λ d cf from. items_from-IsAscending from (contents d cf) (contents-IsAscending d cf);
}

pub find-nil : (cf : Text) (k : Bytes) → find [] cf k ≡ none
unfolding find contents find_item
find-nil cf k = refl

-- To run the scans of a test.
unfoldable pub run_scan : List Call → Text → Bytes → Items
unfolding items_from contents insert_item erase_item eq_bytes is_utf8
run_scan d cf from = items_from from (contents d cf)

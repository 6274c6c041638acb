-- ===== src/External/TreeMap.antt =====
-- Entries in the order of keys: `BTreeMap<String, String>` of the standard library, and a column
-- family that a test keeps in memory.
use robustmq_geek.Prelude.{
  ◌≡◌, refl, none, some, List, [], ◌∷◌, Bytes, eq_bytes, eq_bytes_iff, if◌then◌else◌, arith,
}
use robustmq_geek.External.Rocksdb.{le_bytes, find_item}

abbrev pub Items : Type 0
Items = List (Bytes × Bytes)

unfoldable pub insert_item : Bytes → Bytes → Items → Items
insert_item k v [] = (k, v) ∷ []
insert_item k v ((j, w) ∷ l) =
    if eq_bytes k j
    then (k, v) ∷ l
    else if le_bytes k j
    then (k, v) ∷ (j, w) ∷ l
    else (j, w) ∷ insert_item k v l

unfoldable pub erase_item : Bytes → Items → Items
erase_item k [] = []
erase_item k ((j, w) ∷ l) =
    let rest = erase_item k l in if eq_bytes k j then rest else (j, w) ∷ rest

pub find_item-insert_item :
    (k v j : Bytes) (l : Items)
    → find_item j (insert_item k v l) ≡ (if eq_bytes j k then some v else find_item j l)
unfolding find_item insert_item
find_item-insert_item k v j [] = refl
find_item-insert_item k v j ((i, w) ∷ l) =
    ground
      (arith, find_item-insert_item k v j l, eq_bytes_iff k i, eq_bytes_iff j k, eq_bytes_iff j i)

pub find_item-erase_item :
    (k j : Bytes) (l : Items)
    → find_item j (erase_item k l) ≡ (if eq_bytes j k then none else find_item j l)
unfolding find_item erase_item
find_item-erase_item k j [] = ground arith
find_item-erase_item k j ((i, w) ∷ l) =
    ground (arith, find_item-erase_item k j l, eq_bytes_iff k i, eq_bytes_iff j k, eq_bytes_iff j i)

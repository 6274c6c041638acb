-- ===== src/Tests/Memory/Distinct.antt =====
-- No key stands twice in the database in memory.
use robustmq_geek.Prelude.{
  ◌≡◌, ◌∙◌, refl, inl, inr, true, false, none, List, [], ◌∷◌, Bytes, Text, eq_bytes, eq_bytes_iff,
  eq_bytes_comm, arith, Bool-cases,
}
use robustmq_geek.External.TreeMap.{
  Items, insert_item, erase_item, find_item-insert_item, find_item-erase_item,
}
use robustmq_geek.External.Rocksdb.{le_bytes, AllFrom, IsAscending, find_item}
use robustmq_geek.External.OpenRaft.{IsDistinct}
use robustmq_geek.Tests.Memory.{
  Call, put, remove, clear, contents, contents-IsAscending, items_from, items_outside,
  find_item-items_from, find_item-items_outside,
}

le_bytes_antisym : (a b : Bytes) → le_bytes a b ≡ true → le_bytes b a ≡ true → eq_bytes a b ≡ true
unfolding eq_bytes
le_bytes_antisym [] [] h k = refl
le_bytes_antisym [] (y ∷ b) h k = cc
le_bytes_antisym (x ∷ a) [] h k = cc
le_bytes_antisym (x ∷ a) (y ∷ b) h k = ground (arith, le_bytes_antisym a b)

missing-above :
    (k j : Bytes) (l : Items)
    → AllFrom j l
    → le_bytes k j ≡ true
    → eq_bytes k j ≡ false
    → find_item k l ≡ none
unfolding find_item
missing-above k j [] a h n = refl
missing-above k j ((i, w) ∷ l) a h n =
    ground (arith, missing-above k j l a.1 h n, eq_bytes_iff k i, le_bytes_antisym k j h)

insert_item-IsDistinct :
    (k v : Bytes) (l : Items) → IsAscending l → IsDistinct l → IsDistinct (insert_item k v l)
unfolding insert_item find_item
insert_item-IsDistinct k v [] a s = (refl, tt)
insert_item-IsDistinct k v ((j, w) ∷ l) a s = elim (Bool-cases (eq_bytes k j)) [
  | inl same ↦ rw same (rw ((eq_bytes_iff k j).0 same) s)
  | inr other ↦ rw other (elim (Bool-cases (le_bytes k j)) [
    | inl below ↦ rw below ((rw other (missing-above k j l a.0 below other), s))
    | inr above ↦ rw above (
      find_item-insert_item k v j l ∙ rw (eq_bytes_comm j k ∙ other) s.0,
      insert_item-IsDistinct k v l a.1 s.1,
    )
  ])
]

erase_item-IsDistinct : (k : Bytes) (l : Items) → IsDistinct l → IsDistinct (erase_item k l)
unfolding erase_item
erase_item-IsDistinct k [] s = tt
erase_item-IsDistinct k ((j, w) ∷ l) s =
    ground (arith, find_item-erase_item k j l, erase_item-IsDistinct k l s.1)

items_outside-IsDistinct :
    (from to : Bytes) (l : Items) → IsDistinct l → IsDistinct (items_outside from to l)
unfolding items_outside
items_outside-IsDistinct from to [] s = tt
items_outside-IsDistinct from to ((j, w) ∷ l) s =
    ground (arith, find_item-items_outside from to j l, items_outside-IsDistinct from to l s.1)

items_from-IsDistinct : (k : Bytes) (l : Items) → IsDistinct l → IsDistinct (items_from k l)
unfolding items_from
items_from-IsDistinct k [] s = tt
items_from-IsDistinct k ((j, w) ∷ l) s =
    ground (arith, find_item-items_from k j l, items_from-IsDistinct k l s.1)

contents-IsDistinct : (calls : List Call) (cf : Text) → IsDistinct (contents calls cf)
unfolding contents
contents-IsDistinct [] cf = tt
contents-IsDistinct (put c k v ∷ calls) cf = ground (
  arith,
  contents-IsDistinct calls cf,
  insert_item-IsDistinct k v (contents calls cf) (contents-IsAscending calls cf),
)
contents-IsDistinct (remove c k ∷ calls) cf =
    ground (arith, contents-IsDistinct calls cf, erase_item-IsDistinct k (contents calls cf))
contents-IsDistinct (clear c from to ∷ calls) cf =
    ground
      (arith, contents-IsDistinct calls cf, items_outside-IsDistinct from to (contents calls cf))

pub iterate-IsDistinct :
    (calls : List Call) (cf : Text) (from : Bytes)
    → IsDistinct (items_from from (contents calls cf))
iterate-IsDistinct calls cf from =
    items_from-IsDistinct from (contents calls cf) (contents-IsDistinct calls cf)

-- ===== src/OpenRaft/Nodes/Least.antt =====
-- The least of a list of ids, and how sorting finds it.
use robustmq_geek.OpenRaft.Node.{Node}
use robustmq_geek.Prelude.{
  ℕ, ◌≤◌, ◌≡◌, ◌∙◌, ◌⊎◌, refl, sym, ap, inl, inr, true, false, Option, none, some, List, [], ◌∷◌,
  map, leb, ltb, ◌==◌, ==_iff, if◌then◌else◌, arith, Bool-cases,
}
use robustmq_geek.OpenRaft.Nodes.{NodeMap, insert_node, insert_id, sort, first_of}

-- The lower of a number and one that may be missing.
unfoldable pub lower : ℕ → Option ℕ → ℕ
lower n none = n
lower n (some m) = if leb n m then n else m

unfoldable pub least : List ℕ → Option ℕ
least [] = none
least (n ∷ ids) = some (lower n (least ids))

first_of-insert_id :
    (n : ℕ) (ids : List ℕ) → first_of (insert_id n ids) ≡ some (lower n (first_of ids))
unfolding insert_id lower
first_of-insert_id n [] = refl
first_of-insert_id n (m ∷ ids) = ground arith

pub first_of-sort : (ids : List ℕ) → first_of (sort ids) ≡ least ids
unfolding sort least
first_of-sort [] = refl
first_of-sort (n ∷ ids) =
    first_of-insert_id n (sort ids) ∙ ap (λ o. some (lower n o)) (first_of-sort ids)

abbrev pub ids_of : NodeMap → List ℕ
ids_of nodes = map (λ entry. entry.0) nodes

lower-lower : (k j : ℕ) (o : Option ℕ) → lower k (some (lower j o)) ≡ lower j (some (lower k o))
unfolding lower
lower-lower k j none = ground arith
lower-lower k j (some m) = ground arith

lower-same : (k : ℕ) (o : Option ℕ) → lower k (some (lower k o)) ≡ lower k o
unfolding lower
lower-same k none = ground arith
lower-same k (some m) = ground arith

pub least-insert_node :
    (k : ℕ) (node : Node) (nodes : NodeMap)
    → least (ids_of (insert_node k node nodes)) ≡ some (lower k (least (ids_of nodes)))
unfolding least insert_node
least-insert_node k node [] = refl
least-insert_node k node ((j, other) ∷ nodes) = elim (Bool-cases (k == j)) [
  | inl same ↦
      rw same (rw (← (==_iff k j).0 same) (ap some (sym (lower-same k (least (ids_of nodes))))))
  | inr differ ↦ rw differ (elim (Bool-cases (ltb k j)) [
    | inl before ↦ rw before refl
    | inr after ↦ rw after (
        rw (least-insert_node k node nodes)
          (ap some (sym (lower-lower k j (least (ids_of nodes))))))
  ])
]

abbrev pub AtLeast : ℕ → Option ℕ → Type 0
AtLeast i none = Unit
AtLeast i (some k) = i ≤ k

pub AtLeast-lower : (i k : ℕ) (o : Option ℕ) → AtLeast i (some (lower k o)) → (i ≤ k) × AtLeast i o
unfolding lower
AtLeast-lower i k none above = (above, tt)
AtLeast-lower i k (some m) above = AtLeast-lower_of i k m (Bool-cases (leb k m)) above
  where
    AtLeast-lower_of :
        (i k m : ℕ)
        → (leb k m ≡ true) ⊎ (leb k m ≡ false)
        → i ≤ (if leb k m then k else m)
        → (i ≤ k) × (i ≤ m)
    AtLeast-lower_of i k m c above = ground arith

pub lower-cases : (k : ℕ) (o : Option ℕ) → (lower k o ≡ k) ⊎ (o ≡ some (lower k o))
unfolding lower
lower-cases k none = inl refl
lower-cases k (some m) = elim (Bool-cases (leb k m)) [
  | inl low ↦ inl (rw low refl)
  | inr high ↦ inr (rw high refl)
]

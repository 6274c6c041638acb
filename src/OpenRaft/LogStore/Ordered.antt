-- ===== src/OpenRaft/LogStore/Ordered.antt =====
-- Entries in ascending order, and those of them before the first one out of a range: what
-- `try_get_log_entries` of log_store.rs takes from its iterator.
use robustmq_geek.Prelude.{
  ℕ, ◌^◌, ◌≤◌, ◌<◌, ◌==◌, ==_iff, ◌≡◌, ◌≢◌, ◌∙◌, refl, sym, ap, true, false, Option, none, some,
  List, [], ◌∷◌, Bool-cases, inl, inr, arith, if◌then◌else◌,
}
use robustmq_geek.OpenRaft.Types.{Entry}
use robustmq_geek.OpenRaft.Keys.{}
use robustmq_geek.OpenRaft.LogStore.{Bound, included, excluded, unbounded, contains, first_id}

-- The entry that a list has for an index.
unfoldable pub entry_at : ℕ → List Entry → Option Entry
entry_at i [] = none
entry_at i (e ∷ es) = if i == e.log_id.index then some e else entry_at i es

abbrev pub AllAfter : ℕ → List Entry → Type 0
AllAfter n [] = Unit
AllAfter n (e ∷ es) = (n < e.log_id.index) × AllAfter n es

-- Indices ascend.
abbrev pub IsOrdered : List Entry → Type 0
IsOrdered [] = Unit
IsOrdered (e ∷ es) = AllAfter e.log_id.index es × IsOrdered es

-- Indices of 64 bits, from a first one on.
abbrev pub AllWithin : ℕ → List Entry → Type 0
AllWithin n [] = Unit
AllWithin n (e ∷ es) = (n ≤ e.log_id.index) × (e.log_id.index < 2 ^ 64) × AllWithin n es

-- The entries before the first one out of a range.
unfoldable pub taken : Bound × Bound → List Entry → List Entry
taken range [] = []
taken range (e ∷ es) =
    let rest = e ∷ taken range es in if contains range e.log_id.index then rest else []

-- An index between the first id of a range and an index in the range is in the range too.
contains-below :
    (range : Bound × Bound) (i j : ℕ)
    → first_id range.0 ≤ i
    → i ≤ j
    → j < 2 ^ 64
    → contains range j ≡ true
    → contains range i ≡ true
contains-below (included x, included y) i j h l b c = ground arith
contains-below (included x, excluded y) i j h l b c = ground arith
contains-below (included x, unbounded) i j h l b c = ground arith
contains-below (excluded x, included y) i j h l b c = ground arith
contains-below (excluded x, excluded y) i j h l b c = ground arith
contains-below (excluded x, unbounded) i j h l b c = ground arith
contains-below (unbounded, included y) i j h l b c = ground arith
contains-below (unbounded, excluded y) i j h l b c = ground arith
contains-below (unbounded, unbounded) i j h l b c = refl

entry_at-AllAfter : (i n : ℕ) (es : List Entry) → i ≤ n → AllAfter n es → entry_at i es ≡ none
unfolding entry_at
entry_at-AllAfter i n [] h a = refl
entry_at-AllAfter i n (e ∷ es) h a = ground (arith, entry_at-AllAfter i n es h a.1)

pub contains-first :
    (range : Bound × Bound) (i : ℕ) → i < 2 ^ 64 → contains range i ≡ true → first_id range.0 ≤ i
contains-first (included x, end) i h c = ground arith
contains-first (excluded x, end) i h c = ground arith
contains-first (unbounded, end) i h c = omega arith

-- Nothing at or after an index out of the range is in it.
out-of-range :
    (range : Bound × Bound) (n i : ℕ) (es : List Entry)
    → first_id range.0 ≤ n
    → AllAfter n es
    → contains range n ≡ false
    → i < 2 ^ 64
    → contains range i ≡ true
    → entry_at i es ≡ none
out-of-range range n i es h a out b c =
    entry_at-AllAfter i n es (ground (arith, contains-below range n i h)) a

clash : true ≢ false
clash p = cc

pub entry_at-taken :
    (range : Bound × Bound) (i : ℕ) (es : List Entry)
    → i < 2 ^ 64
    → IsOrdered es
    → AllWithin (first_id range.0) es
    → entry_at i (taken range es) ≡ (if contains range i then entry_at i es else none)
unfolding entry_at taken
entry_at-taken range i [] b o w = ground arith
entry_at-taken range i (e ∷ es) b o w = elim (Bool-cases (contains range e.log_id.index)) [
  | inl inside ↦ rw inside (elim (Bool-cases (i == e.log_id.index)) [
    | inl same ↦ rw (same, ap (contains range) ((==_iff i e.log_id.index).0 same) ∙ inside) refl
    | inr other ↦ rw other (entry_at-taken range i es b o.1 w.2)
  ])
  | inr out ↦ rw out (elim (Bool-cases (contains range i)) [
    | inr outside ↦ rw outside refl
    | inl inside ↦ rw inside (elim (Bool-cases (i == e.log_id.index)) [
      | inl same ↦
          elim (clash
            (sym inside ∙ ap (contains range) ((==_iff i e.log_id.index).0 same) ∙ out)) [ ]
      | inr other ↦ rw other (sym (out-of-range range e.log_id.index i es w.0 o.0 out b inside))
    ])
  ])
]

pub taken-IsOrdered :
    (range : Bound × Bound) (es : List Entry) → IsOrdered es → IsOrdered (taken range es)
unfolding taken
taken-IsOrdered range [] o = tt
taken-IsOrdered range (e ∷ es) o = elim (Bool-cases (contains range e.log_id.index)) [
  | inl inside ↦ rw inside (taken-AllAfter e.log_id.index es o.0, taken-IsOrdered range es o.1)
  | inr out ↦ rw out tt
]
  where
    taken-AllAfter : (n : ℕ) (l : List Entry) → AllAfter n l → AllAfter n (taken range l)
    taken-AllAfter n [] a = tt
    taken-AllAfter n (x ∷ l) a = ground (arith, taken-AllAfter n l a.1)

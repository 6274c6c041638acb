-- ===== src/OpenRaft/StateMachine/Proposed.antt =====
-- What entries that hold one and the same request do to the map of the state machine.
use robustmq_geek.Prelude.{
  ◌≡◌, ◌∙◌, ◌⊎◌, refl, ap, sym, eq_bytes_refl, false, Option, none, some, List, [], ◌∷◌, Text,
  eq_bytes, Bool-cases, inl, inr,
}
use robustmq_geek.OpenRaft.Types.{
  AppRequestData, Entry, EntryPayload, set, delete, blank, normal, membership,
}
use robustmq_geek.OpenRaft.StateMachine.Applied.{value_after, written_by}

-- The entries that a node applies for a request: those that hold it, and those without a request.
unfoldable pub IsOf : AppRequestData → EntryPayload → Type 0
IsOf req blank = Unit
IsOf req (normal r) = r ≡ req
IsOf req (membership mem) = Unit

unfoldable pub Holds : AppRequestData → List Entry → Type 0
Holds req [] = Unit
Holds req (ent ∷ entries) = IsOf req ent.payload × Holds req entries

-- One of the entries holds a request.
unfoldable pub Asks : EntryPayload → Type 0 → Type 0
Asks blank Later = Later
Asks (normal r) Later = Unit
Asks (membership mem) Later = Later

unfoldable pub HasRequest : List Entry → Type 0
HasRequest [] = ⊥
HasRequest (ent ∷ entries) = Asks ent.payload (HasRequest entries)

-- The key that a request writes, and what is there after it.
abbrev pub key_of : AppRequestData → Text
key_of (set key value) = key
key_of (delete key) = key

abbrev pub value_of : AppRequestData → Option Text
value_of (set key value) = some value
value_of (delete key) = none

written_by-other :
    (req : AppRequestData) (p : EntryPayload) (j : Text) (old : Option Text)
    → IsOf req p
    → eq_bytes j (key_of req) ≡ false
    → written_by j p old ≡ old
unfolding written_by IsOf
written_by-other req blank j old h other = refl
written_by-other req (membership mem) j old h other = refl
written_by-other req (normal (set key value)) j old h other =
    rw (ap (λ r. eq_bytes j (key_of r)) h ∙ other) refl
written_by-other req (normal (delete key)) j old h other =
    rw (ap (λ r. eq_bytes j (key_of r)) h ∙ other) refl

pub value_after-other :
    (req : AppRequestData) (entries : List Entry) (j : Text) (old : Option Text)
    → Holds req entries
    → eq_bytes j (key_of req) ≡ false
    → value_after j entries old ≡ old
unfolding value_after Holds
value_after-other req [] j old h other = refl
value_after-other req (ent ∷ entries) j old (h, hs) other =
    value_after-other req entries j (written_by j ent.payload old) hs other
    ∙ written_by-other req ent.payload j old h other

-- A key keeps its value or has what the request leaves.
abbrev pub Settles : AppRequestData → Option Text → Option Text → Type 0
Settles req old new = (new ≡ old) ⊎ (new ≡ value_of req)

written_by-Settles :
    (req : AppRequestData) (p : EntryPayload) (j : Text) (old : Option Text)
    → IsOf req p
    → Settles req old (written_by j p old)
unfolding written_by IsOf
written_by-Settles req blank j old h = inl refl
written_by-Settles req (membership mem) j old h = inl refl
written_by-Settles req (normal (set key value)) j old h = elim (Bool-cases (eq_bytes j key)) [
  | inl same ↦ rw same (inr (ap value_of h))
  | inr other ↦ rw other (inl refl)
]
written_by-Settles req (normal (delete key)) j old h = elim (Bool-cases (eq_bytes j key)) [
  | inl same ↦ rw same (inr (ap value_of h))
  | inr other ↦ rw other (inl refl)
]

pub value_after-Settles :
    (req : AppRequestData) (entries : List Entry) (j : Text) (old : Option Text)
    → Holds req entries
    → Settles req old (value_after j entries old)
unfolding value_after Holds
value_after-Settles req [] j old h = inl refl
value_after-Settles req (ent ∷ entries) j old (h, hs) =
    elim (value_after-Settles req entries j (written_by j ent.payload old) hs) [
      | inl kept ↦ elim (written_by-Settles req ent.payload j old h) [
        | inl kept' ↦ inl (kept ∙ kept')
        | inr own ↦ inr (kept ∙ own)
      ]
      | inr own ↦ inr own
    ]

written_by-own :
    (req r : AppRequestData) (old : Option Text)
    → r ≡ req
    → written_by (key_of req) (normal r) old ≡ value_of req
unfolding written_by
written_by-own req (set key value) old h =
    rw (ap (λ q. eq_bytes (key_of q) key) (sym h) ∙ eq_bytes_refl key) (ap value_of h)
written_by-own req (delete key) old h =
    rw (ap (λ q. eq_bytes (key_of q) key) (sym h) ∙ eq_bytes_refl key) (ap value_of h)

value_after_asked :
    (req : AppRequestData) (p : EntryPayload) (entries : List Entry) (old : Option Text)
    → IsOf req p
    → Holds req entries
    → Asks p (HasRequest entries)
    → (HasRequest entries → value_after (key_of req) entries old ≡ value_of req)
    → value_after (key_of req) entries (written_by (key_of req) p old) ≡ value_of req
unfolding IsOf Asks written_by
value_after_asked req blank entries old h hs has later = later has
value_after_asked req (membership mem) entries old h hs has later = later has
value_after_asked req (normal r) entries old h hs has later =
    let now = written_by (key_of req) (normal r) old in
    elim (value_after-Settles req entries (key_of req) now hs) [
      | inl kept ↦ kept ∙ written_by-own req r old h
      | inr own ↦ own
    ]

-- After entries of which one at least holds the request, its key has what it leaves.
pub value_after-own :
    (req : AppRequestData) (entries : List Entry) (old : Option Text)
    → Holds req entries
    → HasRequest entries
    → value_after (key_of req) entries old ≡ value_of req
unfolding value_after Holds HasRequest
value_after-own req [] old hs has = elim has [ ]
value_after-own req (ent ∷ entries) old (h, hs) has =
    value_after_asked req ent.payload entries old h hs has (value_after-own req entries old hs)

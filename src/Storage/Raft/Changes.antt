-- ===== src/Storage/Raft/Changes.antt =====
-- How the stored bytes change when one field of the view is set: at that field's key alone.
use mathlib.Core.Option
use robustmq_geek.Prelude.{ℕ, ◌≡◌, refl, Bool, true, false, Option, some, if◌then◌else◌, ◌==◌}
use robustmq_geek.Prelude.Dict.{Dict}
use robustmq_geek.External.Raft.{HardState, ConfState, Entry, Snapshot}
use robustmq_geek.Storage.Keys.Raft.{
  RaftKey, first_index, last_index, hard_state, conf_state, uncommit, snapshot, entry, same,
}
use robustmq_geek.Storage.Raft.{RaftFormats}
use robustmq_geek.Storage.Raft.View.{AreRaftFormats, View, stored}

-- The map of entries with one more.
abbrev pub add_log : Entry → (ℕ → Option Entry) → ℕ → Option Entry
add_log e log i = if i == e.index then some e else log i

if-map :
    {A B : Type 0} (f : A → B) (b : Bool) (x : A) (y : Option A)
    → Option.map f (if b then some x else y) ≡ (if b then some (f x) else Option.map f y)
if-map f true x y = refl
if-map f false x y = refl

module _ ⦃F : RaftFormats⦄ ⦃L : AreRaftFormats F⦄ (v : View) where
  pub change_first :
      (i : ℕ) (j : RaftKey)
      → stored (record v { first = some i }) j
        ≡ (if same j first_index then some (L.u64.written i) else stored v j)
  change_first i first_index = refl
  change_first i _ = refl

  pub change_last :
      (i : ℕ) (j : RaftKey)
      → stored (record v { last = some i }) j
        ≡ (if same j last_index then some (L.u64.written i) else stored v j)
  change_last i first_index = refl
  change_last i _ = refl

  pub change_hard :
      (h : HardState) (j : RaftKey)
      → stored (record v { hard = some h }) j ≡ (
          if same j hard_state
          then some (L.bytes.written (F.proto_hard_state.encode_to_vec h))
          else stored v j)
  change_hard h first_index = refl
  change_hard h _ = refl

  pub change_conf :
      (c : ConfState) (j : RaftKey)
      → stored (record v { conf = some c }) j ≡ (
          if same j conf_state
          then some (L.bytes.written (F.proto_conf_state.encode_to_vec c))
          else stored v j)
  change_conf c first_index = refl
  change_conf c _ = refl

  pub change_pending :
      (m : Dict ℕ) (j : RaftKey)
      → stored (record v { pending = some m }) j
        ≡ (if same j uncommit then some (L.bytes.written (L.uncommit.packed m)) else stored v j)
  change_pending m first_index = refl
  change_pending m _ = refl

  pub change_saved :
      (s : Snapshot) (j : RaftKey)
      → stored (record v { saved = some s }) j ≡ (
          if same j snapshot
          then some (L.bytes.written (F.proto_snapshot.encode_to_vec s))
          else stored v j)
  change_saved s first_index = refl
  change_saved s _ = refl

  pub change_log :
      (e : Entry) (j : RaftKey)
      → stored (record v { log = add_log e v.log }) j ≡ (
          if same j (entry e.index)
          then some (L.bytes.written (F.proto_entry.encode_to_vec e))
          else stored v j)
  change_log e (entry i) = if-map _ (i == e.index) e (v.log i)
  change_log e _ = refl

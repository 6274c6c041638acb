-- ===== src/OpenRaft/StateMachine/Applied.antt =====
-- `StateMachineStore::apply` against an independent account of what a log says.
use robustmq_geek.Prelude.{
  ap, refl, ◌≡◌, ◌∙◌, Option, none, some, List, [], ◌∷◌, Text, ok, eq_bytes, if◌then◌else◌, done,
}
use robustmq_geek.External.Rocksdb.{Rocksdb, find_item}
use robustmq_geek.External.TreeMap.{Items, find_item-insert_item, find_item-erase_item}
use robustmq_geek.External.OpenRaft.{LogId, StoredMembership, Wal}
use robustmq_geek.OpenRaft.Types.{
  AppResponseData, EntryPayload, Entry, StateMachineStore, Shared, SnapshotFormats, set, delete,
  blank, normal, membership,
}
use robustmq_geek.OpenRaft.StateMachine.{apply_payload, apply_each, apply}

-- What a payload makes of what a key maps to.
unfoldable pub written_by : Text → EntryPayload → Option Text → Option Text
written_by j blank old = old
written_by j (normal (set key value)) old = if eq_bytes j key then some value else old
written_by j (normal (delete key)) old = if eq_bytes j key then none else old
written_by j (membership mem) old = old

unfoldable pub value_after : Text → List Entry → Option Text → Option Text
value_after j [] old = old
value_after j (ent ∷ entries) old = value_after j entries (written_by j ent.payload old)

pub last_log_id : List Entry → Option LogId → Option LogId
last_log_id [] old = old
last_log_id (ent ∷ entries) old = last_log_id entries (some ent.log_id)

pub changed_by : LogId → EntryPayload → StoredMembership → StoredMembership
changed_by log_id blank old = old
changed_by log_id (normal req) old = old
changed_by log_id (membership mem) old = record { log_id = some log_id; membership = mem }

pub membership_after : List Entry → StoredMembership → StoredMembership
membership_after [] old = old
membership_after (ent ∷ entries) old =
    membership_after entries (changed_by ent.log_id ent.payload old)

-- The value that a `set` sets, and nothing for the others.
pub value_set : EntryPayload → Option Text
value_set blank = none
value_set (normal (set key value)) = some value
value_set (normal (delete key)) = none
value_set (membership mem) = none

pub replies_to : List Entry → List AppResponseData
replies_to [] = []
replies_to (ent ∷ entries) = record { value = value_set ent.payload } ∷ replies_to entries

module _ (log_id : LogId) where
  find-apply_payload :
      (p : EntryPayload) (sm : StateMachineStore) (kvs : Items) (j : Text)
      → find_item j (apply_payload log_id p sm kvs).1.1 ≡ written_by j p (find_item j kvs)
  unfolding written_by
  find-apply_payload blank sm kvs j = refl
  find-apply_payload (normal (set k v)) sm kvs j = find_item-insert_item k v j kvs
  find-apply_payload (normal (delete k)) sm kvs j = find_item-erase_item k j kvs
  find-apply_payload (membership mem) sm kvs j = refl

  fields-apply_payload :
      (p : EntryPayload) (sm : StateMachineStore) (kvs : Items)
      → (apply_payload log_id p sm kvs).1.0
        ≡ record sm { last_membership = changed_by log_id p sm.last_membership }
  unfolding changed_by
  fields-apply_payload blank sm kvs = refl
  fields-apply_payload (normal (set k v)) sm kvs = refl
  fields-apply_payload (normal (delete k)) sm kvs = refl
  fields-apply_payload (membership mem) sm kvs = refl

  value-apply_payload :
      (p : EntryPayload) (sm : StateMachineStore) (kvs : Items)
      → (apply_payload log_id p sm kvs).0 ≡ value_set p
  unfolding value_set
  value-apply_payload blank sm kvs = refl
  value-apply_payload (normal (set k v)) sm kvs = refl
  value-apply_payload (normal (delete k)) sm kvs = refl
  value-apply_payload (membership mem) sm kvs = refl

pub find-apply_each :
    (entries : List Entry) (sm : StateMachineStore) (kvs : Items) (j : Text)
    → find_item j (apply_each entries (sm, kvs)).1.1 ≡ value_after j entries (find_item j kvs)
unfolding apply_each value_after
find-apply_each [] sm kvs j = refl
find-apply_each (ent ∷ entries) sm kvs j =
    let now = record sm { last_applied_log_id = some ent.log_id } in
    let step = apply_payload ent.log_id ent.payload now kvs in
    find-apply_each entries step.1.0 step.1.1 j
    ∙ ap (value_after j entries) (find-apply_payload ent.log_id ent.payload now kvs j)

pub fields-apply_each :
    (entries : List Entry) (sm : StateMachineStore) (kvs : Items)
    → (apply_each entries (sm, kvs)).1.0 ≡ record sm {
      last_applied_log_id = last_log_id entries sm.last_applied_log_id;
      last_membership = membership_after entries sm.last_membership;
    }
unfolding apply_each last_log_id membership_after
fields-apply_each [] sm kvs = refl
fields-apply_each (ent ∷ entries) sm kvs =
    let now = record sm { last_applied_log_id = some ent.log_id } in
    let step = apply_payload ent.log_id ent.payload now kvs in
    fields-apply_each entries step.1.0 step.1.1
    ∙ ap {B = StateMachineStore}
        (λ (f : StateMachineStore). record f {
          last_applied_log_id = last_log_id entries f.last_applied_log_id;
          last_membership = membership_after entries f.last_membership;
        })
        (fields-apply_payload ent.log_id ent.payload now kvs)

pub replies-apply_each :
    (entries : List Entry) (sm : StateMachineStore) (kvs : Items)
    → (apply_each entries (sm, kvs)).0 ≡ replies_to entries
unfolding apply_each replies_to
replies-apply_each [] sm kvs = refl
replies-apply_each (ent ∷ entries) sm kvs =
    let now = record sm { last_applied_log_id = some ent.log_id } in
    let step = apply_payload ent.log_id ent.payload now kvs in
    rw (
      value-apply_payload ent.log_id ent.payload now kvs,
      replies-apply_each entries step.1.0 step.1.1,
    )

module _ ⦃R : Rocksdb⦄ ⦃W : Wal R⦄ ⦃F : SnapshotFormats⦄ where
  -- Applying entries always succeeds, with one reply for each: the value that a `set` sets, and
  -- nothing for the others. Then every key maps to what the last entry that writes it says, the
  -- last applied log id is that of the last entry, the membership that of the last membership
  -- entry, with its log id, each being the earlier one if there is no such entry, and the database
  -- is unchanged.
  pub apply_lem :
      (entries : List Entry) (sm : StateMachineStore) (s : Shared R.Db)
      → (kvs : Items) × (apply entries sm s
          ≡ done
              (
                ok (replies_to entries),
                record sm {
                  last_applied_log_id = last_log_id entries sm.last_applied_log_id;
                  last_membership = membership_after entries sm.last_membership;
                },
              )
              (record s { kvs = kvs }))
        × ((j : Text) → find_item j kvs ≡ value_after j entries (find_item j s.kvs))
  unfolding apply
  apply_lem entries sm s = (
    (apply_each entries (sm, s.kvs)).1.1,
    rw (replies-apply_each entries sm s.kvs, fields-apply_each entries sm s.kvs),
    find-apply_each entries sm s.kvs,
  )

-- ===== src/Tests/OpenRaft.antt =====
-- Formats for the openraft state machine, and the theorems on it at concrete inputs.
use robustmq_geek.Prelude.{ℕ, ◌≡◌, refl, Option, none, some, List, [], ◌∷◌, Text, codes, ok, done}
use robustmq_geek.Prelude.{eq_bytes}
use robustmq_geek.External.Rocksdb.{find_item}
use robustmq_geek.External.TreeMap.{Items, insert_item, erase_item}
use robustmq_geek.External.OpenRaft.{
  LogId, Membership, StoredMembership, SnapshotMeta, Wal, IsWal, default_membership,
}
use robustmq_geek.OpenRaft.Node.{Node}
use robustmq_geek.OpenRaft.Types.{
  Entry, AppResponseData, StateMachineStore, Shared, SnapshotFormats, StoredSnapshot, set, delete,
  blank, normal, membership,
}
use robustmq_geek.OpenRaft.StateMachine.{
  apply_each, apply, build_snapshot, install_snapshot, new, fresh, unapplied, get_snapshot_builder,
}
use robustmq_geek.OpenRaft.StateMachine.Applied.{
  apply_lem, replies_to, last_log_id, membership_after, value_after,
}
use robustmq_geek.OpenRaft.StateMachine.Restored.{
  AreSnapshotFormats, install_snapshot-build_snapshot, build_snapshot-apply,
}
use robustmq_geek.Tests.Memory.{Call, memory, memory-IsDatabase}
use robustmq_geek.Tests.Coders.{Coder, number, pair, list, via, json, json-IsJson}

abbrev to_list : {A : Type 0} → Option A → List A
to_list none = []
to_list (some a) = a ∷ []

abbrev head : {A : Type 0} → List A → Option A
head [] = none
head (a ∷ l) = some a

pub head-to_list : {A : Type 0} (o : Option A) → head (to_list o) ≡ o
head-to_list none = refl
head-to_list (some a) = refl

abbrev optional : {A : Type 0} → Coder A → Coder (Option A)
optional a = via to_list head head-to_list (list a)

abbrev pub numbers : Coder (List ℕ)
numbers = list number

abbrev pub log_id_coder : Coder LogId
log_id_coder =
    via (λ l. (l.leader_id.term, (l.leader_id.node_id, l.index)))
      (λ p. record { leader_id = record { term = p.0; node_id = p.1.0 }; index = p.1.1 })
      (λ l. refl) (pair number (pair number number))

abbrev node_coder : Coder Node
node_coder =
    via (λ n. (n.node_id, n.rpc_addr)) (λ p. record { node_id = p.0; rpc_addr = p.1 }) (λ n. refl)
      (pair number numbers)

abbrev pub membership_coder : Coder Membership
membership_coder =
    via (λ m. (m.configs, m.nodes)) (λ p. record { configs = p.0; nodes = p.1 }) (λ m. refl)
      (pair (list numbers) (list (pair number node_coder)))

abbrev stored_membership_coder : Coder StoredMembership
stored_membership_coder =
    via (λ m. (m.log_id, m.membership)) (λ p. record { log_id = p.0; membership = p.1 }) (λ m. refl)
      (pair (optional log_id_coder) membership_coder)

abbrev meta_coder : Coder SnapshotMeta
meta_coder =
    via (λ m. (m.last_log_id, (m.last_membership, m.snapshot_id)))
      (λ p. record { last_log_id = p.0; last_membership = p.1.0; snapshot_id = p.1.1 }) (λ m. refl)
      (pair (optional log_id_coder) (pair stored_membership_coder numbers))

abbrev stored_coder : Coder StoredSnapshot
stored_coder =
    via (λ s. (s.meta, s.bytes)) (λ p. record { meta = p.0; bytes = p.1 }) (λ s. refl)
      (pair meta_coder numbers)

abbrev kvs_coder : Coder Items
kvs_coder = list (pair numbers numbers)

instance abbrev pub formats : SnapshotFormats
formats = record {
  json_kvs = json kvs_coder;
  json_snapshot = json stored_coder;
  show_leader_id = λ leader. codes "T";
}

instance abbrev formats-AreSnapshotFormats : AreSnapshotFormats formats
formats-AreSnapshotFormats = record {
  kvs = json-IsJson kvs_coder;
  snapshot = json-IsJson stored_coder;
}

instance abbrev pub wal : Wal memory
wal = record { flush_wal = λ d. ok tt }

instance abbrev pub wal-IsWal : IsWal memory-IsDatabase wal
wal-IsWal = record { flush-ok = λ d h. refl }

abbrev pub at : ℕ → LogId
at index = record { leader_id = record { term = 1; node_id = 1 }; index = index }

abbrev pub nodes : Membership
nodes = record { configs = (1 ∷ 2 ∷ []) ∷ []; nodes = [] }

abbrev pub entries : List Entry
entries =
    record { log_id = at 0; payload = membership nodes }
    ∷ record { log_id = at 1; payload = normal (set (codes "b") (codes "1")) }
    ∷ record { log_id = at 2; payload = normal (set (codes "a") (codes "2")) }
    ∷ record { log_id = at 3; payload = normal (delete (codes "b")) }
    ∷ record { log_id = at 4; payload = blank }
    ∷ []

abbrev pub empty : Shared (List Call)
empty = fresh []

abbrev applied : StateMachineStore
applied = record {
  last_applied_log_id = some (at 4);
  last_membership = record { log_id = some (at 0); membership = nodes };
  snapshot_idx = 0;
}

abbrev full : Shared (List Call)
full = record { kvs = (codes "a", codes "2") ∷ []; db = [] }

apply_test :
    apply entries unapplied empty
    ≡ done
        (
          ok (
              record { value = none }
              ∷ record { value = some (codes "1") }
              ∷ record { value = some (codes "2") }
              ∷ record { value = none }
              ∷ record { value = none }
              ∷ []),
          applied,
        )
        full
unfolding apply apply_each insert_item erase_item eq_bytes
apply_test = refl

apply_lem_example :
    (kvs : Items) × (apply entries unapplied empty
      ≡ done
          (
            ok (replies_to entries),
            record unapplied {
              last_applied_log_id = last_log_id entries none;
              last_membership = membership_after entries default_membership;
            },
          )
          (record empty { kvs = kvs }))
    × ((j : Text) → find_item j kvs ≡ value_after j entries (find_item j []))
apply_lem_example = apply_lem entries unapplied empty

install_snapshot-build_snapshot_example :
    (snap : StoredSnapshot) × (s' : Shared (List Call)) × (d : List Call) × (build_snapshot applied
        full
      ≡ done (ok snap) s')
    × (install_snapshot snap.meta snap.bytes unapplied empty
        ≡ done
            (ok tt, record applied { snapshot_idx = unapplied.snapshot_idx })
            (record { kvs = full.kvs; db = d }))
    × (new (fresh d)
        ≡ done (ok (record applied { snapshot_idx = 0 })) (record { kvs = full.kvs; db = d }))
install_snapshot-build_snapshot_example =
    install_snapshot-build_snapshot applied unapplied full empty refl refl

build_snapshot-apply_example :
    (replies : List AppResponseData) × (sm' : StateMachineStore) × (kvs : Items) × (apply entries
        (get_snapshot_builder unapplied)
        empty
      ≡ done (ok replies, sm') (record empty { kvs = kvs }))
    × (sm'.last_applied_log_id ≡ last_log_id entries none)
    × (snap : StoredSnapshot) × (d : List Call) × (build_snapshot
          (get_snapshot_builder unapplied)
          (record empty { kvs = kvs })
        ≡ done (ok snap) (record { kvs = kvs; db = d }))
    × (snap.meta.last_log_id ≡ none)
    × (formats.json_kvs.from_slice snap.bytes ≡ ok kvs)
build_snapshot-apply_example = build_snapshot-apply entries unapplied empty refl

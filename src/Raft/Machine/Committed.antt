-- ===== src/Raft/Machine/Committed.antt =====
-- placement-center/src/raft/machine.rs: `handle_committed_entries` and `create_snapshot`.
use robustmq_geek.Prelude.{ℕ, ◌%◌, none, some, List, [], ◌∷◌}
use robustmq_geek.Prelude.{is_empty, Bytes, ok, err, if◌then◌else◌, ◌==◌, add_one}
use robustmq_geek.Prelude.{Action, ◌>>=◌, ◌>>◌, pure, panic, gets, modify, unwrap}
use robustmq_geek.Prelude.Dict
use robustmq_geek.External.Rocksdb.{Rocksdb}
use robustmq_geek.External.Raft.{
  Entry, EntryType, entry_normal, entry_conf_change, entry_conf_change_v2,
}
use robustmq_geek.External.RawNode.{
  ConfChange, ConfChangeType, add_node, remove_node, add_learner_node, RawNode,
}
use robustmq_geek.Storage.Kv.{KvFormats}
use robustmq_geek.Storage.Raft.{RaftFormats, Storage}
use robustmq_geek.Raft.RocksdbStorage as Store
use robustmq_geek.Raft.Proposal.{success, answered}
use robustmq_geek.Raft.Route.{RouteFormats, route}
use robustmq_geek.Raft.Metadata.{add_peer, remove_peer}
use robustmq_geek.Raft.Machine.{
  MachineFormats, Machine, in_store, in_db, in_node, settle, on_cluster,
}

module _ ⦃R : Rocksdb⦄ ⦃N : RawNode Storage⦄ ⦃K : KvFormats⦄ ⦃F : RaftFormats⦄ ⦃G : RouteFormats⦄
    ⦃C : MachineFormats N.Message⦄ where
  unfoldable pub create_snapshot : Action Machine (Unit {0})
  create_snapshot = do
    num ← gets (λ s. s.entry_num)
    modify (λ s. record s { entry_num = add_one s.entry_num })
    if num % 1000 == 0 then (do result ← in_store Store.create_snapshot; unwrap result) else pure tt

  unfoldable pub change_peers : ConfChangeType → ConfChange → Action Machine (Unit {0})
  change_peers add_node change = elim (C.bincode_node.deserialize change.context) [
    | ok node ↦ on_cluster (add_peer change.node_id node)
    | err e ↦ pure tt
  ]
  change_peers remove_node change = on_cluster (remove_peer change.node_id)
  change_peers add_learner_node change = panic

  -- A failed `apply_conf_change` is passed over.
  unfoldable pub apply_conf_change : ConfChange → Action Machine (Unit {0})
  apply_conf_change change = do
    applied ← in_node (N.apply_conf_change change)
    elim applied [ ok cs ↦ do in_store (Store.set_conf_state cs); pure tt | err e ↦ pure tt ]

  -- What is done with the data of an entry that has some. The clock gives the second at which an
  -- entry is routed; a failed route is only logged.
  unfoldable pub handle_data : (Entry → ℕ) → EntryType → Entry → Action Machine (Unit {0})
  unfolding change_peers apply_conf_change
  handle_data clock entry_normal entry = do in_db (route entry.bytes (clock entry)); pure tt
  handle_data clock entry_conf_change entry = do
    change ← unwrap (C.proto_conf_change.decode entry.bytes)
    change_peers change.change_type change
    apply_conf_change change
  handle_data clock entry_conf_change_v2 entry = pure tt

  -- The waiting sender whose sequence number the context holds is sent an answer.
  unfoldable pub answer : Bytes → Action Machine (Unit {0})
  answer context = elim (C.bincode_seq.deserialize context) [
    | ok seq ↦ do
      waiting ← gets (λ s. Dict.lookup seq s.resp_channel)
      modify (λ s. record s { resp_channel = Dict.remove seq s.resp_channel })
      elim waiting [ some chan ↦ settle chan (answered success) | none ↦ pure tt ]
    | err e ↦ pure tt
  ]

  -- The body of the loop of `handle_committed_entries`.
  unfoldable pub handle_committed_entry : (Entry → ℕ) → Entry → Action Machine (Unit {0})
  unfolding handle_data answer create_snapshot
  handle_committed_entry clock entry = do
    if is_empty entry.bytes then pure tt else handle_data clock entry.entry_type entry
    in_store (Store.commmit_index entry.index)
    answer entry.context
    create_snapshot

  unfoldable pub handle_committed_entries : (Entry → ℕ) → List Entry → Action Machine (Unit {0})
  handle_committed_entries clock [] = pure tt
  handle_committed_entries clock (entry ∷ entrys) = do
    handle_committed_entry clock entry
    handle_committed_entries clock entrys

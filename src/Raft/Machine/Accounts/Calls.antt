-- ===== src/Raft/Machine/Accounts/Calls.antt =====
-- The parts of a turn that no account depends on.
use robustmq_geek.Prelude.{ℕ, ◌%◌, Option, List, [], ◌∷◌}
use robustmq_geek.Prelude.{Result, ok, err, Action, ◌>>◌, pure, ◌==◌, add_one}
use robustmq_geek.Prelude.Dict.{Dict}
use robustmq_geek.Prelude.Outcomes.{Keeps, Keeps->>=, Keeps-if, Keeps-unwrap}
use robustmq_geek.Common.Errors.{Fault}
use robustmq_geek.External.Rocksdb.{Rocksdb}
use robustmq_geek.External.Raft.{
  Entry, ConfState, EntryType, entry_normal, entry_conf_change, entry_conf_change_v2, Snapshot,
}
use robustmq_geek.External.RawNode.{
  ConfChange, ConfChangeType, add_node, remove_node, add_learner_node, RawNode,
}
use robustmq_geek.Storage.Kv.{KvFormats}
use robustmq_geek.Storage.Raft.{RaftFormats, Storage}
use robustmq_geek.Raft.RocksdbStorage as Store
use robustmq_geek.Raft.Proposal.{Waited}
use robustmq_geek.Raft.Route.{RouteFormats, route}
use robustmq_geek.Raft.Node.{BrokerNode}
use robustmq_geek.Raft.Metadata.{add_peer, remove_peer}
use robustmq_geek.Raft.Machine.{MachineFormats, Machine, in_store, in_db, on_cluster}
use robustmq_geek.Raft.Machine.Waiting.{}
use robustmq_geek.Raft.Machine.Committed.{
  create_snapshot, change_peers, apply_conf_change, handle_data,
}
use robustmq_geek.Raft.Machine.Persist.{is_default, send_message, save_snapshot, save_entries}
use robustmq_geek.Raft.Machine.Accounts.{
  On, in_store-On, in_db-On, in_node-On, in_store-unwrap-On, send_peer_message-On,
}

module _ ⦃R : Rocksdb⦄ ⦃N : RawNode Storage⦄ ⦃K : KvFormats⦄ ⦃F : RaftFormats⦄ ⦃G : RouteFormats⦄
    ⦃C : MachineFormats N.Message⦄ where
  module _ (Q : ℕ → Dict ℕ → List (ℕ × Waited) → Option BrokerNode → Type 0) where
    pub create_snapshot-On : Keeps (On Q) create_snapshot
    unfolding create_snapshot
    create_snapshot-On s h =
        Keeps-if (On Q) (s.entry_num % 1000 == 0) _ (pure tt)
          (in_store-unwrap-On Q Store.create_snapshot) (λ s' h'. h')
          (record s { entry_num = add_one s.entry_num }) h

    pub change_peers-On :
        (t : ConfChangeType) (change : ConfChange) → Keeps (On Q) (change_peers t change)
    unfolding change_peers add_peer remove_peer
    change_peers-On add_node change s h = by_node (C.bincode_node.deserialize change.context) s h
      where
        by_node :
            (r : Result Fault BrokerNode)
            → Keeps
                (On Q)
                (elim r [ ok node ↦ on_cluster (add_peer change.node_id node) | err e ↦ pure tt ])
        by_node (ok node) s h = h
        by_node (err e) s h = h
    change_peers-On remove_node change s h = h
    change_peers-On add_learner_node change s h = tt

    pub apply_conf_change-On : (change : ConfChange) → Keeps (On Q) (apply_conf_change change)
    unfolding apply_conf_change
    apply_conf_change-On change =
        Keeps->>= (On Q) _ _ (in_node-On Q (N.apply_conf_change change)) saved
      where
        saved :
            (r : Result Fault ConfState)
            → Keeps (On Q) (elim r as (λ _. Action Machine (Unit {0})) [
              | ok cs ↦ do in_store (Store.set_conf_state cs); pure tt
              | err e ↦ pure tt
            ])
        saved (ok cs) = Keeps->>= (On Q) _ _ (in_store-On Q (Store.set_conf_state cs)) (λ _ s h. h)
        saved (err e) = λ s h. h

    pub handle_data-On :
        (clock : Entry → ℕ) (t : EntryType) (entry : Entry)
        → Keeps (On Q) (handle_data clock t entry)
    unfolding handle_data
    handle_data-On clock entry_normal entry s h =
        Keeps->>= (On Q) (in_db (route entry.bytes (clock entry))) (λ _. pure tt)
          (in_db-On Q (route entry.bytes (clock entry))) (λ _ s h. h) s h
    handle_data-On clock entry_conf_change entry s h =
        Keeps->>= (On Q) _ _ (Keeps-unwrap (On Q) (C.proto_conf_change.decode entry.bytes))
          (λ change.
            Keeps->>= (On Q) _ _ (change_peers-On change.change_type change)
              λ _. apply_conf_change-On change)
          s h
    handle_data-On clock entry_conf_change_v2 entry s h = h

    pub send_message-On : (messages : List N.Message) → Keeps (On Q) (send_message messages)
    unfolding send_message
    send_message-On [] s h = h
    send_message-On (msg ∷ messages) s h =
        Keeps->>= (On Q) _ _
          (send_peer_message-On Q (N.get_to msg) (C.proto_message.encode_to_vec msg))
          (λ _. send_message-On messages) s h

    pub save_snapshot-On : (snapshot : Snapshot) → Keeps (On Q) (save_snapshot snapshot)
    unfolding save_snapshot
    save_snapshot-On snapshot =
        Keeps-if (On Q) (is_default snapshot) (pure tt) _ (λ s h. h)
          (in_store-unwrap-On Q (Store.apply_snapshot snapshot))

    pub save_entries-On : (entries : List Entry) → Keeps (On Q) (save_entries entries)
    unfolding save_entries
    save_entries-On [] s h = h
    save_entries-On (entry ∷ entries) s h =
        in_store-unwrap-On Q (Store.append (entry ∷ entries)) s h

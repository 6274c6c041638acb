-- ===== src/Raft/Machine/Accounts.antt =====
-- Who has the one-shot senders: each is in the table, under a sequence number that is given out
-- once, or it is settled; and the leader that the machine knows of. Each part of a turn is shown to
-- keep this.
pub mod Calls
pub mod Answered
pub mod Turns
pub mod Received
pub mod Totals
use robustmq_geek.Prelude.{
  arith, ◌≤◌, ℕ, suc, ◌+◌, ◌%◌, ◌≤◌, ◌<◌, ◌^◌, ◌≡◌, refl, Bool, true, false, not, Option, none,
  some, List, [], ◌∷◌,
}
use robustmq_geek.Prelude.{
  Bytes, Result, ok, err, Run, done, panicked, Action, ◌>>=◌, ◌>>◌, pure, panic, gets, modify,
  unwrap, if◌then◌else◌, ◌==◌, add_one, arith, Option-cases, inl, inr, is_empty,
}
use robustmq_geek.Prelude.Dict
use robustmq_geek.Prelude.Dict.{Dict, lookup}
use robustmq_geek.Prelude.Outcomes.{
  Ensures, Leads, Keeps, Leads->>=, Keeps->>=, Keeps-if, Keeps-unwrap, Ensures-continue,
}
use robustmq_geek.Common.Errors.{Fault}
use robustmq_geek.External.Rocksdb.{Rocksdb}
use robustmq_geek.External.Raft.{
  Entry, ConfState, EntryType, entry_normal, entry_conf_change, entry_conf_change_v2, HardState,
  Snapshot,
}
use robustmq_geek.External.RawNode.{
  ConfChange, ConfChangeType, add_node, remove_node, add_learner_node, RawNode, Ready, LightReady,
  emptied,
}
use robustmq_geek.Storage.Kv.{KvFormats}
use robustmq_geek.Storage.Raft.{RaftFormats, Storage}
use robustmq_geek.Raft.RocksdbStorage as Store
use robustmq_geek.Raft.Proposal.{Waited, answered, dropped, success}
use robustmq_geek.Raft.Route.{RouteFormats, route}
use robustmq_geek.Raft.Node.{BrokerNode}
use robustmq_geek.Raft.Metadata.{add_peer, remove_peer, set_role, eq_role, get_node_by_id}
use robustmq_geek.Raft.Machine.{
  MachineFormats, RaftMachine, Machine, in_store, in_db, in_node, with_storage, with_db, with_node,
  settle, on_cluster, send_peer_message,
}
use robustmq_geek.Raft.Machine.Waiting.{
  hits, times_waiting, times_settled, KeysBelow, IsDistinct, lookup-KeysBelow, remove-KeysBelow,
  remove-IsDistinct, times_waiting-remove, times_waiting-remove-none,
}
use robustmq_geek.Raft.Machine.Committed.{
  create_snapshot, change_peers, apply_conf_change, handle_data, answer, handle_committed_entry,
  handle_committed_entries,
}
use robustmq_geek.Raft.Machine.Persist.{
  is_default, send_message, save_snapshot, save_entries, persist, finish, on_ready,
}

-- Each sender is held as often as the total says, and the sequence numbers are at most a bound.
pub record Accounts (total : ℕ → ℕ) (bound seqnum : ℕ) (waiting : Dict ℕ)
    (settled : List (ℕ × Waited)) (leader : Option BrokerNode) : Type 0 where
  pub small : seqnum ≤ bound
  pub below : KeysBelow seqnum waiting
  pub distinct : IsDistinct waiting
  pub held : (j : ℕ) → times_waiting j waiting + times_settled j settled ≡ total j
  pub led : leader ≡ none

pub Accounts-eq :
    {n : ℕ} {waiting : Dict ℕ} {settled : List (ℕ × Waited)} {leader : Option BrokerNode}
    (total total' : ℕ → ℕ) (bound bound' : ℕ)
    → ((j : ℕ) → total j ≡ total' j)
    → bound ≤ bound'
    → Accounts total bound n waiting settled leader
    → Accounts total' bound' n waiting settled leader
Accounts-eq total total' bound bound' same le h = record {
  small = omega (arith, h.small);
  below = h.below;
  distinct = h.distinct;
  held = λ j. omega (arith, h.held j, same j);
  led = h.led;
}

module _ ⦃R : Rocksdb⦄ ⦃N : RawNode Storage⦄ where
  -- A condition on the parts of a machine that the accounts are about.
  abbrev pub On : (ℕ → Dict ℕ → List (ℕ × Waited) → Option BrokerNode → Type 0) → Machine → Type 0
  On Q s = Q s.seqnum s.resp_channel s.settled s.placement_cluster.leader

  abbrev pub Balanced : (ℕ → ℕ) → ℕ → Machine → Type 0
  Balanced total bound = On (Accounts total bound)

  module _ (Q : ℕ → Dict ℕ → List (ℕ × Waited) → Option BrokerNode → Type 0) where
    with_storage-On :
        {A : Type 0} (r : Run Storage A) (s : Machine)
        → On Q s
        → Ensures (λ _. On Q) (with_storage s r)
    with_storage-On (done a storage) s h = h
    with_storage-On (panicked storage) s h = tt

    with_node-On :
        {A : Type 0} (r : Run Storage (A × N.Node)) (s : Machine)
        → On Q s
        → Ensures (λ _. On Q) (with_node s r)
    with_node-On (done (a, node) storage) s h = h
    with_node-On (panicked storage) s h = tt

    -- Calls on the storage and of the node keep any such condition.
    pub in_store-On : {A : Type 0} (m : Action Storage A) → Keeps (On Q) (in_store m)
    in_store-On m s h = with_storage-On (m s.raft_storage) s h

    pub in_db-On : {A : Type 0} (m : Action R.Db A) → Keeps (On Q) (in_db m)
    in_db-On m s h = with_storage-On (with_db s.raft_storage (m s.raft_storage.db)) s h

    pub in_node-On :
        {A : Type 0} (m : N.Node → Action Storage (A × N.Node)) → Keeps (On Q) (in_node m)
    in_node-On m s h = with_node-On (m s.raft_node s.raft_storage) s h

    pub in_store-unwrap-On :
        {A E : Type 0} (m : Action Storage (Result E A))
        → Keeps (On Q) (in_store m >>= λ r. unwrap r)
    in_store-unwrap-On m =
        Keeps->>= (On Q) (in_store m) _ (in_store-On m) (λ r. Keeps-unwrap (On Q) r)

    sent-On :
        (found : Option BrokerNode) (bytes : Bytes)
        → Keeps (On Q) (elim found [
          | some node ↦ modify (λ s. record s {
            spawned = record { to = node.node_inner_addr; bytes = bytes } ∷ s.spawned;
          })
          | none ↦ pure tt
        ])
    sent-On none bytes s h = h
    sent-On (some node) bytes s h = h

    pub send_peer_message-On : (id : ℕ) (bytes : Bytes) → Keeps (On Q) (send_peer_message id bytes)
    unfolding send_peer_message
    send_peer_message-On id bytes s h = sent-On (get_node_by_id id s.placement_cluster) bytes s h

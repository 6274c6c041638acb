-- ===== src/Raft/Machine/Accounts/Turns.antt =====
-- What a turn does after its message keeps the accounts.
use robustmq_geek.Prelude.{ℕ, not, Option, none, some, List}
use robustmq_geek.Prelude.{Action, ◌>>=◌, pure, unwrap}
use robustmq_geek.Prelude.Dict.{Dict}
use robustmq_geek.Prelude.Outcomes.{Keeps, Keeps->>=, Keeps-if}
use robustmq_geek.External.Rocksdb.{Rocksdb}
use robustmq_geek.External.Raft.{Entry, HardState}
use robustmq_geek.External.RawNode.{RawNode, Ready, LightReady, emptied}
use robustmq_geek.Storage.Kv.{KvFormats}
use robustmq_geek.Storage.Raft.{RaftFormats, Storage}
use robustmq_geek.Raft.RocksdbStorage as Store
use robustmq_geek.Raft.Proposal.{Waited}
use robustmq_geek.Raft.Route.{RouteFormats}
use robustmq_geek.Raft.Node.{BrokerNode}
use robustmq_geek.Raft.Metadata.{set_role, eq_role}
use robustmq_geek.Raft.Machine.{MachineFormats, Machine, in_store, on_cluster}
use robustmq_geek.Raft.Machine.Waiting.{}
use robustmq_geek.Raft.Machine.Persist.{persist, finish, on_ready}
use robustmq_geek.Raft.Machine.Loop.{Turn, update_role, after_message}
use robustmq_geek.Raft.Machine.Accounts.{Accounts, Balanced, in_node-On, in_store-unwrap-On}
use robustmq_geek.Raft.Machine.Accounts.Calls.{send_message-On, save_snapshot-On, save_entries-On}
use robustmq_geek.Raft.Machine.Accounts.Answered.{handle_committed_entries-Balanced}

module _ ⦃R : Rocksdb⦄ ⦃N : RawNode Storage⦄ ⦃K : KvFormats⦄ ⦃F : RaftFormats⦄ ⦃G : RouteFormats⦄
    ⦃C : MachineFormats N.Message⦄ where
  module _ (total : ℕ → ℕ) (bound : ℕ) where
    abbrev A : ℕ → Dict ℕ → List (ℕ × Waited) → Option BrokerNode → Type 0
    A = Accounts total bound

    abbrev B : Machine → Type 0
    B = Balanced total bound

    persist-Balanced : (clock : Entry → ℕ) (ready : Ready N.Message) → Keeps B (persist clock ready)
    unfolding persist
    persist-Balanced clock ready = Keeps->>= B _ _ (send_message-On A ready.messages) λ _.
        Keeps->>= B _ _ (save_snapshot-On A ready.snapshot) λ _.
          Keeps->>= B _ _ (save_entries-On A ready.entries) λ _.
            Keeps->>= B _ _
              (handle_committed_entries-Balanced total bound clock ready.committed_entries)
              λ _. Keeps->>= B _ _ (saved ready.hs) λ _. send_message-On A ready.persisted_messages
      where
        saved :
            (o : Option HardState)
            → Keeps B (elim o as (λ _. Action Machine (Unit {0})) [
              | some hs ↦ do result ← in_store (Store.set_hard_state hs); unwrap result
              | none ↦ pure tt
            ])
        saved none = λ s h. h
        saved (some hs) = in_store-unwrap-On A (Store.set_hard_state hs)

    finish-Balanced :
        (clock : Entry → ℕ) (light_rd : LightReady N.Message) → Keeps B (finish clock light_rd)
    unfolding finish
    finish-Balanced clock light_rd = Keeps->>= B _ _ (saved light_rd.commit_index) λ _.
        Keeps->>= B _ _ (send_message-On A light_rd.messages) λ _.
          Keeps->>= B _ _
            (handle_committed_entries-Balanced total bound clock light_rd.committed_entries)
            λ _. in_node-On A N.advance_apply
      where
        saved :
            (o : Option ℕ)
            → Keeps B (elim o as (λ _. Action Machine (Unit {0})) [
              | some commit ↦ do
                result ← in_store (Store.set_hard_state_comit commit)
                unwrap result
              | none ↦ pure tt
            ])
        saved none = λ s h. h
        saved (some commit) = in_store-unwrap-On A (Store.set_hard_state_comit commit)

    on_ready-Balanced : (clock : Entry → ℕ) → Keeps B (on_ready clock)
    unfolding on_ready
    on_ready-Balanced clock = Keeps->>= B _ _ (in_node-On A N.has_ready) λ has.
        Keeps-if B (not has) (pure tt) _ (λ s h. h)
          (Keeps->>= B _ _ (in_node-On A N.ready) λ ready.
            Keeps->>= B _ _ (persist-Balanced clock ready) λ _.
              Keeps->>= B _ _ (in_node-On A (N.advance (emptied ready)))
                λ light_rd. finish-Balanced clock light_rd)

    update_role-Balanced : Keeps B update_role
    unfolding update_role set_role
    update_role-Balanced s h =
        Keeps-if B (eq_role s.placement_cluster.raft_role (N.role s.raft_node)) (pure tt)
          (on_cluster (set_role (N.role s.raft_node))) (λ s' h'. h') (λ s' h'. h') s h

    pub after_message-Balanced : (turn : Turn N.Message) → Keeps B (after_message turn)
    unfolding after_message
    after_message-Balanced turn =
        Keeps->>= B _ _
          (Keeps-if B turn.heartbeat_passed _ (pure tt)
            (Keeps->>= B _ _ (in_node-On A N.tick) (λ _ s h. h)) (λ s h. h))
          λ _.
            Keeps->>= B _ _ update_role-Balanced
              λ _. Keeps->>= B _ _ (on_ready-Balanced turn.clock) (λ _ s h. h)

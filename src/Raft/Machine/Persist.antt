-- ===== src/Raft/Machine/Persist.antt =====
-- placement-center/src/raft/machine.rs: `on_ready` and `send_message`.
use robustmq_geek.Prelude.{ℕ, Bool, not, none, some, List, [], ◌∷◌, ◌&&◌}
use robustmq_geek.Prelude.{is_empty, if◌then◌else◌, ◌==◌}
use robustmq_geek.Prelude.{Action, ◌>>=◌, ◌>>◌, pure, unwrap}
use robustmq_geek.External.Rocksdb.{Rocksdb}
use robustmq_geek.External.Raft.{Entry, ConfState, Snapshot}
use robustmq_geek.External.RawNode.{RawNode, Ready, LightReady, emptied}
use robustmq_geek.Storage.Kv.{KvFormats}
use robustmq_geek.Storage.Raft.{RaftFormats, Storage}
use robustmq_geek.Raft.RocksdbStorage as Store
use robustmq_geek.Raft.Route.{RouteFormats}
use robustmq_geek.Raft.Machine.{MachineFormats, Machine, in_store, in_node, send_peer_message}
use robustmq_geek.Raft.Machine.Committed.{handle_committed_entries}

is_default_conf_state : ConfState → Bool
is_default_conf_state cs =
    is_empty cs.voters
    && is_empty cs.learners
    && is_empty cs.voters_outgoing
    && is_empty cs.learners_next
    && not cs.auto_leave

-- `snapshot == Snapshot::default()`
pub is_default : Snapshot → Bool
unfolding is_default_conf_state
is_default snapshot =
    is_empty snapshot.bytes
    && snapshot.metadata.index == 0
    && snapshot.metadata.term == 0
    && is_default_conf_state snapshot.metadata.conf_state

module _ ⦃R : Rocksdb⦄ ⦃N : RawNode Storage⦄ ⦃K : KvFormats⦄ ⦃F : RaftFormats⦄ ⦃G : RouteFormats⦄
    ⦃C : MachineFormats N.Message⦄ where
  unfoldable pub send_message : List N.Message → Action Machine (Unit {0})
  send_message [] = pure tt
  send_message (msg ∷ messages) = do
    send_peer_message (N.get_to msg) (C.proto_message.encode_to_vec msg)
    send_message messages

  unfoldable pub save_snapshot : Snapshot → Action Machine (Unit {0})
  unfolding is_default
  save_snapshot snapshot =
      if is_default snapshot
      then pure tt
      else (do result ← in_store (Store.apply_snapshot snapshot); unwrap result)

  unfoldable pub save_entries : List Entry → Action Machine (Unit {0})
  save_entries [] = pure tt
  save_entries (entry ∷ entries) = do
    result ← in_store (Store.append (entry ∷ entries))
    unwrap result

  -- The body of `on_ready` after it has taken a ready. Sending no messages does nothing, so the
  -- tests for an empty list are left out.
  unfoldable pub persist : (Entry → ℕ) → Ready N.Message → Action Machine (Unit {0})
  persist clock ready = do
    send_message ready.messages
    save_snapshot ready.snapshot
    save_entries ready.entries
    handle_committed_entries clock ready.committed_entries
    elim ready.hs [
      | some hs ↦ do result ← in_store (Store.set_hard_state hs); unwrap result
      | none ↦ pure tt
    ]
    send_message ready.persisted_messages

  -- What follows the call of `advance`.
  unfoldable pub finish : (Entry → ℕ) → LightReady N.Message → Action Machine (Unit {0})
  finish clock light_rd = do
    elim light_rd.commit_index [
      | some commit ↦ do result ← in_store (Store.set_hard_state_comit commit); unwrap result
      | none ↦ pure tt
    ]
    send_message light_rd.messages
    handle_committed_entries clock light_rd.committed_entries
    in_node N.advance_apply

  unfoldable pub on_ready : (Entry → ℕ) → Action Machine (Unit {0})
  unfolding persist finish save_snapshot save_entries
  on_ready clock = do
    has ← in_node N.has_ready
    if not has then pure tt else do
      ready ← in_node N.ready
      persist clock ready
      light_rd ← in_node (N.advance (emptied ready))
      finish clock light_rd

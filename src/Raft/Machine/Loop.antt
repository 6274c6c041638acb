-- ===== src/Raft/Machine/Loop.antt =====
-- placement-center/src/raft/machine.rs: `new`, `new_node` and the loop of `run`.
use robustmq_geek.Prelude.{ℕ, ◌*◌, Bool, false, Option, none, some, List, [], ◌∷◌}
use robustmq_geek.Prelude.{Result, ok, err, if◌then◌else◌, add_one}
use robustmq_geek.Prelude.{Action, ◌>>=◌, ◌>>◌, pure, gets, modify, unwrap}
use robustmq_geek.Prelude.Dict
use robustmq_geek.Common.Errors.{Fault}
use robustmq_geek.External.Rocksdb.{Rocksdb}
use robustmq_geek.External.Raft.{Entry}
use robustmq_geek.External.RawNode.{RawNode, Config}
use robustmq_geek.Storage.Kv.{KvFormats}
use robustmq_geek.Storage.Raft.{RaftFormats, Storage, hard_state, conf_state, save_conf_state}
use robustmq_geek.Raft.Proposal.{success, answered, dropped}
use robustmq_geek.Raft.Route.{RouteFormats}
use robustmq_geek.Raft.Metadata.{RaftGroupMetadata, eq_role, set_role, node_ids}
use robustmq_geek.Raft.Machine.{
  MachineFormats, Machine, RaftMessage, conf_change, raft, transfer_leader, propose, Chan, in_node,
  settle, on_cluster,
}
use robustmq_geek.Raft.Machine.Persist.{on_ready}

-- What a turn of the loop meets: whether the stop signal is there, what the receiver gives within
-- the heartbeat, whether a heartbeat has passed since the last tick, and the clock.
pub data Received (Message : Type 0) : Type 0 where
  arrived : RaftMessage Message → Received Message
  closed : Received Message
  timed_out : Received Message

pub record Turn (Message : Type 0) : Type 0 where
  pub stop : Option Bool
  pub received : Received Message
  pub heartbeat_passed : Bool
  pub clock : Entry → ℕ

pub data Flow : Type 0 where
  goes_on breaks : Flow

-- A stop signal of `false` is passed over, and so is a receiver with none.
abbrev pub stopped : Option Bool → Bool
stopped (some val) = val
stopped none = false

abbrev pub build_config : ℕ → ℕ → Config
build_config node_id apply = record {
  id = node_id;
  election_tick = 10;
  heartbeat_tick = 3;
  max_size_per_msg = 1024 * 1024 * 1024;
  max_inflight_msgs = 256;
  applied = apply;
}

module _ ⦃R : Rocksdb⦄ ⦃N : RawNode Storage⦄ ⦃F : RaftFormats⦄ where
  -- `new_node`, for the configured node id. A failed save of the voters is dropped.
  unfoldable pub new_node : ℕ → RaftGroupMetadata → Action Storage N.Node
  new_node node_id cluster = do
    hs ← hard_state
    cs ← conf_state
    save_conf_state (record cs { voters = node_ids cluster })
    node ← N.new (build_config node_id hs.commit)
    unwrap node

  -- `RaftMachine::new`, with the node that `run` makes at once.
  unfoldable pub new : RaftGroupMetadata → Storage → N.Node → Machine
  new cluster storage node = record {
    placement_cluster = cluster;
    seqnum = 1;
    resp_channel = [];
    entry_num = 1;
    raft_storage = storage;
    raft_node = node;
    settled = [];
    spawned = [];
  }

module _ ⦃R : Rocksdb⦄ ⦃N : RawNode Storage⦄ ⦃K : KvFormats⦄ ⦃F : RaftFormats⦄ ⦃G : RouteFormats⦄
    ⦃C : MachineFormats N.Message⦄ where
  unfoldable pub next_seq : Action Machine ℕ
  next_seq = do
    seq ← gets (λ s. s.seqnum)
    modify (λ s. record s { seqnum = add_one s.seqnum })
    pure seq

  -- An accepted proposal waits under its sequence number; the sender of a refused one is dropped.
  abbrev pub wait_or_drop : ℕ → Chan → Result Fault (Unit {0}) → Action Machine (Unit {0})
  wait_or_drop seq chan (ok _) =
      modify (λ s. record s { resp_channel = Dict.insert seq chan s.resp_channel })
  wait_or_drop seq chan (err e) = settle chan dropped

  unfoldable pub handle_message : RaftMessage N.Message → Action Machine (Unit {0})
  unfolding next_seq
  handle_message (conf_change change chan) = do
    seq ← next_seq
    context ← unwrap (C.bincode_seq.serialize seq)
    result ← in_node (N.propose_conf_change context change)
    wait_or_drop seq chan result
  handle_message (raft message chan) = do
    result ← in_node (N.step message)
    elim result [ ok _ ↦ settle chan (answered success) | err e ↦ settle chan dropped ]
  handle_message (transfer_leader node_id chan) = do
    in_node (N.transfer_leader node_id)
    settle chan (answered success)
  handle_message (propose bytes chan) = do
    seq ← next_seq
    context ← unwrap (C.bincode_seq.serialize seq)
    result ← in_node (N.propose context bytes)
    wait_or_drop seq chan result

  unfoldable pub update_role : Action Machine (Unit {0})
  update_role = do
    role ← gets (λ s. N.role s.raft_node)
    was ← gets (λ s. s.placement_cluster.raft_role)
    if eq_role was role then pure tt else on_cluster (set_role role)

  -- The part of a turn after the receiver: the tick, the role and the ready.
  unfoldable pub after_message : Turn N.Message → Action Machine Flow
  unfolding update_role
  after_message turn = do
    if turn.heartbeat_passed then (do in_node N.tick; pure tt) else pure tt
    update_role
    on_ready turn.clock
    pure goes_on

  -- The rest of a turn, from the receiver on.
  unfoldable pub receive : Turn N.Message → Received N.Message → Action Machine Flow
  unfolding handle_message after_message
  receive turn (arrived msg) = do handle_message msg; after_message turn
  receive turn closed = pure goes_on
  receive turn timed_out = after_message turn

  -- One turn of the loop of `run`. A closed receiver skips the rest of the turn.
  unfoldable pub take_turn : Turn N.Message → Action Machine Flow
  unfolding receive
  take_turn turn = if stopped turn.stop then pure breaks else receive turn turn.received

  -- The loop of `run`, for the turns that come, until one breaks it.
  unfoldable pub run : List (Turn N.Message) → Action Machine Flow
  run [] = pure goes_on
  run (turn ∷ turns) = do
    flow ← take_turn turn
    elim flow [ goes_on ↦ run turns | breaks ↦ pure breaks ]

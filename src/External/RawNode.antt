-- ===== src/External/RawNode.antt =====
-- The calls that the raft machine makes of `RawNode` of the `raft` crate. A call may read and write
-- the storage that the node was made with, whose type is the parameter, so it is an action on it.
use robustmq_geek.Prelude.{ℕ, Bool, Option, List, [], Bytes, Result, Action}
use robustmq_geek.Common.Errors.{Fault}
use robustmq_geek.External.Raft.{HardState, ConfState, Entry, Snapshot}

pub data StateRole : Type 0 where
  follower candidate leader pre_candidate : StateRole

pub data ConfChangeType : Type 0 where
  add_node remove_node add_learner_node : ConfChangeType

pub record ConfChange : Type 0 where
  pub change_type : ConfChangeType
  pub node_id : ℕ
  pub context : Bytes

-- The fields of `raft::Config` that the program sets; the others are the default ones.
pub record Config : Type 0 where
  pub id : ℕ
  pub election_tick : ℕ
  pub heartbeat_tick : ℕ
  pub max_size_per_msg : ℕ
  pub max_inflight_msgs : ℕ
  pub applied : ℕ

pub record Ready (Message : Type 0) : Type 0 where
  pub messages : List Message
  pub snapshot : Snapshot
  pub entries : List Entry
  pub committed_entries : List Entry
  pub hs : Option HardState
  pub persisted_messages : List Message

pub record LightReady (Message : Type 0) : Type 0 where
  pub commit_index : Option ℕ
  pub messages : List Message
  pub committed_entries : List Entry

-- A ready whose messages and committed entries have been taken.
abbrev pub emptied : {Message : Type 0} → Ready Message → Ready Message
emptied ready = record ready { messages = []; committed_entries = []; persisted_messages = [] }

pub record RawNode (Store : Type 0) : Type 1 where
  pub Node : Type 0
  pub Message : Type 0
  pub get_to : Message → ℕ
  pub role : Node → StateRole
  pub new : Config → Action Store (Result Fault Node)
  pub propose : Bytes → Bytes → Node → Action Store (Result Fault (Unit {0}) × Node)
  pub propose_conf_change :
      Bytes → ConfChange → Node → Action Store (Result Fault (Unit {0}) × Node)
  pub step : Message → Node → Action Store (Result Fault (Unit {0}) × Node)
  pub transfer_leader : ℕ → Node → Action Store (Unit {0} × Node)
  pub tick : Node → Action Store (Bool × Node)
  pub has_ready : Node → Action Store (Bool × Node)
  pub ready : Node → Action Store (Ready Message × Node)
  pub advance : Ready Message → Node → Action Store (LightReady Message × Node)
  pub advance_apply : Node → Action Store (Unit {0} × Node)
  pub apply_conf_change : ConfChange → Node → Action Store (Result Fault ConfState × Node)

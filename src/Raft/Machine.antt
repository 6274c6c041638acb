-- ===== src/Raft/Machine.antt =====
-- placement-center/src/raft/machine.rs: `RaftMachine`, with `RaftMessage` of raft/apply.rs and
-- `PeerMessage` of raft/peer.rs. The node of the `raft` crate reads and writes the log through the
-- `RaftMachineStorage` that the machine shares with it by an `Arc`, and the data route writes the
-- database of that storage, so the state has one of each.
pub mod Committed
pub mod Persist
pub mod Loop
pub mod Waiting
pub mod Accounts
pub mod Entries
use robustmq_geek.Prelude.{
  ℕ, ◌%◌, Bool, true, false, not, Option, none, some, List, [], ◌∷◌, ◌++◌, ◌&&◌,
}
use robustmq_geek.Prelude.{Bytes, Text, Result, ok, err, if◌then◌else◌, ◌==◌, add_one}
use robustmq_geek.Prelude.{
  Run, done, panicked, Action, ◌>>=◌, ◌>>◌, pure, panic, gets, modify, unwrap,
}
use robustmq_geek.Prelude.Dict
use robustmq_geek.Prelude.Dict.{Dict}
use robustmq_geek.External.Rocksdb.{Rocksdb}
use robustmq_geek.External.Formats.{Proto, Bincode}
use robustmq_geek.External.Raft.{
  Entry, Snapshot, entry_normal, entry_conf_change, entry_conf_change_v2,
}
use robustmq_geek.External.RawNode.{
  ConfChange, ConfChangeType, add_node, remove_node, add_learner_node, RawNode, Ready, LightReady,
  emptied,
}
use robustmq_geek.Storage.Kv.{KvFormats}
use robustmq_geek.Storage.Raft.{RaftFormats, Storage, RaftMachineStorage}
use robustmq_geek.Raft.RocksdbStorage as Store
use robustmq_geek.Raft.Proposal.{RaftResponseMesage, success, Waited, answered, dropped}
use robustmq_geek.Raft.Route.{RouteFormats, route}
use robustmq_geek.Raft.Node.{BrokerNode}
use robustmq_geek.Raft.Metadata.{RaftGroupMetadata, get_node_by_id, add_peer, remove_peer}

-- A one-shot sender, by a number of its own.
abbrev pub Chan : Type 0
Chan = ℕ

pub data RaftMessage (Message : Type 0) : Type 0 where
  conf_change : ConfChange → Chan → RaftMessage Message
  raft : Message → Chan → RaftMessage Message
  transfer_leader : ℕ → Chan → RaftMessage Message
  propose : Bytes → Chan → RaftMessage Message

pub record PeerMessage : Type 0 where
  pub to : Text
  pub bytes : Bytes

pub record MachineFormats (Message : Type 0) : Type 0 where
  pub bincode_seq : Bincode ℕ
  pub bincode_node : Bincode BrokerNode
  pub proto_message : Proto Message
  pub proto_conf_change : Proto ConfChange

-- `settled` lists how each one-shot sender that is gone ended, latest first: it was sent an answer,
-- or it went out of scope. `spawned` lists the messages handed to tasks that send them, latest
-- first.
pub record RaftMachine (Db Node : Type 0) : Type 0 where
  pub placement_cluster : RaftGroupMetadata
  pub seqnum : ℕ
  pub resp_channel : Dict Chan
  pub entry_num : ℕ
  pub raft_storage : RaftMachineStorage Db
  pub raft_node : Node
  pub settled : List (Chan × Waited)
  pub spawned : List PeerMessage

module _ ⦃R : Rocksdb⦄ ⦃N : RawNode Storage⦄ where
  abbrev pub Machine : Type 0
  Machine = RaftMachine R.Db N.Node

  abbrev pub with_storage : {A : Type 0} → Machine → Run Storage A → Run Machine A
  with_storage s (done a storage) = done a (record s { raft_storage = storage })
  with_storage s (panicked storage) = panicked (record s { raft_storage = storage })

  -- `raft_node.mut_store()`
  abbrev pub in_store : {A : Type 0} → Action Storage A → Action Machine A
  in_store m s = with_storage s (m s.raft_storage)

  abbrev pub with_db : {A : Type 0} → Storage → Run R.Db A → Run Storage A
  with_db s (done a db) = done a (record s { db = db })
  with_db s (panicked db) = panicked (record s { db = db })

  abbrev pub in_db : {A : Type 0} → Action R.Db A → Action Machine A
  in_db m = in_store (λ s. with_db s (m s.db))

  abbrev pub with_node : {A : Type 0} → Machine → Run Storage (A × N.Node) → Run Machine A
  with_node s (done (a, node) storage) =
      done a (record s { raft_storage = storage; raft_node = node })
  with_node s (panicked storage) = panicked (record s { raft_storage = storage })

  -- A call of the node.
  abbrev pub in_node : {A : Type 0} → (N.Node → Action Storage (A × N.Node)) → Action Machine A
  in_node m s = with_node s (m s.raft_node s.raft_storage)

  -- `chan.send(…)`, of which a closed receiver is only logged, and the end of a sender's scope.
  abbrev pub settle : Chan → Waited → Action Machine (Unit {0})
  settle chan end = modify (λ s. record s { settled = (chan, end) ∷ s.settled })

  abbrev pub on_cluster : (RaftGroupMetadata → RaftGroupMetadata) → Action Machine (Unit {0})
  on_cluster f = modify (λ s. record s { placement_cluster = f s.placement_cluster })

  unfoldable pub send_peer_message : ℕ → Bytes → Action Machine (Unit {0})
  send_peer_message id msg = do
    found ← gets (λ s. get_node_by_id id s.placement_cluster)
    elim found [
      | some node ↦ modify (λ s. record s {
        spawned = record { to = node.node_inner_addr; bytes = msg } ∷ s.spawned;
      })
      | none ↦ pure tt
    ]

-- ===== src/Raft/Apply.antt =====
-- placement-center/src/raft/apply.rs: the methods of `RaftMachineApply` that send a message to the
-- raft machine and wait for its answer.
use robustmq_geek.Prelude.{ℕ, Text, codes, Result, Action, ◌>>=◌, pure, unwrap}
use robustmq_geek.Common.Errors.{RobustMqError}
use robustmq_geek.External.Formats.{Bincode}
use robustmq_geek.External.RawNode.{ConfChange}
use robustmq_geek.Raft.Proposal.{StorageData, Waited, apply_raft_status_machine_message}
use robustmq_geek.Raft.Machine.{Chan, RaftMessage, conf_change, raft, transfer_leader, propose}

-- The channel to the machine's task, and the task behind it: a message is made with the sender of a
-- new one-shot channel and sent, and the wait for the answer ends in one of the ways of `Waited`.
pub record RaftTask : Type 1 where
  pub Message : Type 0
  pub World : Type 0
  pub exchange : (Chan → RaftMessage Message) → Action World Waited

module _ ⦃T : RaftTask⦄ where
  unfoldable pub send_and_wait :
      (Chan → RaftMessage T.Message) → Text → Action T.World (Result RobustMqError (Unit {0}))
  send_and_wait message action = do
    rx ← T.exchange message
    pure (apply_raft_status_machine_message action rx)

  abbrev pub apply_transfer_leader : ℕ → Action T.World (Result RobustMqError (Unit {0}))
  apply_transfer_leader node_id = send_and_wait (transfer_leader node_id) (codes "transfer_leader")

  unfoldable pub apply_propose_message :
      Bincode StorageData → StorageData → Text → Action T.World (Result RobustMqError (Unit {0}))
  unfolding send_and_wait
  apply_propose_message bincode storage_data action = do
    bytes ← unwrap (bincode.serialize storage_data)
    send_and_wait (propose bytes) action

  abbrev pub apply_raft_message :
      T.Message → Text → Action T.World (Result RobustMqError (Unit {0}))
  apply_raft_message message action = send_and_wait (raft message) action

  abbrev pub apply_conf_raft_message :
      ConfChange → Text → Action T.World (Result RobustMqError (Unit {0}))
  apply_conf_raft_message change action = send_and_wait (conf_change change) action

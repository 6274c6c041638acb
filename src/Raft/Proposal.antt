-- ===== src/Raft/Proposal.antt =====
-- placement-center/src/raft/apply.rs: the data of a proposal, and how the caller waits for it.
use robustmq_geek.Prelude.{
  ◌≡◌, ◌≢◌, ◌↔◌, refl, Bool, true, false, not, Bytes, Text, Result, ok, err, if◌then◌else◌,
}
use robustmq_geek.Common.Errors.{RobustMqError, raft_log_commit_timeout}

pub data RaftResponseMesage : Type 0 where
  success fail : RaftResponseMesage

pub data StorageDataType : Type 0 where
  kv_set kv_delete : StorageDataType

pub record StorageData : Type 0 where
  pub data_type : StorageDataType
  pub value : Bytes

-- `StorageData::new`
abbrev pub new_storage_data : StorageDataType → Bytes → StorageData
new_storage_data data_type value = record { data_type = data_type; value = value }

-- How the 30 seconds end that the caller waits on its one-shot channel: with an answer, with the
-- sender dropped, or with neither.
pub data Waited : Type 0 where
  answered : RaftResponseMesage → Waited
  dropped : Waited
  elapsed : Waited

-- The inner `async` block turns a dropped sender into `Fail`; the outer `match` looks only at
-- whether the time is up.
abbrev received : Waited → Result (Unit {0}) RaftResponseMesage
received (answered val) = ok val
received dropped = ok fail
received elapsed = err tt

unfoldable pub wait_recv_chan_resp : Waited → Bool
wait_recv_chan_resp rx = elim (received rx) [ ok _ ↦ true | err _ ↦ false ]

unfoldable pub apply_raft_status_machine_message : Text → Waited → Result RobustMqError (Unit {0})
unfolding wait_recv_chan_resp
apply_raft_status_machine_message action rx =
    if not (wait_recv_chan_resp rx) then err (raft_log_commit_timeout action) else ok tt

-- A proposal reports success for every end of the wait but the time limit: also when the state
-- machine answers that it failed, and when it drops the channel because `propose` was refused.
pub apply_message-ok_iff_in_time :
    (action : Text) (rx : Waited)
    → (apply_raft_status_machine_message action rx ≡ ok tt) ↔ (rx ≢ elapsed)
unfolding apply_raft_status_machine_message
apply_message-ok_iff_in_time action (answered val) = (λ _ e. cc, λ _. refl)
apply_message-ok_iff_in_time action dropped = (λ _ e. cc, λ _. refl)
apply_message-ok_iff_in_time action elapsed = (λ p. cc, λ n. absurd (n refl))

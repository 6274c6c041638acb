-- ===== src/Clients/Placement.antt =====
-- src/clients/src/placement: the calls of kv/call.rs and openraft/call.rs.
use mathlib.Core.Option
use robustmq_geek.Prelude.{Option, List, Bytes, Text, Result, ok, err, Action, ◌>>=◌, pure}
use robustmq_geek.Common.Errors.{RobustMqError, commmon_error}
use robustmq_geek.External.Formats.{Proto}
use robustmq_geek.Protocol.Kv.{
  SetRequest, GetRequest, DeleteRequest, ExistsRequest, GetReply, ExistsReply, CommonReply,
}
use robustmq_geek.Protocol.OpenRaft.{
  VoteRequest, VoteReply, AppendRequest, AppendReply, SnapshotRequest, SnapshotReply,
}
use robustmq_geek.Clients.Pool.{Network, Pools}
use robustmq_geek.Clients.Calls.{
  ClientFormats, PlacementCenterService, kv, open_raft, PlacementCenterInterface, set, get, delete,
  exists, vote, append, snapshot,
}
use robustmq_geek.Clients.Retry.{retry_call}

module _ ⦃N : Network⦄ ⦃F : ClientFormats⦄ where
  abbrev pub decoded :
      {Reply : Type 0} → Proto Reply → Result RobustMqError Bytes → Result RobustMqError Reply
  decoded replies (ok bytes) = elim (replies.decode bytes) [
    | ok reply ↦ ok reply
    | err e ↦ err (commmon_error e.display)
  ]
  decoded replies (err e) = err e

  -- What the calls have in common: the request is encoded, and the reply decoded.
  unfoldable pub placement_call :
      {Req Reply : Type 0}
      → PlacementCenterService
      → PlacementCenterInterface
      → Proto Req
      → Proto Reply
      → List Text
      → Req
      → Action Pools (Option (Result RobustMqError Reply))
  placement_call service interface requests replies addrs request = do
    result ← retry_call service interface addrs (requests.encode_to_vec request)
    pure (Option.map (decoded replies) result)

  abbrev pub placement_set :
      List Text → SetRequest → Action Pools (Option (Result RobustMqError CommonReply))
  placement_set = placement_call kv set F.set_request F.common_reply

  abbrev pub placement_get :
      List Text → GetRequest → Action Pools (Option (Result RobustMqError GetReply))
  placement_get = placement_call kv get F.get_request F.get_reply

  abbrev pub placement_delete :
      List Text → DeleteRequest → Action Pools (Option (Result RobustMqError CommonReply))
  placement_delete = placement_call kv delete F.delete_request F.common_reply

  abbrev pub placement_exists :
      List Text → ExistsRequest → Action Pools (Option (Result RobustMqError ExistsReply))
  placement_exists = placement_call kv exists F.exists_request F.exists_reply

  abbrev pub placement_openraft_vote :
      List Text → VoteRequest → Action Pools (Option (Result RobustMqError VoteReply))
  placement_openraft_vote = placement_call open_raft vote F.vote_request F.vote_reply

  abbrev pub placement_openraft_append :
      List Text → AppendRequest → Action Pools (Option (Result RobustMqError AppendReply))
  placement_openraft_append = placement_call open_raft append F.append_request F.append_reply

  abbrev pub placement_openraft_snapshot :
      List Text → SnapshotRequest → Action Pools (Option (Result RobustMqError SnapshotReply))
  placement_openraft_snapshot =
      placement_call open_raft snapshot F.snapshot_request F.snapshot_reply

-- ===== src/Clients/Calls.antt =====
-- src/clients/src/placement: `kv_interface_call` and `openraft_interface_call` (kv/mod.rs,
-- openraft/mod.rs) with the calls of kv/inner.rs and openraft/inner.rs.
use robustmq_geek.Prelude.{◌++◌, Bytes, Text, codes, Result, ok, err, Action, ◌>>=◌, pure}
use robustmq_geek.Common.Errors.{Status, RobustMqError, commmon_error, grpc_server_status}
use robustmq_geek.External.Formats.{Proto}
use robustmq_geek.Protocol.Kv.{
  SetRequest, GetRequest, DeleteRequest, ExistsRequest, GetReply, ExistsReply, CommonReply,
}
use robustmq_geek.Protocol.OpenRaft.{
  VoteRequest, VoteReply, AppendRequest, AppendReply, SnapshotRequest, SnapshotReply,
}
use robustmq_geek.Clients.Pool.{
  Network, Pools, on_network, placement_center_kv_services_client,
  placement_center_openraft_services_client,
}

pub data PlacementCenterService : Type 0 where
  kv open_raft : PlacementCenterService

pub data PlacementCenterInterface : Type 0 where
  set get delete exists vote append snapshot : PlacementCenterInterface

-- `{:?}`
abbrev pub debug_interface : PlacementCenterInterface → Text
debug_interface set = codes "Set"
debug_interface get = codes "Get"
debug_interface delete = codes "Delete"
debug_interface exists = codes "Exists"
debug_interface vote = codes "Vote"
debug_interface append = codes "Append"
debug_interface snapshot = codes "Snapshot"

abbrev unsupported : PlacementCenterInterface → RobustMqError
unsupported interface = commmon_error (
    codes "kv service does not support service interfaces ["
    ++ (debug_interface interface ++ codes "]"))

abbrev no_openraft : PlacementCenterInterface → RobustMqError
no_openraft interface = commmon_error (
    codes "openraft service does not support service interfaces ["
    ++ (debug_interface interface ++ codes "]"))

pub record ClientFormats : Type 0 where
  pub set_request : Proto SetRequest
  pub get_request : Proto GetRequest
  pub delete_request : Proto DeleteRequest
  pub exists_request : Proto ExistsRequest
  pub common_reply : Proto CommonReply
  pub get_reply : Proto GetReply
  pub exists_reply : Proto ExistsReply
  pub vote_request : Proto VoteRequest
  pub vote_reply : Proto VoteReply
  pub append_request : Proto AppendRequest
  pub append_reply : Proto AppendReply
  pub snapshot_request : Proto SnapshotRequest
  pub snapshot_reply : Proto SnapshotReply

module _ ⦃N : Network⦄ where
  -- What the calls have in common: the request is decoded, sent over the connection, and the reply
  -- encoded.
  unfoldable pub inner :
      {Req Reply : Type 0}
      → Proto Req
      → Proto Reply
      → (Req → Action N.World (Result Status Reply))
      → Bytes
      → Action Pools (Result RobustMqError Bytes)
  inner requests replies call request = elim (requests.decode request) [
    | ok req ↦ do
      result ← on_network (call req)
      pure (elim result [
        | ok reply ↦ ok (replies.encode_to_vec reply)
        | err e ↦ err (grpc_server_status e)
      ])
    | err e ↦ pure (err (commmon_error e.display))
  ]

  module _ ⦃F : ClientFormats⦄ where
    abbrev pub inner_get : Text → Bytes → Action Pools (Result RobustMqError Bytes)
    inner_get client = inner F.get_request F.get_reply (N.get client)

    abbrev pub inner_set : Text → Bytes → Action Pools (Result RobustMqError Bytes)
    inner_set client = inner F.set_request F.common_reply (N.set client)

    abbrev pub inner_delete : Text → Bytes → Action Pools (Result RobustMqError Bytes)
    inner_delete client = inner F.delete_request F.common_reply (N.delete client)

    abbrev pub inner_exists : Text → Bytes → Action Pools (Result RobustMqError Bytes)
    inner_exists client = inner F.exists_request F.exists_reply (N.exists client)

    abbrev pub inner_vote : Text → Bytes → Action Pools (Result RobustMqError Bytes)
    inner_vote client = inner F.vote_request F.vote_reply (N.vote client)

    abbrev pub inner_append : Text → Bytes → Action Pools (Result RobustMqError Bytes)
    inner_append client = inner F.append_request F.append_reply (N.append client)

    abbrev pub inner_snapshot : Text → Bytes → Action Pools (Result RobustMqError Bytes)
    inner_snapshot client = inner F.snapshot_request F.snapshot_reply (N.snapshot client)

    unfoldable pub kv_call :
        PlacementCenterInterface → Text → Bytes → Action Pools (Result RobustMqError Bytes)
    unfolding inner
    kv_call set client request = inner_set client request
    kv_call delete client request = inner_delete client request
    kv_call get client request = inner_get client request
    kv_call exists client request = inner_exists client request
    kv_call vote client request = pure (err (unsupported vote))
    kv_call append client request = pure (err (unsupported append))
    kv_call snapshot client request = pure (err (unsupported snapshot))

    unfoldable pub openraft_call :
        PlacementCenterInterface → Text → Bytes → Action Pools (Result RobustMqError Bytes)
    unfolding inner
    openraft_call vote client request = inner_vote client request
    openraft_call append client request = inner_append client request
    openraft_call snapshot client request = inner_snapshot client request
    openraft_call set client request = pure (err (no_openraft set))
    openraft_call get client request = pure (err (no_openraft get))
    openraft_call delete client request = pure (err (no_openraft delete))
    openraft_call exists client request = pure (err (no_openraft exists))

    unfoldable pub kv_interface_call :
        PlacementCenterInterface → Text → Bytes → Action Pools (Result RobustMqError Bytes)
    unfolding kv_call
    kv_interface_call interface addr request = do
      connected ← placement_center_kv_services_client addr
      elim connected [ ok client ↦ kv_call interface client request | err e ↦ pure (err e) ]

    unfoldable pub openraft_interface_call :
        PlacementCenterInterface → Text → Bytes → Action Pools (Result RobustMqError Bytes)
    unfolding openraft_call
    openraft_interface_call interface addr request = do
      connected ← placement_center_openraft_services_client addr
      elim connected [ ok client ↦ openraft_call interface client request | err e ↦ pure (err e) ]

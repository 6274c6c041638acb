-- ===== src/Server/Kv.antt =====
-- placement-center/src/server/grpc/services_kv.rs: `GrpcKvServices`.
pub mod Replies
use mathlib.Core.Option
use robustmq_geek.Prelude.{
  Bool, true, false, not, Option, none, some, [], ◌∷◌, ◌||◌, Bytes, Text, codes, Result, ok, err,
  if◌then◌else◌, is_empty, Action, ◌>>=◌, pure, gets, within,
}
use robustmq_geek.Common.Errors.{
  Status, cancelled, RobustMqError, parameter_cannot_be_null, display,
}
use robustmq_geek.External.Rocksdb.{Rocksdb}
use robustmq_geek.External.Formats.{Bincode}
use robustmq_geek.Protocol.Kv.{
  SetRequest, GetRequest, DeleteRequest, ExistsRequest, GetReply, ExistsReply, CommonReply,
  common_reply,
}
use robustmq_geek.Storage.Kv.{KvFormats}
use robustmq_geek.Storage.Kv as KvStorage
use robustmq_geek.Raft.Proposal.{StorageData, StorageDataType, kv_set, kv_delete, new_storage_data}
use robustmq_geek.Raft.Metadata.{RaftGroupMetadata}
use robustmq_geek.Raft.Metadata as Metadata
use robustmq_geek.Raft.Apply.{RaftTask, apply_propose_message}
use robustmq_geek.Clients.Pool.{Network, ClientPool, Pools}
use robustmq_geek.Clients.Calls.{ClientFormats}
use robustmq_geek.Clients.Placement.{placement_set, placement_delete}

-- The parts of the node behind the `Arc`s of the service.
pub record GrpcKvServices (World Task Db : Type 0) : Type 0 where
  pub client_poll : ClientPool World
  pub placement_center_storage : Task
  pub rocksdb_engine_handler : Db
  pub placement_cluster : RaftGroupMetadata

pub record ServiceFormats : Type 0 where
  pub bincode_storage_data : Bincode StorageData
  pub show_status : Status → Text

module _ ⦃S : ServiceFormats⦄ where
  -- `Status::cancelled(e.to_string())`
  abbrev pub refuse : {A : Type 0} → RobustMqError → Result Status A
  refuse e = err (cancelled (display S.show_status e))

  abbrev pub or_status : {A : Type 0} → Result RobustMqError A → Result Status A
  or_status (ok a) = ok a
  or_status (err e) = refuse e

  abbrev pub applied : Result RobustMqError (Unit {0}) → Result Status CommonReply
  applied (ok _) = ok common_reply
  applied (err e) = refuse e

  abbrev pub get_reply : Result RobustMqError (Option Text) → Result Status GetReply
  get_reply (ok (some found)) = ok (record { value = found })
  get_reply (ok none) = ok (record { value = [] })
  get_reply (err e) = refuse e

  abbrev pub exists_reply : Result RobustMqError Bool → Result Status ExistsReply
  exists_reply (ok flag) = ok (record { flag = flag })
  exists_reply (err e) = refuse e

module _ ⦃R : Rocksdb⦄ ⦃N : Network⦄ ⦃T : RaftTask⦄ ⦃K : KvFormats⦄ ⦃F : ClientFormats⦄
    ⦃S : ServiceFormats⦄ where
  abbrev pub Services : Type 0
  Services = GrpcKvServices N.World T.World R.Db

  abbrev pub with_pools : {A : Type 0} → Action Pools A → Action Services A
  with_pools = within (λ s. s.client_poll) (λ pools s. record s { client_poll = pools })

  abbrev pub with_task : {A : Type 0} → Action T.World A → Action Services A
  with_task =
      within (λ s. s.placement_center_storage) (λ w s. record s { placement_center_storage = w })

  unfoldable pub is_leader : Action Services Bool
  is_leader = gets (λ s. Metadata.is_leader s.placement_cluster)

  unfoldable pub leader_addr : Action Services Text
  leader_addr = gets (λ s. Metadata.leader_addr s.placement_cluster)

  -- The replies are `none` if a forwarded call runs out of the rounds of its loop, which does not
  -- happen.
  unfoldable pub set : SetRequest → Action Services (Option (Result Status CommonReply))
  set req =
      if is_empty req.key || is_empty req.value
      then pure (some (refuse (parameter_cannot_be_null (codes "key or value"))))
      else do
        leads ← is_leader
        if not leads
            then (do
              addr ← leader_addr
              reply ← with_pools (placement_set (addr ∷ []) req)
              pure (Option.map or_status reply))
            else do
              result ← with_task (
                  apply_propose_message S.bincode_storage_data
                    (new_storage_data kv_set (F.set_request.encode_to_vec req)) (codes "set"))
              pure (some (applied result))

  unfoldable pub delete : DeleteRequest → Action Services (Option (Result Status CommonReply))
  delete req =
      if is_empty req.key then pure (some (refuse (parameter_cannot_be_null (codes "key")))) else do
        leads ← is_leader
        if not leads
            then (do
              addr ← leader_addr
              reply ← with_pools (placement_delete (addr ∷ []) req)
              pure (Option.map or_status reply))
            else do
              result ← with_task (
                  apply_propose_message S.bincode_storage_data
                    (new_storage_data kv_delete (F.delete_request.encode_to_vec req))
                    (codes "delete"))
              pure (some (applied result))

  unfoldable pub get : GetRequest → Action Services (Result Status GetReply)
  get req = if is_empty req.key then pure (refuse (parameter_cannot_be_null (codes "key"))) else do
    found ← gets (λ s. KvStorage.get req.key s.rocksdb_engine_handler)
    pure (get_reply found)

  unfoldable pub exists : ExistsRequest → Action Services (Result Status ExistsReply)
  exists req =
      if is_empty req.key then pure (refuse (parameter_cannot_be_null (codes "key"))) else do
        found ← gets (λ s. KvStorage.exists req.key s.rocksdb_engine_handler)
        pure (exists_reply found)

-- ===== src/Clients/Pool.antt =====
-- src/clients/src/poll.rs: `ClientPool`, and `kv_client` and `openraft_client` of placement/kv/mod.rs
-- and placement/openraft/mod.rs. A pool of `mobc` is known by the address of its manager.
use robustmq_geek.Prelude.{
  Option, none, some, List, ◌∷◌, ◌++◌, Text, codes, Result, ok, err, Action, Run, done, panicked,
  ◌>>=◌, ◌>>◌, pure, gets, modify,
}
use robustmq_geek.Common.Errors.{Status, RobustMqError, no_available_grpc_connection}
use robustmq_geek.External.Rocksdb.{find_item}
use robustmq_geek.Protocol.Kv.{
  SetRequest, GetRequest, DeleteRequest, ExistsRequest, GetReply, ExistsReply, CommonReply,
}
use robustmq_geek.Protocol.OpenRaft.{
  VoteRequest, VoteReply, AppendRequest, AppendReply, SnapshotRequest, SnapshotReply,
}

-- The pools of connections and the calls of the services, which `mobc` and `tonic` make: a
-- connection to an address or the text of an error, and a reply or a status.
pub record Network : Type 1 where
  pub World : Type 0
  pub kv_connection : Text → Action World (Result Text (Unit {0}))
  pub openraft_connection : Text → Action World (Result Text (Unit {0}))
  pub set : Text → SetRequest → Action World (Result Status CommonReply)
  pub get : Text → GetRequest → Action World (Result Status GetReply)
  pub delete : Text → DeleteRequest → Action World (Result Status CommonReply)
  pub exists : Text → ExistsRequest → Action World (Result Status ExistsReply)
  pub vote : Text → VoteRequest → Action World (Result Status VoteReply)
  pub append : Text → AppendRequest → Action World (Result Status AppendReply)
  pub snapshot : Text → SnapshotRequest → Action World (Result Status SnapshotReply)

pub record ClientPool (World : Type 0) : Type 0 where
  pub kv_service_pools : List (Text × Text)
  pub openraft_service_pools : List (Text × Text)
  pub network : World

abbrev pub pool_key : Text → Text → Text
pool_key service addr = codes "PlacementCenter_" ++ (service ++ (codes "_" ++ addr))

-- A pool is added under a key that has none.
unfoldable pub ensure_pool : Text → Text → List (Text × Text) → List (Text × Text)
ensure_pool key addr pools = elim (find_item key pools) [
  | some _ ↦ pools
  | none ↦ (key, addr) ∷ pools
]

module _ ⦃N : Network⦄ where
  abbrev pub Pools : Type 0
  Pools = ClientPool N.World

  abbrev pub with_network : {A : Type 0} → Pools → Run N.World A → Run Pools A
  with_network s (done a w) = done a (record s { network = w })
  with_network s (panicked w) = panicked (record s { network = w })

  abbrev pub on_network : {A : Type 0} → Action N.World A → Action Pools A
  on_network m s = with_network s (m s.network)

  -- A connection from the pool that was found, known by its address.
  unfoldable pub connection :
      Text
      → (Text → Action N.World (Result Text (Unit {0})))
      → Option Text
      → Action Pools (Result RobustMqError Text)
  connection service connect (some addr) = do
    got ← on_network (connect addr)
    pure (elim got [ ok _ ↦ ok addr | err e ↦ err (no_available_grpc_connection service e) ])
  connection service connect none =
      pure (err (no_available_grpc_connection service (codes "connection pool is not initialized")))

  unfoldable pub placement_center_kv_services_client :
      Text → Action Pools (Result RobustMqError Text)
  unfolding ensure_pool connection
  placement_center_kv_services_client addr = do
    let key = pool_key (codes "KvServices") addr
    modify (λ s. record s { kv_service_pools = ensure_pool key addr s.kv_service_pools })
    pool ← gets (λ s. find_item key s.kv_service_pools)
    connection (codes "KvServices") N.kv_connection pool

  unfoldable pub placement_center_openraft_services_client :
      Text → Action Pools (Result RobustMqError Text)
  unfolding ensure_pool connection
  placement_center_openraft_services_client addr = do
    let key = pool_key (codes "OpenRaftServices") addr
    modify
        (λ s. record s { openraft_service_pools = ensure_pool key addr s.openraft_service_pools })
    pool ← gets (λ s. find_item key s.openraft_service_pools)
    connection (codes "OpenRaftServices") N.openraft_connection pool

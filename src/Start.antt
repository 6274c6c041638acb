-- ===== src/Start.antt =====
-- placement-center/src/lib.rs: `start_server`, with `create_raft_node` of openraft/raft_node.rs,
-- `new_storage` of openraft/store/mod.rs, and what server/grpc/server.rs and server/http/server.rs
-- hand to the services. The tasks are spawned with the parts that `Started` has; the one that would
-- run the raft machine is a comment in the source, so nobody reads its channel.
pub mod Idle
pub mod Writes
use robustmq_geek.Prelude.{
  ℕ, true, Bool, List, [], ◌∷◌, ◌++◌, Text, codes, decimal, Result, ok, Action, ◌>>=◌, ◌>>◌, pure,
  gets, done, within, unwrap, unwrap_some, panicked, Run, err,
}
use robustmq_geek.Common.Errors.{Fault}
use robustmq_geek.Common.Tools.{Files}
use robustmq_geek.Common.Config.{PlacementCenterConfig, Process, placement_center_conf}
use robustmq_geek.External.Rocksdb.{Rocksdb}
use robustmq_geek.External.Opening.{
  Options, Opening, create_if_missing, create_missing_column_families,
}
use robustmq_geek.External.Toml.{Toml}
use robustmq_geek.External.OpenRaft.{StorageError, Wal}
use robustmq_geek.Storage.Raft.{RaftMachineStorage, RaftFormats}
use robustmq_geek.Storage.Raft.Snapshots.{load, fresh}
use robustmq_geek.Storage.Rocksdb.Open as RocksdbEngine
use robustmq_geek.Raft.Metadata.{RaftGroupMetadata}
use robustmq_geek.Raft.Metadata.Start as Metadata
use robustmq_geek.Raft.Apply.{RaftTask}
use robustmq_geek.Clients.Pool.{Network, ClientPool, Pools}
use robustmq_geek.OpenRaft.Types.{StateMachineStore, SnapshotFormats, Shared}
use robustmq_geek.OpenRaft.StateMachine as StateMachine
use robustmq_geek.OpenRaft.LogStore as LogStore
use robustmq_geek.Server.Kv.{GrpcKvServices}
use robustmq_geek.Server.Http.{HttpServerState}

-- `Config::validate` with the two intervals that are set, and `Raft::new`, whose network is over the
-- pool of clients and whose log store is over the database of the state machine.
pub record RaftCrate (Db : Type 0) : Type 1 where
  pub Config : Type 0
  pub Node : Type 0
  pub validate : ℕ → ℕ → Result Fault Config
  pub new : ℕ → Config → StateMachineStore → Shared Db → Result Fault Node

-- What the process reads and writes.
pub record Outside (Value World Disk : Type 0) : Type 0 where
  pub process : Process Value World
  pub disk : Disk

-- The parts of a started server. The storage of the raft machine and the key-value service have one
-- database.
pub record Started (Net Task Db Node : Type 0) : Type 0 where
  pub kv_services : GrpcKvServices Net Task Db
  pub raft_machine_storage : RaftMachineStorage Db
  pub http_state : HttpServerState Node
  pub grpc_addr : Text
  pub http_addr : Text

abbrev pub new_pool : {World : Type 0} → World → ClientPool World
new_pool network = record { kv_service_pools = []; openraft_service_pools = []; network = network }

abbrev pub any_address : ℕ → Text
any_address port = codes "0.0.0.0:" ++ decimal port

abbrev pub raft_options : Options
raft_options = create_missing_column_families true ∷ create_if_missing true ∷ []

-- A call, and `.unwrap()` of one, on parts that the disk does not hold.
abbrev unwrap_made : {D S A E : Type 0} → Run S (Result E A) → Action D (A × S)
unwrap_made (done (ok a) s) d = done (a, s) d
unwrap_made (done (err e) s) d = panicked d
unwrap_made (panicked s) d = panicked d

abbrev pub run_made : {D S A : Type 0} → Run S A → Action D (A × S)
run_made (done a s) d = done (a, s) d
run_made (panicked s) d = panicked d

module _ ⦃R : Rocksdb⦄ ⦃O : Opening R⦄ ⦃F : SnapshotFormats⦄ ⦃W : Wal R⦄ where
  -- Both stores are over the one database of the result.
  unfoldable pub new_storage : Text → Action O.Disk (StateMachineStore × Shared R.Db)
  new_storage db_path = do
    opened ← O.open_cf raft_options db_path (LogStore.store ∷ LogStore.logs ∷ [])
    db ← unwrap opened
    unwrap_made (StateMachine.new (StateMachine.fresh db))

  module _ ⦃C : RaftCrate R.Db⦄ {Value : Type 0} where
    -- The node, and the parts that it shares with the server.
    unfoldable pub create_raft_node :
        PlacementCenterConfig Value → Action O.Disk (C.Node × Shared R.Db)
    unfolding new_storage
    create_raft_node conf = do
      config ← unwrap (C.validate 250 299)
      stores ← new_storage (conf.data_path ++ codes "/_engine_storage")
      let (state_machine_store, shared) = stores
      node ← unwrap (C.new conf.node_id config state_machine_store shared)
      pure (node, shared)

  module _ ⦃C : RaftCrate R.Db⦄ ⦃D : Files⦄ ⦃T : Toml⦄ ⦃N : Network⦄ ⦃K : RaftTask⦄
      ⦃G : RaftFormats⦄ where
    abbrev pub State : Type 0
    State = Outside T.Value D.World O.Disk

    abbrev pub on_disk : {A : Type 0} → Action O.Disk A → Action State A
    on_disk = within (λ s. s.disk) (λ disk s. record s { disk = disk })

    abbrev pub on_process : {A : Type 0} → Action (Process T.Value D.World) A → Action State A
    on_process = within (λ s. s.process) (λ process s. record s { process = process })

    abbrev pub Server : Type 0
    Server = Started N.World K.World R.Db C.Node

    abbrev pub server_of :
        PlacementCenterConfig T.Value
        → K.World
        → N.World
        → RaftGroupMetadata
        → RaftMachineStorage R.Db
        → C.Node × Shared R.Db
        → Server
    server_of config raft_message_send network placement_cache raft_machine_storage
          (openraft_node, shared) =
        record {
          kv_services = record {
            client_poll = new_pool network;
            placement_center_storage = raft_message_send;
            rocksdb_engine_handler = raft_machine_storage.db;
            placement_cluster = placement_cache;
          };
          raft_machine_storage = raft_machine_storage;
          http_state = record { raft_node = openraft_node; kvs = shared.kvs };
          grpc_addr = any_address config.grpc_port;
          http_addr = any_address config.http_port;
        }

    unfoldable pub start_parts :
        PlacementCenterConfig T.Value → K.World → N.World → RaftGroupMetadata → Action State Server
    unfolding create_raft_node load
    start_parts config raft_message_send network placement_cache = do
      rocksdb_engine_handler ← on_disk (RocksdbEngine.new config)
      loaded ← run_made (load (fresh rocksdb_engine_handler))
      created ← on_disk (create_raft_node config)
      pure (server_of config raft_message_send network placement_cache loaded.1 created)

    -- Up to the wait for the signal to stop. The channel to the raft machine and the network come
    -- as they are when nothing has been sent.
    unfoldable pub start_server : K.World → N.World → Action State Server
    unfolding start_parts
    start_server raft_message_send network = do
      config ← on_process placement_center_conf
      placement_cache ← unwrap_some (Metadata.new config)
      start_parts config raft_message_send network placement_cache

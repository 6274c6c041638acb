-- ===== src/Tests/Writes.antt =====
-- A started server that is asked for writes, at concrete inputs.
use robustmq_geek.Prelude.{
  ℕ, ◌≡◌, refl, some, none, List, decimal, eq_bytes, [], ◌∷◌, ◌++◌, Text, codes, ok, false, done,
}
use robustmq_geek.Common.Config.{placement_center_conf, completed}
use robustmq_geek.Storage.Rocksdb.Open as RocksdbEngine
use robustmq_geek.OpenRaft.StateMachine as StateMachine
use robustmq_geek.Storage.Raft as Storage
use robustmq_geek.Storage.Raft.Snapshots as Snapshots
use robustmq_geek.Storage.Rocksdb as Engine
use robustmq_geek.External.Toml.{Toml}
use robustmq_geek.External.OpenRaft.{Wal}
use robustmq_geek.Clients.Calls as Calls
use robustmq_geek.Raft.Node.{default_node}
use robustmq_geek.Raft.Metadata.{RaftGroupMetadata, starting}
use robustmq_geek.Raft.Metadata.Start as Start
use robustmq_geek.Prelude.Dict.{insert}
use robustmq_geek.External.Raft.{default_snapshot_metadata}
use robustmq_geek.External.RawNode.{follower}
use robustmq_geek.Server.Kv as Kv
use robustmq_geek.Server.Kv.Replies.{forwarded}
use robustmq_geek.Start.{RaftCrate, State, Server, start_server}
use robustmq_geek.Start.Idle.{KvRequest, set, get, serve, serve_all}
use robustmq_geek.Start.Writes.{start_server-forwards}
use robustmq_geek.Tests.Formats.{kv_formats, raft_formats, set_request, delete_request}
use robustmq_geek.Tests.OpenRaft.{formats}
use robustmq_geek.Tests.Server.{
  network, client_formats, service_formats, task, pair_request, key_request,
}
use robustmq_geek.Tests.Start.{named, opening, files, after}

instance abbrev toml : Toml
toml = record { Value = Text; as_str = λ v. some v; to_string = λ v. b'"' ∷ v ++ b'"' ∷ [] }

instance abbrev wal : Wal named
wal = record { flush_wal = λ d. ok tt }

instance abbrev crate : RaftCrate named.Db
crate = record {
  Config = ℕ;
  Node = ℕ;
  validate = λ heartbeat election. ok heartbeat;
  new = λ node_id config store shared. ok node_id;
}

abbrev outside : State
outside = record { process = after; disk = 0 }

abbrev cluster : RaftGroupMetadata
cluster = record {
  local = record default_node {
    cluster_type = codes "PlacementCenter";
    cluster_name = codes "c";
    node_inner_addr = codes "h:9982";
    node_ip = codes "h";
    node_id = 1;
  };
  leader = none;
  raft_role = follower;
  state = starting;
  peers =
      (
        1,
        record default_node {
          cluster_type = codes "PlacementCenter";
          cluster_name = codes "c";
          node_inner_addr = b'"' ∷ codes "h:9" ++ b'"' ∷ [];
          node_ip = codes "h";
          node_id = 1;
        },
      )
      ∷ [];
}

abbrev started : Server
started = record {
  kv_services = record {
    client_poll = record { kv_service_pools = []; openraft_service_pools = []; network = 0 };
    placement_center_storage = 0;
    rocksdb_engine_handler = codes "cluster" ∷ codes "default" ∷ [];
    placement_cluster = cluster;
  };
  raft_machine_storage = record {
    uncommit_index = [];
    trigger_snap_unavailable = false;
    snapshot_metadata = default_snapshot_metadata;
    db = codes "cluster" ∷ codes "default" ∷ [];
  };
  http_state = record { raft_node = 1; kvs = [] };
  grpc_addr = codes "0.0.0.0:9982";
  http_addr = codes "0.0.0.0:8";
}

-- The first request is refused, and the second only reads.
abbrev requests : List KvRequest
requests = set (record { key = []; value = [] }) ∷ get (record { key = codes "a" }) ∷ []

start_server_test : start_server 0 0 outside ≡ done started (record outside { disk = 1 })
unfolding start_server placement_center_conf completed Start.new Start.peer_of Start.split_once
    decimal insert eq_bytes RocksdbEngine.new StateMachine.new Snapshots.read_uncommit_index
    Snapshots.create_snapshot_metadata Storage.engine_read Storage.hard_state Storage.conf_state
    Storage.decode_or_default Engine.read
start_server_test = refl

serve_all_test : serve_all requests started.kv_services ≡ done tt started.kv_services
unfolding serve serve_all Kv.set Kv.get eq_bytes
serve_all_test = refl

start_server-forwards_example :
    (started.kv_services.placement_center_storage ≡ 0)
    × (Kv.set pair_request started.kv_services
        ≡ forwarded Calls.set [] (set_request.encode pair_request []) started.kv_services)
    × (Kv.delete key_request started.kv_services
        ≡ forwarded Calls.delete [] (delete_request.encode key_request []) started.kv_services)
start_server-forwards_example =
    start_server-forwards 0 0 outside (record outside { disk = 1 }) started requests
      started.kv_services pair_request key_request start_server_test serve_all_test refl refl

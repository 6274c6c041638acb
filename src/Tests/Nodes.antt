-- ===== src/Tests/Nodes.antt =====
-- Nodes of the openraft cluster, and the theorems on them at concrete inputs.
use robustmq_geek.Prelude.{
  ℕ, ◌+◌, ◌==◌, ◌≡◌, refl, some, [], ◌∷◌, ◌++◌, Text, codes, ok, err, done, within, if◌then◌else◌,
  false,
}
use robustmq_geek.Common.Config.{PlacementCenterConfig}
use robustmq_geek.External.Rocksdb.{find_item}
use robustmq_geek.External.Toml.{Toml}
use robustmq_geek.External.OpenRaft.{RpcTypes, AreRpcTypes}
use robustmq_geek.Protocol.Kv.{common_reply}
use robustmq_geek.Clients.Pool.{Network, ClientPool}
use robustmq_geek.OpenRaft.Nodes.{
  NodeMap, RaftStart, nodes_of, initialize_once, start_openraft_node,
}
use robustmq_geek.OpenRaft.Nodes.Initial.{Among, NoneBelow, start_openraft_node-initial}
use robustmq_geek.OpenRaft.Network.{
  NetworkConnection, StatusText, vote, append_entries, install_snapshot,
}
use robustmq_geek.OpenRaft.Network.Remote.{at_node, vote-at_node}
use robustmq_geek.Server.OpenRaft as Server
use robustmq_geek.Server.OpenRaft.{RaftNode}
use robustmq_geek.Tests.Coders.{number, bincode, bincode-IsBincode, bad_data}

instance abbrev toml : Toml
toml = record { Value = Text; as_str = λ v. some v; to_string = λ v. b'"' ∷ v ++ b'"' ∷ [] }

abbrev config : PlacementCenterConfig Text
config = record {
  cluster_name = codes "c";
  addr = codes "h";
  node_id = 1;
  grpc_port = 9;
  nodes = (codes "3", codes "g:9") ∷ (codes "1", codes "h:9") ∷ [];
  http_port = 8;
  data_path = codes "d";
  log = record { log_config = codes "l"; log_path = codes "p" };
}

-- The world counts how often the cluster has been initialized.
instance abbrev starting : RaftStart
starting = record {
  World = ℕ;
  is_initialized = λ w. done (ok false) w;
  initialize = λ nodes w. done (ok tt) (w + 1);
}

abbrev nodes : NodeMap
nodes =
    (1, record { node_id = 1; rpc_addr = codes "h:9" })
    ∷ (3, record { node_id = 3; rpc_addr = codes "g:9" })
    ∷ []

start_openraft_node-initial_example :
    (i : ℕ) × Among i config.nodes
    × NoneBelow i config.nodes
    × (start_openraft_node config 0
        ≡ (if i == config.node_id then initialize_once nodes 0 else done tt 0))
unfolding nodes_of
start_openraft_node-initial_example = start_openraft_node-initial config nodes 0 refl refl

instance abbrev rpc_types : RpcTypes
rpc_types = record {
  Vote = ℕ;
  Voted = ℕ;
  Append = ℕ;
  Appended = ℕ;
  Install = ℕ;
  Installed = ℕ;
  bincode_vote = bincode number;
  bincode_voted = bincode number;
  bincode_append = bincode number;
  bincode_appended = bincode number;
  bincode_install = bincode number;
  bincode_installed = bincode number;
}

abbrev rpc_types-AreRpcTypes : AreRpcTypes rpc_types
rpc_types-AreRpcTypes = record {
  vote = bincode-IsBincode number;
  voted = bincode-IsBincode number;
  append = bincode-IsBincode number;
  appended = bincode-IsBincode number;
  install = bincode-IsBincode number;
  installed = bincode-IsBincode number;
}

-- A node that adds up what it is sent, and takes no snapshot.
instance abbrev summing : RaftNode rpc_types
summing = record {
  World = ℕ;
  vote = λ n w. done (ok (n + w)) (n + w);
  append_entries = λ n w. done (ok n) (n + w);
  install_snapshot = λ n w. done (err bad_data) w;
}

instance abbrev statuses : StatusText
statuses = record { show = λ s. codes "s" }

-- The network leads to that node, whatever the address.
instance abbrev network : Network
network = record {
  World = ℕ;
  kv_connection = λ addr w. done (ok tt) w;
  openraft_connection = λ addr w. done (ok tt) w;
  set = λ c r w. done (ok common_reply) w;
  get = λ c r w. done (ok (record { value = [] })) w;
  delete = λ c r w. done (ok common_reply) w;
  exists = λ c r w. done (ok (record { flag = false })) w;
  vote = λ c r. within (λ w. w) (λ m w. m) (Server.vote r);
  append = λ c r. within (λ w. w) (λ m w. m) (Server.append r);
  snapshot = λ c r. within (λ w. w) (λ m w. m) (Server.snapshot r);
}

abbrev pools : ClientPool ℕ
pools = record { kv_service_pools = []; openraft_service_pools = []; network = 5 }

abbrev to_peer : NetworkConnection
to_peer = record { addr = codes "g:9"; target = 3 }

vote-at_node_example :
    (vote to_peer 2 pools ≡ at_node (λ w. w) (λ m w. m) (codes "g:9") (summing.vote 2) pools)
    × (append_entries to_peer 4 pools
        ≡ at_node (λ w. w) (λ m w. m) (codes "g:9") (summing.append_entries 4) pools)
    × (install_snapshot to_peer 6 pools
        ≡ at_node (λ w. w) (λ m w. m) (codes "g:9") (summing.install_snapshot 6) pools)
unfolding find_item
vote-at_node_example =
    vote-at_node (λ w. w) (λ m w. m) rpc_types-AreRpcTypes to_peer pools 2 4 6
      (record {
        connects = λ w. refl;
        votes = λ r w. refl;
        appends = λ r w. refl;
        installs = λ r w. refl;
      })
      refl

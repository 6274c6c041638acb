-- ===== src/Raft/Node.antt =====
-- placement-center/src/raft/node.rs: `BrokerNode`.
use robustmq_geek.Prelude.{ℕ, [], Bytes, Text, Action, unwrap}
use robustmq_geek.External.Formats.{Json}

pub record BrokerNode : Type 0 where
  pub cluster_name : Text
  pub cluster_type : Text
  pub node_id : ℕ
  pub node_ip : Text
  pub node_inner_addr : Text
  pub extend : Text
  pub create_time : ℕ

abbrev pub default_node : BrokerNode
default_node = record {
  cluster_name = [];
  cluster_type = [];
  node_id = 0;
  node_ip = [];
  node_inner_addr = [];
  extend = [];
  create_time = 0;
}

-- `to_vec(&self).unwrap()`
unfoldable pub encode : {S : Type 0} → Json BrokerNode → BrokerNode → Action S Bytes
encode json node = unwrap (json.to_vec node)

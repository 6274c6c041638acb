-- ===== src/OpenRaft/Node.antt =====
-- placement-center/src/openraft/raft_node.rs: `Node`.
use robustmq_geek.Prelude.{ℕ, Text}

pub record Node : Type 0 where
  pub node_id : ℕ
  pub rpc_addr : Text

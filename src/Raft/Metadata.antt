-- ===== src/Raft/Metadata.antt =====
-- placement-center/src/raft/metadata.rs: `RaftGroupMetadata`.
pub mod Start
use robustmq_geek.Prelude.{ℕ, Bool, true, false, Option, none, some, List, [], ◌∷◌, ◌++◌}
use robustmq_geek.Prelude.{Text, codes, decimal}
use robustmq_geek.Prelude.Dict
use robustmq_geek.Prelude.Dict.{Dict}
use robustmq_geek.External.RawNode.{StateRole, follower, candidate, pre_candidate}
use robustmq_geek.Raft.Node.{BrokerNode, default_node}

pub data NodeState : Type 0 where
  running starting stoping stop : NodeState

pub record RaftGroupMetadata : Type 0 where
  pub local : BrokerNode
  pub leader : Option BrokerNode
  pub state : NodeState
  pub raft_role : StateRole
  pub peers : Dict BrokerNode

abbrev pub eq_role : StateRole → StateRole → Bool
eq_role follower follower = true
eq_role candidate candidate = true
eq_role StateRole.leader StateRole.leader = true
eq_role pre_candidate pre_candidate = true
eq_role _ _ = false

unfoldable pub get_node_by_id : ℕ → RaftGroupMetadata → Option BrokerNode
get_node_by_id id self = Dict.lookup id self.peers

unfoldable pub add_peer : ℕ → BrokerNode → RaftGroupMetadata → RaftGroupMetadata
add_peer id node self = record self { peers = Dict.insert id node self.peers }

unfoldable pub remove_peer : ℕ → RaftGroupMetadata → RaftGroupMetadata
remove_peer id self = record self { peers = Dict.remove id self.peers }

unfoldable pub is_leader : RaftGroupMetadata → Bool
is_leader self = eq_role self.raft_role StateRole.leader

unfoldable pub set_role : StateRole → RaftGroupMetadata → RaftGroupMetadata
set_role role self = record self { raft_role = role }

unfoldable pub node_ids : RaftGroupMetadata → List ℕ
node_ids self = Dict.keys self.peers

unfoldable pub leader_addr : RaftGroupMetadata → Text
leader_addr self = elim self.leader [ some l ↦ l.node_inner_addr | none ↦ [] ]

unfoldable pub leader_alive : RaftGroupMetadata → Bool
leader_alive self = elim self.leader [ some _ ↦ true | none ↦ false ]

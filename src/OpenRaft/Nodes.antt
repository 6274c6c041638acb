-- ===== src/OpenRaft/Nodes.antt =====
-- placement-center/src/openraft/raft_node.rs: the nodes of the configuration, and which of them
-- initializes the cluster. `start_openraft_node` panics where its parts have no value.
pub mod Least
pub mod Initial
use mathlib.Core.Option
use robustmq_geek.OpenRaft.Node.{Node}
use robustmq_geek.Prelude.{
  ℕ, ◌≡◌, Bool, true, false, Option, none, some, List, [], ◌∷◌, ◌++◌, map, Text, codes, decimal,
  leb, ltb, ◌==◌, Result, ok, err, Action, ◌>>=◌, pure, panic, unwrap_some, if◌then◌else◌,
}
use robustmq_geek.Common.Errors.{Fault}
use robustmq_geek.External.Toml.{Toml}
use robustmq_geek.Common.Config.{PlacementCenterConfig}
use robustmq_geek.Raft.Metadata.Start.{parse_u64}

-- `{}`
unfoldable pub show_node : Node → Text
show_node node =
    codes "Node { rpc_addr: "
    ++ (node.rpc_addr ++ (codes ", node_id: " ++ (decimal node.node_id ++ codes " }")))

-- A `BTreeMap`, in the order of its keys.
abbrev pub NodeMap : Type 0
NodeMap = List (ℕ × Node)

unfoldable pub insert_node : ℕ → Node → NodeMap → NodeMap
insert_node k node [] = (k, node) ∷ []
insert_node k node ((j, other) ∷ nodes) =
    let later = (j, other) ∷ insert_node k node nodes in
    if k == j then (k, node) ∷ nodes else if ltb k j then (k, node) ∷ (j, other) ∷ nodes else later

-- `addr.replace("\"", "")`
unfoldable pub unquoted : Text → Text
unquoted [] = []
unquoted (c ∷ text) = let rest = unquoted text in if c == b'"' then rest else c ∷ rest

-- `node_ids.sort()`
unfoldable pub insert_id : ℕ → List ℕ → List ℕ
insert_id n [] = n ∷ []
insert_id n (m ∷ ids) = let rest = insert_id n ids in if leb n m then n ∷ m ∷ ids else m ∷ rest

unfoldable pub sort : List ℕ → List ℕ
unfolding insert_id
sort [] = []
sort (n ∷ ids) = insert_id n (sort ids)

abbrev pub first_of : List ℕ → Option ℕ
first_of [] = none
first_of (n ∷ ids) = some n

-- No nodes make it panic.
unfoldable pub calc_init_node : NodeMap → Option ℕ
unfolding sort
calc_init_node nodes = first_of (sort (map (λ entry. entry.0) nodes))

-- The calls of `openraft::Raft` at the start.
pub record RaftStart : Type 1 where
  pub World : Type 0
  pub is_initialized : Action World (Result Fault Bool)
  pub initialize : NodeMap → Action World (Result Fault (Unit {0}))

module _ ⦃T : Toml⦄ where
  -- The loop over `conf.nodes`.
  unfoldable pub nodes_of : List (Text × T.Value) → NodeMap → Option NodeMap
  unfolding unquoted insert_node parse_u64
  nodes_of [] nodes = some nodes
  nodes_of ((node_id, addr) ∷ entries) nodes = elim (parse_u64 node_id) [
    | some id ↦
        nodes_of entries
          (insert_node id (record { node_id = id; rpc_addr = unquoted (T.to_string addr) }) nodes)
    | none ↦ none
  ]

  module _ ⦃R : RaftStart⦄ where
    -- A cluster that is not initialized yet is.
    unfoldable pub initialize_once : NodeMap → Action R.World (Unit {0})
    initialize_once nodes = do
      initialized ← R.is_initialized
      elim initialized [
        | ok true ↦ pure tt
        | ok false ↦ do result ← R.initialize nodes; elim result [ ok _ ↦ pure tt | err e ↦ panic ]
        | err e ↦ panic
      ]

    unfoldable pub start_openraft_node : PlacementCenterConfig T.Value → Action R.World (Unit {0})
    unfolding nodes_of calc_init_node initialize_once
    start_openraft_node conf = do
      nodes ← unwrap_some (nodes_of conf.nodes [])
      init_node_id ← unwrap_some (calc_init_node nodes)
      if init_node_id == conf.node_id then initialize_once nodes else pure tt

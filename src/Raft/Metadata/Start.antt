-- ===== src/Raft/Metadata/Start.antt =====
-- placement-center/src/raft/metadata.rs: `RaftGroupMetadata::new`, from the fields of
-- `PlacementCenterConfig` (common/base/src/config/placement_center.rs) that it reads. A text that
-- does not parse makes it panic, which is `none` here.
use mathlib.Core.Option
use robustmq_geek.Prelude.{
  arith, ◌≡◌, ◌≢◌, ◌∙◌, refl, ap, sym, suc, length, ℕ, ◌+◌, ◌-◌, ◌*◌, ◌^◌, Bool, Option, none, some,
  List, [], ◌∷◌, ◌++◌,
}
use robustmq_geek.Prelude.{Text, codes, decimal, ltb, leb, ◌==◌, ◌&&◌, ◌||◌, if◌then◌else◌}
use robustmq_geek.Prelude.Dict
use robustmq_geek.Prelude.Dict.{Dict}
use robustmq_geek.External.RawNode.{follower}
use robustmq_geek.Common.Config.{PlacementCenterConfig}
use robustmq_geek.External.Toml.{Toml, IsToml}
use robustmq_geek.Raft.Node.{BrokerNode, default_node}
use robustmq_geek.Raft.Metadata.{RaftGroupMetadata, starting}

-- `text.split_once(":")`
unfoldable pub split_once : ℕ → Text → Option (Text × Text)
split_once c [] = none
split_once c (x ∷ text) =
    if x == c
    then some ([], text)
    else Option.map (λ (before, after). (x ∷ before, after)) (split_once c text)

-- The white space of ASCII; `trim` takes that of the rest of Unicode off as well.
abbrev is_white : ℕ → Bool
is_white c = (leb 9 c && leb c 13) || c == 32

unfoldable pub trim_start : Text → Text
trim_start [] = []
trim_start (c ∷ text) = let rest = trim_start text in if is_white c then rest else c ∷ text

unfoldable pub trim_end : Text → Text
trim_end [] = []
trim_end (c ∷ text) = elim (trim_end text) [
  | [] ↦ if is_white c then [] else c ∷ []
  | d ∷ rest ↦ c ∷ d ∷ rest
]

-- `parse::<u64>()`: digits, with a plus before them or without, and a value that fits.
unfoldable pub parse_digits : ℕ → Text → Option ℕ
parse_digits n [] = some n
parse_digits n (c ∷ text) =
    let m = 10 * n + (c - b'0') in
    let rest = parse_digits m text in
    if leb b'0' c && leb c b'9' && ltb m (2 ^ 64) then rest else none

unfoldable pub parse_u64 : Text → Option ℕ
unfolding parse_digits
parse_u64 [] = none
parse_u64 (c ∷ []) = if c == b'+' then none else parse_digits 0 (c ∷ [])
parse_u64 (c ∷ d ∷ text) =
    if c == b'+' then parse_digits 0 (d ∷ text) else parse_digits 0 (c ∷ d ∷ text)

-- `ClusterType::PlacementCenter.as_str_name()`, of the generated protocol code.
abbrev pub cluster_type_name : Text
cluster_type_name = codes "PlacementCenter"

length-quote : (text : Text) → length (text ++ b'"' ∷ []) ≡ suc (length text)
length-quote [] = refl
length-quote (c ∷ text) = ap suc (length-quote text)

quoted-differs : (text : Text) → (b'"' ∷ text ++ b'"' ∷ []) ≢ text
quoted-differs text e = let longer = ap length e in let by_one = length-quote text in omega arith

module _ ⦃T : Toml⦄ where
  -- `addr.as_str().unwrap().split_once(":").unwrap()`, of which the first part is used.
  abbrev ip_of : T.Value → Option Text
  ip_of addr = elim (T.as_str addr) [
    | some text ↦ Option.map (λ (ip, _). ip) (split_once b':' text)
    | none ↦ none
  ]

  unfoldable pub peer_of : PlacementCenterConfig T.Value → Text × T.Value → Option BrokerNode
  unfolding parse_u64 trim_start trim_end
  peer_of config (node_id, addr) = elim (ip_of addr) [
    | some ip ↦
        Option.map
          (λ id. record default_node {
            cluster_type = cluster_type_name;
            cluster_name = config.cluster_name;
            node_inner_addr = T.to_string addr;
            node_ip = ip;
            node_id = id;
          })
          (parse_u64 (trim_start (trim_end node_id)))
    | none ↦ none
  ]

  -- The loop over `config.nodes`.
  unfoldable pub peers_of :
      PlacementCenterConfig T.Value
      → List (Text × T.Value)
      → Dict BrokerNode
      → Option (Dict BrokerNode)
  peers_of config [] peers = some peers
  peers_of config (entry ∷ nodes) peers = elim (peer_of config entry) [
    | some node ↦ peers_of config nodes (Dict.insert node.node_id node peers)
    | none ↦ none
  ]

  unfoldable pub local_of : PlacementCenterConfig T.Value → BrokerNode
  local_of config = record default_node {
    cluster_type = cluster_type_name;
    cluster_name = config.cluster_name;
    node_inner_addr = config.addr ++ b':' ∷ decimal config.grpc_port;
    node_ip = config.addr;
    node_id = config.node_id;
  }

  unfoldable pub new : PlacementCenterConfig T.Value → Option RaftGroupMetadata
  unfolding local_of peers_of
  new config =
      Option.map
        (λ peers. record {
          local = local_of config;
          leader = none;
          raft_role = follower;
          state = starting;
          peers = peers;
        })
        (peers_of config config.nodes [])

  pub new-leader :
      (config : PlacementCenterConfig T.Value) (cluster : RaftGroupMetadata)
      → new config ≡ some cluster
      → cluster.leader ≡ none
  unfolding new
  new-leader config cluster e = ground arith

  -- The address of a peer that `new` reads is the text of the configuration with its quotes, which
  -- `to_string` prints, so it is never the plain text of the configuration.
  pub peer_of-quotes :
      {plain : Text → Type 0} (I : IsToml T plain) (config : PlacementCenterConfig T.Value)
      (node_id : Text) (addr : T.Value) (text : Text) (node : BrokerNode)
      → T.as_str addr ≡ some text
      → plain text
      → peer_of config (node_id, addr) ≡ some node
      → (node.node_inner_addr ≡ b'"' ∷ text ++ b'"' ∷ []) × (node.node_inner_addr ≢ text)
  unfolding peer_of
  peer_of-quotes I config node_id addr text node str ok_text e =
      (quoted, λ same. quoted-differs text (sym quoted ∙ same))
    where
      kept : node.node_inner_addr ≡ T.to_string addr
      kept = ground arith

      quoted : node.node_inner_addr ≡ b'"' ∷ text ++ b'"' ∷ []
      quoted = kept ∙ I.to_string-as_str addr text str ok_text

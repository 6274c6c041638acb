-- ===== src/Common/Config.antt =====
-- common/base/src/config/placement_center.rs: the configuration, which a `OnceLock` holds.
pub mod Once
use mathlib.Core.Option.{get_or}
use robustmq_geek.Prelude.{
  ℕ, Option, none, some, List, Text, Result, ok, err, Action, ◌>>=◌, ◌>>◌, pure, panic, gets,
  modify, unwrap,
}
use robustmq_geek.Common.Errors.{Fault}
use robustmq_geek.Common.Tools.{Files, read_file}

pub record Log : Type 0 where
  pub log_config : Text
  pub log_path : Text

-- A `toml::Table` is the list of its keys and values.
pub record PlacementCenterConfig (Value : Type 0) : Type 0 where
  pub cluster_name : Text
  pub addr : Text
  pub node_id : ℕ
  pub grpc_port : ℕ
  pub nodes : List (Text × Value)
  pub http_port : ℕ
  pub data_path : Text
  pub log : Log

abbrev pub default_node_id : ℕ
default_node_id = 1

abbrev pub default_grpc_port : ℕ
default_grpc_port = 9982

-- The fields as they stand in a file, of which two may be missing.
pub record ConfigFields (Value : Type 0) : Type 0 where
  pub cluster_name : Text
  pub addr : Text
  pub node_id : Option ℕ
  pub grpc_port : Option ℕ
  pub nodes : List (Text × Value)
  pub http_port : ℕ
  pub data_path : Text
  pub log : Log

-- What `Deserialize` makes of them, by the `serde` attributes of the struct.
unfoldable pub completed : {Value : Type 0} → ConfigFields Value → PlacementCenterConfig Value
completed fields = record {
  cluster_name = fields.cluster_name;
  addr = fields.addr;
  node_id = get_or fields.node_id default_node_id;
  grpc_port = get_or fields.grpc_port default_grpc_port;
  nodes = fields.nodes;
  http_port = fields.http_port;
  data_path = fields.data_path;
  log = fields.log;
}

-- `toml::from_str` at the fields.
pub record ConfigFile (Value : Type 0) : Type 0 where
  pub from_str : Text → Result Fault (ConfigFields Value)

-- `PLACEMENT_CENTER_CONF`, and the files.
pub record Process (Value World : Type 0) : Type 0 where
  pub conf : Option (PlacementCenterConfig Value)
  pub files : World

module _ {Value : Type 0} ⦃F : Files⦄ where
  unfoldable pub placement_center_conf :
      Action (Process Value F.World) (PlacementCenterConfig Value)
  placement_center_conf = do
    conf ← gets (λ s. s.conf)
    elim conf [ some config ↦ pure config | none ↦ panic ]

  module _ ⦃P : ConfigFile Value⦄ where
    -- The closure of `get_or_init`.
    unfoldable pub load : Text → Action (Process Value F.World) (PlacementCenterConfig Value)
    unfolding completed
    load config_path = do
      content ← gets (λ s. read_file config_path s.files)
      elim content [
        | ok text ↦ do fields ← unwrap (P.from_str text); pure (completed fields)
        | err e ↦ panic
      ]

    -- A value that is there is returned, and the closure is called for one that is not.
    unfoldable pub init_placement_center_conf_by_path :
        Text → Action (Process Value F.World) (PlacementCenterConfig Value)
    unfolding load
    init_placement_center_conf_by_path config_path = do
      conf ← gets (λ s. s.conf)
      elim conf [
        | some config ↦ pure config
        | none ↦ do
          config ← load config_path
          modify (λ s. record s { conf = some config })
          pure config
      ]

-- ===== src/Server/Http.antt =====
-- placement-center/src/server/http: the paths (mod.rs), the routes (server.rs) and the handlers
-- (openraft.rs, index.rs), with the replies of common/base/src/http_response.rs. A reply that does
-- not serialise makes its handler panic.
pub mod Replies
use robustmq_geek.OpenRaft.Node.{Node}
use robustmq_geek.Prelude.{
  ℕ, true, Bool, Option, List, [], ◌∷◌, ◌++◌, Text, codes, Result, ok, err, Action, ◌>>=◌, pure,
  gets, within, unwrap,
}
use robustmq_geek.Common.Errors.{Fault}
use robustmq_geek.External.Formats.{Json}
use robustmq_geek.External.Rocksdb.{find_item}
use robustmq_geek.External.TreeMap.{Items}
use robustmq_geek.OpenRaft.Types.{AppRequestData}
use robustmq_geek.OpenRaft.Nodes.{NodeMap, insert_node}

pub record Response (T : Type 0) : Type 0 where
  pub code : ℕ
  pub value : T

unfoldable pub success_response : {S T : Type 0} → Json (Response T) → T → Action S Text
success_response json value = unwrap (json.to_string (record { code = 0; value = value }))

unfoldable pub error_response : {S : Type 0} → Json (Response Text) → Text → Action S Text
error_response json text = unwrap (json.to_string (record { code = 100; value = text }))

-- `Raft<TypeConfig>`, as the handlers call it.
pub record RaftHandle : Type 1 where
  pub World : Type 0
  pub ClientWriteResponse : Type 0
  pub RaftMetrics : Type 0
  pub add_learner : ℕ → Node → Bool → Action World (Result Fault ClientWriteResponse)
  pub change_membership : List ℕ → Bool → Action World (Result Fault ClientWriteResponse)
  pub initialize : NodeMap → Action World (Result Fault (Unit {0}))
  pub metrics : World → RaftMetrics
  pub client_write : AppRequestData → Action World (Result Fault ClientWriteResponse)

-- `serde_json` at the types of the replies.
pub record ReplyFormats (H : RaftHandle) : Type 0 where
  pub json_object : Json (Response Text)
  pub json_write : Json (Response H.ClientWriteResponse)
  pub json_unit : Json (Response (Unit {0}))
  pub json_metrics : Json (Response (Result ⊥ H.RaftMetrics))
  pub json_value : Json (Response (Option Text))
  pub json_error : Json (Response Text)

-- The map is the one that the state machine has behind its `Arc`, as it is when a handler reads it.
pub record HttpServerState (World : Type 0) : Type 0 where
  pub raft_node : World
  pub kvs : Items

abbrev pub v1_path : Text → Text
v1_path path = codes "/v1" ++ path

abbrev pub path_create : Text → Text
path_create path = path ++ codes "/create"

abbrev pub path_update : Text → Text
path_update path = path ++ codes "/update"

abbrev pub path_delete : Text → Text
path_delete path = path ++ codes "/delete"

abbrev pub path_list : Text → Text
path_list path = path ++ codes "/list"

-- The node that `add_leadrner` and `init` name, under the id 3.
abbrev pub fixed_node : Node
fixed_node = record { node_id = 2; rpc_addr = codes "127.0.0.0:7654" }

pub data Method : Type 0 where
  get post : Method

module _ ⦃H : RaftHandle⦄ ⦃F : ReplyFormats H⦄ where
  abbrev pub State : Type 0
  State = HttpServerState H.World

  abbrev pub with_raft : {A : Type 0} → Action H.World A → Action State A
  with_raft = within (λ s. s.raft_node) (λ w s. record s { raft_node = w })

  -- How the handlers that change the cluster end.
  abbrev pub replied : {T : Type 0} → Json (Response T) → Result Fault T → Action State Text
  replied json (ok value) = success_response json value
  replied json (err e) = error_response F.json_error e.display

  unfoldable pub index : Action State Text
  unfolding success_response
  index = success_response F.json_object (codes "{}")

  unfoldable pub add_leadrner : Action State Text
  unfolding success_response error_response
  add_leadrner = with_raft (H.add_learner 3 fixed_node true) >>= replied F.json_write

  unfoldable pub change_membership : Action State Text
  unfolding success_response error_response
  change_membership = with_raft (H.change_membership (3 ∷ []) true) >>= replied F.json_write

  unfoldable pub init : Action State Text
  unfolding success_response error_response
  init = with_raft (H.initialize (insert_node 3 fixed_node [])) >>= replied F.json_unit

  unfoldable pub metrics : Action State Text
  unfolding success_response
  metrics = gets (λ s. ok (H.metrics s.raft_node)) >>= success_response F.json_metrics

  unfoldable pub set : Action State Text
  unfolding success_response error_response
  set =
      with_raft (H.client_write (AppRequestData.set (codes "k1") (codes "v1")))
      >>= replied F.json_write

  unfoldable pub kv_get : Action State Text
  unfolding success_response
  kv_get = gets (λ s. find_item (codes "k1") s.kvs) >>= success_response F.json_value

  -- The table of `routes`.
  unfoldable pub routes : List (Text × (Method × Action State Text))
  unfolding index add_leadrner change_membership init metrics set kv_get
  routes =
      (v1_path (path_list (codes "/index")), (Method.get, index))
      ∷ (v1_path (codes "/add-learner"), (Method.post, add_leadrner))
      ∷ (v1_path (codes "/change-membership"), (Method.post, change_membership))
      ∷ (v1_path (codes "/init"), (Method.post, init))
      ∷ (v1_path (codes "/metrics"), (Method.get, metrics))
      ∷ (v1_path (codes "/set"), (Method.get, set))
      ∷ (v1_path (codes "/get"), (Method.get, kv_get))
      ∷ []

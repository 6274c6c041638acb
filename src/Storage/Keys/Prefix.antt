-- ===== src/Storage/Keys/Prefix.antt =====
-- Prefix scans over the keys of clusters, shards and MQTT records.
use mathlib.Core.List.{append_assoc}
use robustmq_geek.Prelude.{ℕ, ◌≡◌, ◌∙◌, ◌++◌, [], ◌∷◌, refl, true, arith, Text, codes}
use robustmq_geek.Prelude.{starts_with, starts_with-append}
use robustmq_geek.Storage.Keys.{
  key_cluster, key_cluster_prefix, key_cluster_prefix_by_type, key_node, key_node_prefix,
  key_node_prefix_all, key_shard, key_shard_prefix, key_segment, key_segment_cluster_prefix,
  key_segment_shard_prefix, storage_key_mqtt_user, storage_key_mqtt_user_cluster_prefix,
  storage_key_mqtt_topic, storage_key_mqtt_topic_cluster_prefix, storage_key_mqtt_session,
  storage_key_mqtt_session_cluster_prefix, storage_key_mqtt_last_will,
  storage_key_mqtt_last_will_prefix, storage_key_mqtt_acl, storage_key_mqtt_acl_prefix,
  storage_key_mqtt_blacklist, storage_key_mqtt_blacklist_prefix,
}
use robustmq_geek.Storage.Keys.Raft.{name}

pub starts_with-append_common : (p k q : Text) → starts_with (p ++ k) (p ++ q) ≡ starts_with k q
unfolding starts_with
starts_with-append_common [] k q = refl
starts_with-append_common (x ∷ p) k q = ground (arith, starts_with-append_common p k q)

under : (p c rest : Text) → starts_with (p ++ (c ++ rest)) (p ++ c) ≡ true
under p c rest = rw (starts_with-append_common p (c ++ rest) c) (starts_with-append c rest)

-- Every key of a record lies under each prefix that the source lists records of its kind by.
pub record ArePrefixes (cluster name type resource : Text) (id : ℕ) : Type 0 where
  pub cluster_all : starts_with (key_cluster type cluster) key_cluster_prefix ≡ true
  pub cluster_by_type :
      starts_with (key_cluster type cluster) (key_cluster_prefix_by_type type) ≡ true
  pub node : starts_with (key_node cluster id) (key_node_prefix cluster) ≡ true
  pub node_all : starts_with (key_node cluster id) key_node_prefix_all ≡ true
  pub shard : starts_with (key_shard cluster name) (key_shard_prefix cluster) ≡ true
  pub segment :
      starts_with (key_segment cluster name id) (key_segment_cluster_prefix cluster) ≡ true
  pub segment_shard :
      starts_with (key_segment cluster name id) (key_segment_shard_prefix cluster name) ≡ true
  pub user :
      starts_with
        (storage_key_mqtt_user cluster name)
        (storage_key_mqtt_user_cluster_prefix cluster)
      ≡ true
  pub topic :
      starts_with
        (storage_key_mqtt_topic cluster name)
        (storage_key_mqtt_topic_cluster_prefix cluster)
      ≡ true
  pub session :
      starts_with
        (storage_key_mqtt_session cluster name)
        (storage_key_mqtt_session_cluster_prefix cluster)
      ≡ true
  pub last_will :
      starts_with
        (storage_key_mqtt_last_will cluster name)
        (storage_key_mqtt_last_will_prefix cluster)
      ≡ true
  pub acl :
      starts_with (storage_key_mqtt_acl cluster type resource) (storage_key_mqtt_acl_prefix cluster)
      ≡ true
  pub blacklist :
      starts_with
        (storage_key_mqtt_blacklist cluster type resource)
        (storage_key_mqtt_blacklist_prefix cluster)
      ≡ true

-- Whatever the names and numbers, the key of a cluster, node, shard, segment or MQTT record starts
-- with every prefix by which the source lists records of its kind.
pub keys-ArePrefixes :
    (cluster name type resource : Text) (id : ℕ) → ArePrefixes cluster name type resource id
unfolding key_cluster key_cluster_prefix key_cluster_prefix_by_type key_node key_node_prefix
    key_node_prefix_all key_shard key_shard_prefix key_segment key_segment_cluster_prefix
    key_segment_shard_prefix storage_key_mqtt_user storage_key_mqtt_user_cluster_prefix
    storage_key_mqtt_topic storage_key_mqtt_topic_cluster_prefix storage_key_mqtt_session
    storage_key_mqtt_session_cluster_prefix storage_key_mqtt_last_will
    storage_key_mqtt_last_will_prefix storage_key_mqtt_acl storage_key_mqtt_acl_prefix
    storage_key_mqtt_blacklist storage_key_mqtt_blacklist_prefix
keys-ArePrefixes cluster name type resource id = record {
  cluster_all = starts_with-append (codes "/clusters/") _;
  cluster_by_type = under (codes "/clusters/") type _;
  node = under (codes "/clusters/node/") cluster _;
  node_all = starts_with-append (codes "/clusters/node/") _;
  shard = under (codes "/journal/shard/") cluster _;
  segment = under (codes "/journal/segment/") cluster _;
  segment_shard =
      starts_with-append_common (codes "/journal/segment/") _ _
      ∙ starts_with-append_common cluster _ _
      ∙ under (codes "/") name _;
  user = under (codes "/mqtt/user/") cluster _;
  topic = under (codes "/mqtt/topic/") cluster _;
  session = under (codes "/mqtt/session/") cluster _;
  last_will = under (codes "/mqtt/lastwill/") cluster _;
  acl = under (codes "/mqtt/acl/") cluster _;
  blacklist = under (codes "/mqtt/blacklist/") cluster _;
}

-- A prefix carries no closing slash, so the prefix of a cluster is also one of the keys of every
-- cluster whose name only begins with that cluster's name.
pub key_node-starts_with_of_longer_name :
    (cluster more : Text) (id : ℕ)
    → starts_with (key_node (cluster ++ more) id) (key_node_prefix cluster) ≡ true
unfolding key_node key_node_prefix
key_node-starts_with_of_longer_name cluster more id =
    starts_with-append_common (codes "/clusters/node/") _ _
    ∙ rw append_assoc (starts_with-append cluster _)

-- ===== src/Storage/Keys.antt =====
-- placement-center/src/storage/keys.rs: the names of the keys in the database.
pub mod Raft
pub mod Prefix
use robustmq_geek.Prelude.{ℕ, ◌++◌, Text, codes, decimal}

-- Raft

unfoldable pub key_name_by_first_index : Text
key_name_by_first_index = codes "/raft/first_index"

unfoldable pub key_name_by_last_index : Text
key_name_by_last_index = codes "/raft/last_index"

unfoldable pub key_name_by_hard_state : Text
key_name_by_hard_state = codes "/raft/hard_state"

unfoldable pub key_name_by_conf_state : Text
key_name_by_conf_state = codes "/raft/conf_state"

unfoldable pub key_name_by_entry : ℕ → Text
key_name_by_entry idx = codes "/raft/entry/" ++ decimal idx

unfoldable pub key_name_uncommit : Text
key_name_uncommit = codes "/raft/uncommit_index"

unfoldable pub key_name_snapshot : Text
key_name_snapshot = codes "/raft/snapshot"

-- Cluster

unfoldable pub key_cluster : Text → Text → Text
key_cluster cluster_type cluster_name =
    codes "/clusters/" ++ (cluster_type ++ (codes "/" ++ cluster_name))

unfoldable pub key_cluster_prefix : Text
key_cluster_prefix = codes "/clusters/"

unfoldable pub key_cluster_prefix_by_type : Text → Text
key_cluster_prefix_by_type cluster_type = codes "/clusters/" ++ cluster_type

unfoldable pub key_node : Text → ℕ → Text
key_node cluster_name node_id =
    codes "/clusters/node/" ++ (cluster_name ++ (codes "/" ++ decimal node_id))

unfoldable pub key_node_prefix : Text → Text
key_node_prefix cluster_name = codes "/clusters/node/" ++ cluster_name

unfoldable pub key_node_prefix_all : Text
key_node_prefix_all = codes "/clusters/node/"

unfoldable pub key_resource_config : Text → Text → Text
key_resource_config cluster_name resource_key =
    codes "/config/" ++ (cluster_name ++ (codes "/" ++ resource_key))

unfoldable pub key_resource_idempotent : Text → Text → ℕ → Text
key_resource_idempotent cluster_name produce_id seq_num =
    codes "/idempotent/"
    ++ (cluster_name ++ (codes "/" ++ (produce_id ++ (codes "/" ++ decimal seq_num))))

-- Journal

unfoldable pub key_shard : Text → Text → Text
key_shard cluster_name shard_name =
    codes "/journal/shard/" ++ (cluster_name ++ (codes "/" ++ shard_name))

unfoldable pub key_shard_prefix : Text → Text
key_shard_prefix cluster_name = codes "/journal/shard/" ++ cluster_name

unfoldable pub key_segment : Text → Text → ℕ → Text
key_segment cluster_name shard_name segement_seq =
    codes "/journal/segment/"
    ++ (cluster_name ++ (codes "/" ++ (shard_name ++ (codes "/" ++ decimal segement_seq))))

unfoldable pub key_segment_cluster_prefix : Text → Text
key_segment_cluster_prefix cluster_name = codes "/journal/segment/" ++ cluster_name

unfoldable pub key_segment_shard_prefix : Text → Text → Text
key_segment_shard_prefix cluster_name shard_name =
    codes "/journal/segment/" ++ (cluster_name ++ (codes "/" ++ shard_name))

-- MQTT

unfoldable pub storage_key_mqtt_user : Text → Text → Text
storage_key_mqtt_user cluster_name user_name =
    codes "/mqtt/user/" ++ (cluster_name ++ (codes "/" ++ user_name))

unfoldable pub storage_key_mqtt_user_cluster_prefix : Text → Text
storage_key_mqtt_user_cluster_prefix cluster_name = codes "/mqtt/user/" ++ cluster_name

unfoldable pub storage_key_mqtt_topic : Text → Text → Text
storage_key_mqtt_topic cluster_name user_name =
    codes "/mqtt/topic/" ++ (cluster_name ++ (codes "/" ++ user_name))

unfoldable pub storage_key_mqtt_topic_cluster_prefix : Text → Text
storage_key_mqtt_topic_cluster_prefix cluster_name = codes "/mqtt/topic/" ++ cluster_name

unfoldable pub storage_key_mqtt_session : Text → Text → Text
storage_key_mqtt_session cluster_name client_id =
    codes "/mqtt/session/" ++ (cluster_name ++ (codes "/" ++ client_id))

unfoldable pub storage_key_mqtt_session_cluster_prefix : Text → Text
storage_key_mqtt_session_cluster_prefix cluster_name = codes "/mqtt/session/" ++ cluster_name

unfoldable pub storage_key_mqtt_last_will : Text → Text → Text
storage_key_mqtt_last_will cluster_name client_id =
    codes "/mqtt/lastwill/" ++ (cluster_name ++ (codes "/" ++ client_id))

unfoldable pub storage_key_mqtt_last_will_prefix : Text → Text
storage_key_mqtt_last_will_prefix cluster_name = codes "/mqtt/lastwill/" ++ cluster_name

unfoldable pub storage_key_mqtt_node_sub_group_leader : Text → Text
storage_key_mqtt_node_sub_group_leader cluster_name =
    codes "/mqtt/sub_group_leader/" ++ cluster_name

unfoldable pub storage_key_mqtt_acl : Text → Text → Text → Text
storage_key_mqtt_acl cluster_name resource_type resource_name =
    codes "/mqtt/acl/"
    ++ (cluster_name ++ (codes "/" ++ (resource_type ++ (codes "/" ++ resource_name))))

unfoldable pub storage_key_mqtt_acl_prefix : Text → Text
storage_key_mqtt_acl_prefix cluster_name = codes "/mqtt/acl/" ++ cluster_name

unfoldable pub storage_key_mqtt_blacklist : Text → Text → Text → Text
storage_key_mqtt_blacklist cluster_name black_list_type resource_name =
    codes "/mqtt/blacklist/"
    ++ (cluster_name ++ (codes "/" ++ (black_list_type ++ (codes "/" ++ resource_name))))

unfoldable pub storage_key_mqtt_blacklist_prefix : Text → Text
storage_key_mqtt_blacklist_prefix cluster_name = codes "/mqtt/blacklist/" ++ cluster_name

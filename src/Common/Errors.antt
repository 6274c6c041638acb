-- ===== src/Common/Errors.antt =====
-- common/base/src/errors.rs. An error of another library is known by the two texts that Rust can
-- print of it.
use robustmq_geek.Prelude.{Text, codes, ◌++◌}

pub record Fault : Type 0 where
  pub display : Text
  pub debug : Text

-- `tonic::Status`, as far as the program builds one: the kind by its constructor, with a message.
pub data Status : Type 0 where
  cancelled : Text → Status
  invalid_argument : Text → Status
  other_status : Fault → Status

pub data RobustMqError : Type 0 where
  io_json_error : Fault → RobustMqError
  parameter_cannot_be_null : Text → RobustMqError
  commmon_error : Text → RobustMqError
  rocksdb_error : Fault → RobustMqError
  cluster_no_available_node : RobustMqError
  serde_json_error : Fault → RobustMqError
  raft_log_commit_timeout : Text → RobustMqError
  no_available_grpc_connection : Text → Text → RobustMqError
  grpc_server_status : Status → RobustMqError

-- `to_string`, for the texts that a `tonic::Status` prints.
unfoldable pub display : (Status → Text) → RobustMqError → Text
display show (io_json_error e) = codes "io error"
display show (parameter_cannot_be_null name) =
    codes "Parameter cannot be empty, parameter name: " ++ name
display show (commmon_error text) = text
display show (rocksdb_error e) = e.display
display show cluster_no_available_node = codes "No available nodes in the cluster"
display show (serde_json_error e) = e.display
display show (raft_log_commit_timeout action) =
    codes "Description The interface " ++ (action ++ codes " submitted logs to the commit log")
display show (no_available_grpc_connection service text) =
    service ++ (codes " connection pool has no connection information available. " ++ text)
display show (grpc_server_status status) =
    codes "Grpc call of the node failed,Grpc status was " ++ show status

-- ===== src/Server/Raft.antt =====
-- placement-center/src/server/grpc/services_raft.rs: `GrpcRaftServices`.
use robustmq_geek.Prelude.{Bytes, codes, Result, ok, err, Action, ◌>>=◌, pure}
use robustmq_geek.Common.Errors.{
  Status, cancelled, invalid_argument, RobustMqError, raft_log_commit_timeout, display,
}
use robustmq_geek.External.Formats.{Proto}
use robustmq_geek.External.RawNode.{ConfChange}
use robustmq_geek.Raft.Apply.{RaftTask, apply_raft_message, apply_conf_raft_message}
use robustmq_geek.Server.Kv.{ServiceFormats}

module _ ⦃T : RaftTask⦄ ⦃S : ServiceFormats⦄ where
  -- An error of the machine is wrapped in the text of a timeout.
  abbrev pub raft_reply : Result RobustMqError (Unit {0}) → Result Status (Unit {0})
  raft_reply (ok _) = ok tt
  raft_reply (err e) =
      err (cancelled (display S.show_status (raft_log_commit_timeout (display S.show_status e))))

  -- The replies of both have no fields.
  unfoldable pub send_raft_message :
      Proto T.Message → Bytes → Action T.World (Result Status (Unit {0}))
  send_raft_message proto request = elim (proto.decode request) [
    | ok message ↦ do
      result ← apply_raft_message message (codes "send_raft_message")
      pure (raft_reply result)
    | err e ↦ pure (err (invalid_argument e.display))
  ]

  unfoldable pub send_raft_conf_change :
      Proto ConfChange → Bytes → Action T.World (Result Status (Unit {0}))
  send_raft_conf_change proto request = elim (proto.decode request) [
    | ok change ↦ do
      result ← apply_conf_raft_message change (codes "send_conf_raft_message")
      pure (raft_reply result)
    | err e ↦ pure (err (invalid_argument e.display))
  ]

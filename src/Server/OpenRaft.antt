-- ===== src/Server/OpenRaft.antt =====
-- placement-center/src/server/grpc/services_openraft.rs: `GrpcOpenRaftServices`. A request that does
-- not parse makes the handler panic.
use robustmq_geek.Prelude.{Bytes, Result, ok, err, Action, ◌>>=◌, pure, unwrap}
use robustmq_geek.Common.Errors.{Fault, Status, cancelled}
use robustmq_geek.External.Formats.{Bincode}
use robustmq_geek.External.OpenRaft.{RpcTypes}
use robustmq_geek.Protocol.OpenRaft.{
  VoteRequest, VoteReply, AppendRequest, AppendReply, SnapshotRequest, SnapshotReply,
}

-- The openraft node.
pub record RaftNode (T : RpcTypes) : Type 1 where
  pub World : Type 0
  pub vote : T.Vote → Action World (Result Fault T.Voted)
  pub append_entries : T.Append → Action World (Result Fault T.Appended)
  pub install_snapshot : T.Install → Action World (Result Fault T.Installed)

module _ ⦃T : RpcTypes⦄ ⦃N : RaftNode T⦄ where
  -- What the three handlers have in common, up to the type of the reply.
  unfoldable pub handle :
      {Request Answer : Type 0}
      → Bincode Request
      → Bincode Answer
      → (Request → Action N.World (Result Fault Answer))
      → Bytes
      → Action N.World (Result Status Bytes)
  handle requests answers call value = do
    request ← unwrap (requests.deserialize value)
    result ← call request
    pure (elim result [
      | ok res ↦ elim (answers.serialize res) [
        | ok bytes ↦ ok bytes
        | err e ↦ err (cancelled e.display)
      ]
      | err e ↦ err (cancelled e.display)
    ])

  abbrev pub replies :
      {Reply : Type 0} → (Bytes → Reply) → Result Status Bytes → Result Status Reply
  replies make (ok bytes) = ok (make bytes)
  replies make (err e) = err e

  unfoldable pub vote : VoteRequest → Action N.World (Result Status VoteReply)
  unfolding handle
  vote req = do
    result ← handle T.bincode_vote T.bincode_voted N.vote req.value
    pure (replies (λ bytes. record { value = bytes }) result)

  unfoldable pub append : AppendRequest → Action N.World (Result Status AppendReply)
  unfolding handle
  append req = do
    result ← handle T.bincode_append T.bincode_appended N.append_entries req.value
    pure (replies (λ bytes. record { value = bytes }) result)

  unfoldable pub snapshot : SnapshotRequest → Action N.World (Result Status SnapshotReply)
  unfolding handle
  snapshot req = do
    result ← handle T.bincode_install T.bincode_installed N.install_snapshot req.value
    pure (replies (λ bytes. record { value = bytes }) result)

-- ===== src/OpenRaft/Network.antt =====
-- placement-center/src/openraft/network: `Network` (network.rs) and `NetworkConnection`
-- (connection.rs), with `to_error` of openraft/error.rs.
pub mod Remote
use robustmq_geek.Prelude.{ℕ, Bytes, Text, Result, ok, err, Action, ◌>>=◌, pure}
use robustmq_geek.Common.Errors.{Fault, Status, RobustMqError, commmon_error}
use robustmq_geek.External.Formats.{Bincode}
use robustmq_geek.External.OpenRaft.{RpcTypes, RpcError, unreachable}
use robustmq_geek.Protocol.OpenRaft.{VoteReply, AppendReply, SnapshotReply}
use robustmq_geek.Clients.Pool as Pool
use robustmq_geek.Clients.Pool.{
  Network, Pools, on_network, placement_center_openraft_services_client,
}
use robustmq_geek.OpenRaft.Node.{Node}

-- The pool of clients is the state of the calls.
pub record NetworkConnection : Type 0 where
  pub addr : Text
  pub target : ℕ

abbrev pub new_client : ℕ → Node → NetworkConnection
new_client target node = record { addr = node.rpc_addr; target = target }

abbrev pub to_error : RobustMqError → RpcError
to_error e = unreachable e

-- How a `tonic::Status` prints.
pub record StatusText : Type 0 where
  pub show : Status → Text

abbrev failed : {A : Type 0} → Text → Result RpcError A
failed text = err (to_error (commmon_error text))

module _ ⦃N : Network⦄ ⦃X : StatusText⦄ where
  abbrev pub connected : NetworkConnection → Action Pools (Result RobustMqError Text)
  connected c = placement_center_openraft_services_client c.addr

  abbrev pub received :
      {Answer : Type 0} → Bincode Answer → Result Status Bytes → Result RpcError Answer
  received answers (ok value) = elim (answers.deserialize value) [
    | ok answer ↦ ok answer
    | err e ↦ failed e.display
  ]
  received answers (err e) = failed (X.show e)

  -- What the three calls have in common, up to the type of the reply.
  unfoldable pub call :
      {Request Answer : Type 0}
      → Bincode Request
      → Bincode Answer
      → (Text → Bytes → Action N.World (Result Status Bytes))
      → NetworkConnection
      → Request
      → Action Pools (Result RpcError Answer)
  call requests answers send c req = do
    conn ← connected c
    elim conn [
      | ok client ↦ elim (requests.serialize req) [
        | ok value ↦ do reply ← on_network (send client value); pure (received answers reply)
        | err e ↦ pure (failed e.display)
      ]
      | err e ↦ pure (err (to_error e))
    ]

  -- `.map(|reply| reply.into_inner().value)`
  abbrev pub value_of :
      {Reply : Type 0} → (Reply → Bytes) → Result Status Reply → Result Status Bytes
  value_of value (ok reply) = ok (value reply)
  value_of value (err e) = err e

  module _ ⦃T : RpcTypes⦄ where
    abbrev pub send_vote : Text → Bytes → Action N.World (Result Status Bytes)
    send_vote client value = do
      reply ← N.vote client (record { value = value })
      pure (value_of (λ (r : VoteReply). r.value) reply)

    abbrev pub send_append : Text → Bytes → Action N.World (Result Status Bytes)
    send_append client value = do
      reply ← N.append client (record { value = value })
      pure (value_of (λ (r : AppendReply). r.value) reply)

    abbrev pub send_snapshot : Text → Bytes → Action N.World (Result Status Bytes)
    send_snapshot client value = do
      reply ← N.snapshot client (record { value = value })
      pure (value_of (λ (r : SnapshotReply). r.value) reply)

    unfoldable pub append_entries :
        NetworkConnection → T.Append → Action Pools (Result RpcError T.Appended)
    unfolding call
    append_entries = call T.bincode_append T.bincode_appended send_append

    unfoldable pub install_snapshot :
        NetworkConnection → T.Install → Action Pools (Result RpcError T.Installed)
    unfolding call
    install_snapshot = call T.bincode_install T.bincode_installed send_snapshot

    unfoldable pub vote : NetworkConnection → T.Vote → Action Pools (Result RpcError T.Voted)
    unfolding call
    vote = call T.bincode_vote T.bincode_voted send_vote

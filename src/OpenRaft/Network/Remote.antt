-- ===== src/OpenRaft/Network/Remote.antt =====
-- A call over the network is the call of the remote node.
use mathlib.Core.Option.{get_or}
use robustmq_geek.Prelude.{
  ◌≡◌, ◌∙◌, refl, inl, inr, List, eq_bytes_iff, Option-cases, ap, some, Bytes, Text, codes, Result,
  ok, err, Run, done, panicked, Action, ◌>>=◌, pure, within, restored, continue,
}
use robustmq_geek.Common.Errors.{Fault, Status, cancelled, commmon_error}
use robustmq_geek.External.Rocksdb.{find_item}
use robustmq_geek.External.Formats.{Bincode, IsBincode}
use robustmq_geek.External.OpenRaft.{RpcTypes, AreRpcTypes, RpcError}
use robustmq_geek.Clients.Pool.{
  Network, Pools, pool_key, ensure_pool, with_network, connection,
  placement_center_openraft_services_client,
}
use robustmq_geek.Protocol.OpenRaft.{
  VoteRequest, VoteReply, AppendRequest, AppendReply, SnapshotRequest, SnapshotReply,
}
use robustmq_geek.Server.OpenRaft as Server
use robustmq_geek.Server.OpenRaft.{RaftNode, handle, replies}
use robustmq_geek.OpenRaft.Network.{
  NetworkConnection, StatusText, to_error, call, value_of, send_vote, send_append, send_snapshot,
  vote, append_entries, install_snapshot, received,
}

module _ ⦃N : Network⦄ ⦃X : StatusText⦄ ⦃T : RpcTypes⦄ ⦃M : RaftNode T⦄ where
  abbrev key_of : Text → Text
  key_of addr = pool_key (codes "OpenRaftServices") addr

  -- The pools with one for the address.
  abbrev pub pooled : Text → Pools → Pools
  pooled addr s = record s {
    openraft_service_pools = ensure_pool (key_of addr) addr s.openraft_service_pools;
  }

  -- An error of the node comes back as one of an unreachable node.
  abbrev pub relayed : {Answer : Type 0} → Result Fault Answer → Result RpcError Answer
  relayed (ok answer) = ok answer
  relayed (err e) = err (to_error (commmon_error (X.show (cancelled e.display))))

  find-ensure_pool :
      (key addr : Text) (pools : List (Text × Text))
      → find_item key (ensure_pool key addr pools) ≡ some (get_or (find_item key pools) addr)
  unfolding find_item ensure_pool
  find-ensure_pool key addr pools = elim (Option-cases (find_item key pools)) [
    | inl missing ↦ rw (ensure_pool, missing, find_item, (eq_bytes_iff key key).1 refl) refl
    | inr (own, found) ↦ rw (ensure_pool, found, found) refl
  ]

  module _ (get : N.World → M.World) (put : M.World → N.World → N.World) where
    abbrev pub on_node : {A : Type 0} → Action M.World A → Action Pools A
    on_node = within (λ s. get s.network) (λ m s. record s { network = put m s.network })

    -- The call of the node itself, from pools with one for its address.
    abbrev pub at_node :
        {Answer : Type 0}
        → Text
        → Action M.World (Result Fault Answer)
        → Action Pools (Result RpcError Answer)
    at_node addr m s = (on_node m >>= λ answer. pure (relayed answer)) (pooled addr s)

    -- The node stands behind the address: connections are made, and its handlers are what answers.
    pub record Behind (addr : Text) : Type 0 where
      pub connects : (w : N.World) → N.openraft_connection addr w ≡ done (ok tt) w
      pub votes :
          (req : VoteRequest) (w : N.World) → N.vote addr req w ≡ within get put (Server.vote req) w
      pub appends :
          (req : AppendRequest) (w : N.World)
          → N.append addr req w ≡ within get put (Server.append req) w
      pub installs :
          (req : SnapshotRequest) (w : N.World)
          → N.snapshot addr req w ≡ within get put (Server.snapshot req) w

    client-pooled :
        (addr : Text) (s : Pools)
        → ((w : N.World) → N.openraft_connection addr w ≡ done (ok tt) w)
        → get_or (find_item (key_of addr) s.openraft_service_pools) addr ≡ addr
        → placement_center_openraft_services_client addr s ≡ done (ok addr) (pooled addr s)
    unfolding placement_center_openraft_services_client connection
    client-pooled addr s connects own =
        rw
          (
            find-ensure_pool (key_of addr) addr s.openraft_service_pools ∙ ap some own,
            connects s.network,
          )
          refl

    -- What the handler of the node makes of its answer, and the connection of that.
    relays :
        {Answer : Type 0} {answers : Bincode Answer} (P : IsBincode answers) (s : Pools)
        (r : Run M.World (Result Fault Answer))
        → continue
            (with_network s (
              restored put s.network (
                continue r (λ result. pure (elim result [
                  | ok res ↦ elim (answers.serialize res) [
                    | ok bytes ↦ ok bytes
                    | err e ↦ err (cancelled e.display)
                  ]
                  | err e ↦ err (cancelled e.display)
                ])))))
            (λ reply. pure (received answers reply))
          ≡ continue
              (restored (λ m t. record t { network = put m t.network }) s r)
              (λ answer. pure (relayed answer))
    relays P s (done (ok res) m) =
        rw (P.serialize-packed res, received, P.deserialize-packed res) refl
    relays P s (done (err e) m) = refl
    relays P s (panicked m) = refl

    call-handle :
        {Request Answer : Type 0} {requests : Bincode Request} {answers : Bincode Answer}
        (Q : IsBincode requests) (P : IsBincode answers)
        (node : Request → Action M.World (Result Fault Answer))
        (send : Text → Bytes → Action N.World (Result Status Bytes)) (c : NetworkConnection)
        (req : Request) (s : Pools)
        → ((w : N.World) → N.openraft_connection c.addr w ≡ done (ok tt) w)
        → get_or (find_item (key_of c.addr) s.openraft_service_pools) c.addr ≡ c.addr
        → ((value : Bytes) (w : N.World)
            → send c.addr value w ≡ within get put (handle requests answers node value) w)
        → call requests answers send c req s ≡ at_node c.addr (node req) s
    unfolding call handle
    call-handle Q P node send c req s connects own sends =
        rw
          (
            client-pooled c.addr s connects own,
            Q.serialize-packed req,
            sends (Q.packed req) s.network,
            Q.deserialize-packed req,
          )
          (relays P (pooled c.addr s) (node req (get s.network)))

    replied :
        {Reply : Type 0} (make : Bytes → Reply) (value : Reply → Bytes) (w : N.World)
        → ((bytes : Bytes) → value (make bytes) ≡ bytes)
        → (r : Run M.World (Result Status Bytes))
        → continue
            (restored put w (continue r (λ result. pure (replies make result))))
            (λ reply. pure (value_of value reply))
          ≡ restored put w r
    replied make value w back (done (ok bytes) m) = rw (value_of, replies, back bytes) refl
    replied make value w back (done (err e) m) = refl
    replied make value w back (panicked m) = refl

    -- A vote request, an append request and a snapshot that are sent through a connection to an
    -- address behind which a node stands, where connections are made, the messages serialise and
    -- read back and the pool under the address's key is that of the address, have the effect and the answer of the call of that node,
    -- up to the state of the pools, which has a pool for the address afterwards: what the node
    -- answers comes back unchanged, and each of its errors as that of an unreachable node.
    pub vote-at_node :
        (A : AreRpcTypes T) (c : NetworkConnection) (s : Pools) (v : T.Vote) (a : T.Append)
        (i : T.Install)
        → Behind c.addr
        → get_or (find_item (key_of c.addr) s.openraft_service_pools) c.addr ≡ c.addr
        → (vote c v s ≡ at_node c.addr (M.vote v) s)
          × (append_entries c a s ≡ at_node c.addr (M.append_entries a) s)
          × (install_snapshot c i s ≡ at_node c.addr (M.install_snapshot i) s)
    unfolding vote append_entries install_snapshot Server.vote Server.append Server.snapshot handle
    vote-at_node A c s v a i behind own = (
      call-handle A.vote A.voted M.vote send_vote c v s behind.connects own (λ value w.
          rw (behind.votes (record { value = value }) w) (
            replied (λ bytes. record { value = bytes }) (λ (r : VoteReply). r.value) w
              (λ bytes. refl) (handle T.bincode_vote T.bincode_voted M.vote value (get w)))),
      call-handle A.append A.appended M.append_entries send_append c a s behind.connects own
          (λ value w. rw (behind.appends (record { value = value }) w) (
            replied (λ bytes. record { value = bytes }) (λ (r : AppendReply). r.value) w
              (λ bytes. refl)
              (handle T.bincode_append T.bincode_appended M.append_entries value (get w)))),
      call-handle A.install A.installed M.install_snapshot send_snapshot c i s behind.connects own
          (λ value w. rw (behind.installs (record { value = value }) w) (
            replied (λ bytes. record { value = bytes }) (λ (r : SnapshotReply). r.value) w
              (λ bytes. refl)
              (handle T.bincode_install T.bincode_installed M.install_snapshot value (get w)))),
    )

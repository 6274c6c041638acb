-- ===== src/Start/Idle.antt =====
-- What a started server makes of the requests that its key-value service is given.
use mathlib.Core.Path.{subst}
use mathlib.Core.Option
use robustmq_geek.Prelude.{
  ◌≡◌, ◌∙◌, refl, sym, ap, false, List, [], ◌∷◌, ◌||◌, Run, done, panicked, Action, ◌>>◌, pure,
  continue, restored, is_empty, Bool-cases, inl, inr, continue-returns, done-injective,
  panicked-done,
}
use robustmq_geek.External.Rocksdb.{Rocksdb}
use robustmq_geek.Protocol.Kv.{SetRequest, GetRequest, DeleteRequest, ExistsRequest}
use robustmq_geek.Storage.Kv.{KvFormats}
use robustmq_geek.Raft.Metadata.{RaftGroupMetadata}
use robustmq_geek.Raft.Metadata as Metadata
use robustmq_geek.Raft.Apply.{RaftTask}
use robustmq_geek.Clients.Pool.{Network, Pools}
use robustmq_geek.Clients.Calls.{ClientFormats}
use robustmq_geek.Clients.Placement.{placement_set, placement_delete}
use robustmq_geek.Server.Kv as Kv
use robustmq_geek.Server.Kv.{
  ServiceFormats, Services, with_pools, or_status, is_leader, leader_addr,
}

pub data KvRequest : Type 0 where
  set : SetRequest → KvRequest
  get : GetRequest → KvRequest
  delete : DeleteRequest → KvRequest
  exists : ExistsRequest → KvRequest

module _ ⦃R : Rocksdb⦄ ⦃N : Network⦄ ⦃T : RaftTask⦄ ⦃K : KvFormats⦄ ⦃F : ClientFormats⦄
    ⦃S : ServiceFormats⦄ where
  -- The handler of a request, without its reply.
  unfoldable pub serve : KvRequest → Action Services (Unit {0})
  serve (set req) = Kv.set req >> pure tt
  serve (get req) = Kv.get req >> pure tt
  serve (delete req) = Kv.delete req >> pure tt
  serve (exists req) = Kv.exists req >> pure tt

  unfoldable pub serve_all : List KvRequest → Action Services (Unit {0})
  serve_all [] = pure tt
  serve_all (req ∷ requests) = serve req >> serve_all requests

  -- The cluster metadata and the channel to the raft machine are as before.
  unfoldable pub Same : Services → Services → Type 0
  Same s s' =
      (s'.placement_cluster ≡ s.placement_cluster)
      × (s'.placement_center_storage ≡ s.placement_center_storage)

  Keeps : {A : Type 0} → Services → Run Services A → Type 0
  Keeps s (done a s') = Same s s'
  Keeps s (panicked s') = Same s s'

  forwarding-Keeps :
      {A B : Type 0} (s : Services) (run : Run Pools A) (f : A → B)
      → Keeps s (
          continue (restored (λ pools t. record t { client_poll = pools }) s run) (λ a. pure (f a)))
  unfolding Keeps Same
  forwarding-Keeps s (done a pools) f = (refl, refl)
  forwarding-Keeps s (panicked pools) f = (refl, refl)

  unfoldable pub Follower : Services → Type 0
  Follower s = Metadata.is_leader s.placement_cluster ≡ false

  set-Keeps : (req : SetRequest) (s : Services) → Follower s → Keeps s (Kv.set req s)
  unfolding Keeps Same Follower Kv.set is_leader leader_addr
  set-Keeps req s follows = elim (Bool-cases (is_empty req.key || is_empty req.value)) [
    | inl empty ↦ rw empty (refl, refl)
    | inr full ↦
        rw (full, follows)
          (forwarding-Keeps s
            (placement_set (Metadata.leader_addr s.placement_cluster ∷ []) req s.client_poll)
            (Option.map or_status))
  ]

  delete-Keeps : (req : DeleteRequest) (s : Services) → Follower s → Keeps s (Kv.delete req s)
  unfolding Keeps Same Follower Kv.delete is_leader leader_addr
  delete-Keeps req s follows = elim (Bool-cases (is_empty req.key)) [
    | inl empty ↦ rw empty (refl, refl)
    | inr full ↦
        rw (full, follows)
          (forwarding-Keeps s
            (placement_delete (Metadata.leader_addr s.placement_cluster ∷ []) req s.client_poll)
            (Option.map or_status))
  ]

  get-Keeps : (req : GetRequest) (s : Services) → Keeps s (Kv.get req s)
  unfolding Keeps Same Kv.get
  get-Keeps req s = elim (Bool-cases (is_empty req.key)) [
    | inl empty ↦ rw empty (refl, refl)
    | inr full ↦ rw full (refl, refl)
  ]

  exists-Keeps : (req : ExistsRequest) (s : Services) → Keeps s (Kv.exists req s)
  unfolding Keeps Same Kv.exists
  exists-Keeps req s = elim (Bool-cases (is_empty req.key)) [
    | inl empty ↦ rw empty (refl, refl)
    | inr full ↦ rw full (refl, refl)
  ]

  dropped-Keeps :
      {A : Type 0} (s s' : Services) (run : Run Services A)
      → Keeps s run
      → continue run (λ _. pure tt) ≡ done tt s'
      → Same s s'
  unfolding Keeps
  dropped-Keeps s s' (done a t) keeps p = subst (Same s) (done-injective p).1 keeps
  dropped-Keeps s s' (panicked t) keeps p = elim (panicked-done p) [ ]

  serve-keeps :
      (req : KvRequest) (s s' : Services) → Follower s → serve req s ≡ done tt s' → Same s s'
  unfolding serve
  serve-keeps (set req) s s' follows = dropped-Keeps s s' (Kv.set req s) (set-Keeps req s follows)
  serve-keeps (get req) s s' follows = dropped-Keeps s s' (Kv.get req s) (get-Keeps req s)
  serve-keeps (delete req) s s' follows =
      dropped-Keeps s s' (Kv.delete req s) (delete-Keeps req s follows)
  serve-keeps (exists req) s s' follows = dropped-Keeps s s' (Kv.exists req s) (exists-Keeps req s)

  pub serve_all-keeps :
      (requests : List KvRequest) (s s' : Services)
      → Follower s
      → serve_all requests s ≡ done tt s'
      → Same s s'
  unfolding serve_all Same Follower
  serve_all-keeps [] s s' follows p =
      let still = (done-injective p).1 in
      (ap (λ x. x.placement_cluster) (sym still), ap (λ x. x.placement_center_storage) (sym still))
  serve_all-keeps (req ∷ requests) s s' follows p =
      let (_, t, first, rest) = continue-returns (serve req s) (λ _. serve_all requests) tt s' p in
      let (c, w) = serve-keeps req s t follows first in
      let (c', w') = serve_all-keeps requests t s' (ap Metadata.is_leader c ∙ follows) rest in
      (c' ∙ c, w' ∙ w)

-- ===== src/Start/Writes.antt =====
-- The writes that clients ask a started server for.
use mathlib.Core.Path.{subst}
use robustmq_geek.Prelude.{
  ◌≡◌, ◌∙◌, refl, ap, false, List, [], ◌||◌, some, done, Action, ◌>>=◌, pure, unwrap_some, is_empty,
  continue-returns, unwrap_some-returns, arith,
}
use robustmq_geek.Common.Tools.{Files}
use robustmq_geek.Common.Config.{PlacementCenterConfig, placement_center_conf}
use robustmq_geek.External.Rocksdb.{Rocksdb}
use robustmq_geek.External.Opening.{Opening}
use robustmq_geek.External.Toml.{Toml}
use robustmq_geek.External.OpenRaft.{Wal}
use robustmq_geek.Protocol.Kv.{SetRequest, DeleteRequest}
use robustmq_geek.Storage.Kv.{KvFormats}
use robustmq_geek.Storage.Raft.{RaftMachineStorage, RaftFormats}
use robustmq_geek.Storage.Raft.Snapshots.{load, fresh}
use robustmq_geek.Storage.Rocksdb.Open as RocksdbEngine
use robustmq_geek.Raft.Metadata.{RaftGroupMetadata}
use robustmq_geek.Raft.Metadata as Metadata
use robustmq_geek.Raft.Metadata.Start as Start
use robustmq_geek.Raft.Apply.{RaftTask}
use robustmq_geek.Clients.Pool.{Network}
use robustmq_geek.Clients.Calls.{ClientFormats}
use robustmq_geek.Clients.Calls as Calls
use robustmq_geek.OpenRaft.Types.{SnapshotFormats, Shared}
use robustmq_geek.Server.Kv.{ServiceFormats, Services, set, delete}
use robustmq_geek.Server.Kv.Replies.{forwarded, set-forwards}
use robustmq_geek.Start.{
  RaftCrate, State, Server, on_process, on_disk, server_of, start_parts, start_server,
  create_raft_node, run_made,
}
use robustmq_geek.Start.Idle.{KvRequest, serve_all, Follower, Same, serve_all-keeps}

new-follows :
    ⦃T : Toml⦄ (config : PlacementCenterConfig T.Value) (cluster : RaftGroupMetadata)
    → Start.new config ≡ some cluster
    → (Metadata.is_leader cluster ≡ false) × (Metadata.leader_addr cluster ≡ [])
unfolding Start.new Metadata.is_leader Metadata.leader_addr
new-follows config cluster e = (ground arith, ground arith)

module _ ⦃R : Rocksdb⦄ ⦃O : Opening R⦄ ⦃G : SnapshotFormats⦄ ⦃W : Wal R⦄ ⦃C : RaftCrate R.Db⦄
    ⦃D : Files⦄ ⦃T : Toml⦄ ⦃N : Network⦄ ⦃K : RaftTask⦄ ⦃E : RaftFormats⦄ where
  FollowsIdle : K.World → Server → Type 0
  FollowsIdle channel started =
      (Metadata.is_leader started.kv_services.placement_cluster ≡ false)
      × (Metadata.leader_addr started.kv_services.placement_cluster ≡ [])
      × (started.kv_services.placement_center_storage ≡ channel)

  server_of-follows :
      (config : PlacementCenterConfig T.Value) (channel : K.World) (network : N.World)
      (cluster : RaftGroupMetadata) (storage : RaftMachineStorage R.Db)
      (created : C.Node × Shared R.Db) (started : Server)
      → Start.new config ≡ some cluster
      → server_of config channel network cluster storage created ≡ started
      → FollowsIdle channel started
  unfolding FollowsIdle
  server_of-follows config channel network cluster storage created started made same =
      let (follows, nowhere) = new-follows config cluster made in
      subst (FollowsIdle channel) same (follows, nowhere, refl)

  abbrev finish :
      PlacementCenterConfig T.Value
      → K.World
      → N.World
      → RaftGroupMetadata
      → Unit {0} × RaftMachineStorage R.Db
      → Action State Server
  finish config channel network cluster loaded = on_disk (create_raft_node config) >>= λ created.
      pure (server_of config channel network cluster loaded.1 created)

  start_server-follows :
      (channel : K.World) (network : N.World) (o o' : State) (started : Server)
      → start_server channel network o ≡ done started o'
      → FollowsIdle channel started
  unfolding start_server start_parts
  start_server-follows channel network o o' started p =
      let (config, s1, _, p1) =
        continue-returns (on_process placement_center_conf o)
          (λ config. unwrap_some (Start.new config) >>= start_parts config channel network) started
          o' p in
      let (cluster, s2, made, p2) =
        continue-returns (unwrap_some (Start.new config) s1) (start_parts config channel network)
          started o' p1 in
      let (db, s3, _, p3) =
        continue-returns (on_disk (RocksdbEngine.new config) s2)
          (λ db.
            run_made (load (fresh db)) >>= λ loaded. finish config channel network cluster loaded)
          started o' p2 in
      let (loaded, s4, _, p4) =
        continue-returns (run_made (load (fresh db)) s3) (finish config channel network cluster)
          started o' p3 in
      let (created, s5, _, p5) =
        continue-returns (on_disk (create_raft_node config) s4)
          (λ created. pure (server_of config channel network cluster loaded.1 created)) started o'
          p4 in
      server_of-follows config channel network cluster loaded.1 created started
        (unwrap_some-returns (Start.new config) cluster s1 s2 made).0 (ap_done p5)
    where
      ap_done : {A S : Type 0} {a b : A} {s t : S} → done a s ≡ done b t → a ≡ b
      ap_done p = cc

  module _ ⦃L : KvFormats⦄ ⦃F : ClientFormats⦄ ⦃S : ServiceFormats⦄ where
    -- A server that has started, after any requests to its key-value service that return, has
    -- handed nothing to the raft machine, and whatever is set or deleted with nothing empty is
    -- tried at the empty address, up to four times.
    pub start_server-forwards :
        (channel : K.World) (network : N.World) (o o' : State) (started : Server)
        (requests : List KvRequest) (s : Services) (req : SetRequest) (del : DeleteRequest)
        → start_server channel network o ≡ done started o'
        → serve_all requests started.kv_services ≡ done tt s
        → (is_empty req.key || is_empty req.value) ≡ false
        → is_empty del.key ≡ false
        → (s.placement_center_storage ≡ channel)
          × (set req s ≡ forwarded Calls.set [] (F.set_request.encode_to_vec req) s)
          × (delete del s ≡ forwarded Calls.delete [] (F.delete_request.encode_to_vec del) s)
    unfolding Follower Same FollowsIdle
    start_server-forwards channel network o o' started requests s req del p served full keyed =
        let (follows, nowhere, idle) = start_server-follows channel network o o' started p in
        let (c, w) = serve_all-keeps requests started.kv_services s follows served in
        let addr = ap Metadata.leader_addr c ∙ nowhere in
        let (sets, deletes) =
          set-forwards req del s (ap Metadata.is_leader c ∙ follows) full keyed in
        (
          w ∙ idle,
          sets ∙ ap (λ a. forwarded Calls.set a (F.set_request.encode_to_vec req) s) addr,
          deletes ∙ ap (λ a. forwarded Calls.delete a (F.delete_request.encode_to_vec del) s) addr,
        )

-- ===== src/Server/KvNew.antt =====
-- placement-center/src/server/grpc/services_kv_new.rs: `GrpcKvServices` over openraft. Its `get` and
-- `exists` are those of services_kv.rs, on the same store.
pub mod Written
use robustmq_geek.Prelude.{
  ◌≡◌, false, ◌||◌, codes, Result, ok, err, if◌then◌else◌, is_empty, done, Action, ◌>>=◌, pure,
  gets, within, Bool-cases, inl, inr,
}
use robustmq_geek.Common.Errors.{Fault, Status, cancelled, parameter_cannot_be_null}
use robustmq_geek.External.Rocksdb.{Rocksdb}
use robustmq_geek.Protocol.Kv.{
  SetRequest, GetRequest, DeleteRequest, ExistsRequest, GetReply, ExistsReply, CommonReply,
  common_reply,
}
use robustmq_geek.Storage.Kv.{KvFormats}
use robustmq_geek.Storage.Kv as KvStorage
use robustmq_geek.OpenRaft.Types.{AppRequestData}
use robustmq_geek.Server.Kv.{ServiceFormats, refuse, get_reply, exists_reply}

-- The openraft node: a write is proposed and its end awaited.
pub record ClientWrite : Type 1 where
  pub World : Type 0
  pub client_write : AppRequestData → Action World (Result Fault (Unit {0}))

pub record Services (World Db : Type 0) : Type 0 where
  pub raft_node : World
  pub rocksdb_engine_handler : Db

abbrev pub written : Result Fault (Unit {0}) → Result Status CommonReply
written (ok _) = ok common_reply
written (err e) = err (cancelled e.display)

module _ ⦃R : Rocksdb⦄ ⦃C : ClientWrite⦄ ⦃K : KvFormats⦄ ⦃S : ServiceFormats⦄ where
  abbrev pub Node : Type 0
  Node = Services C.World R.Db

  abbrev pub with_raft : {A : Type 0} → Action C.World A → Action Node A
  with_raft = within (λ s. s.raft_node) (λ w s. record s { raft_node = w })

  -- The key and the value of the request are not used.
  unfoldable pub set : SetRequest → Action Node (Result Status CommonReply)
  set req =
      if is_empty req.key || is_empty req.value
      then pure (refuse (parameter_cannot_be_null (codes "key or value")))
      else do
        result ← with_raft (C.client_write (AppRequestData.set (codes "k1") (codes "v1")))
        pure (written result)

  unfoldable pub delete : DeleteRequest → Action Node (Result Status CommonReply)
  delete req =
      if is_empty req.key then pure (refuse (parameter_cannot_be_null (codes "key"))) else do
        result ← with_raft (C.client_write (AppRequestData.delete (codes "k1")))
        pure (written result)

  unfoldable pub get : GetRequest → Action Node (Result Status GetReply)
  get req = if is_empty req.key then pure (refuse (parameter_cannot_be_null (codes "key"))) else do
    found ← gets (λ s. KvStorage.get req.key s.rocksdb_engine_handler)
    pure (get_reply found)

  unfoldable pub exists : ExistsRequest → Action Node (Result Status ExistsReply)
  exists req =
      if is_empty req.key then pure (refuse (parameter_cannot_be_null (codes "key"))) else do
        found ← gets (λ s. KvStorage.exists req.key s.rocksdb_engine_handler)
        pure (exists_reply found)

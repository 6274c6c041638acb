-- ===== src/Storage/Kv.antt =====
-- placement-center/src/storage/kv.rs: `KvStorage`. Its only field is the engine.
pub mod RoundTrip
pub mod History
use robustmq_geek.Prelude.{ℕ, Bool, Option, none, some, Text, Result, ok, err}
use robustmq_geek.Common.Errors.{RobustMqError, serde_json_error}
use robustmq_geek.External.Rocksdb.{Rocksdb}
use robustmq_geek.External.Formats.{Json, IsJson}
use robustmq_geek.Storage.Engine.{
  StorageDataWrap, engine_save_by_cluster, engine_get_by_cluster, engine_delete_by_cluster,
  engine_exists_by_cluster,
}

pub record KvFormats : Type 0 where
  pub json_string : Json Text
  pub json_wrap : Json StorageDataWrap

pub record AreKvFormats (F : KvFormats) : Type 0 where
  pub string : IsJson F.json_string
  pub wrap : IsJson F.json_wrap

module _ ⦃R : Rocksdb⦄ ⦃F : KvFormats⦄ where
  unfoldable pub set : Text → Text → ℕ → R.Db → Result RobustMqError (Unit {0}) × R.Db
  unfolding engine_save_by_cluster
  set key value now_second db =
      engine_save_by_cluster F.json_wrap F.json_string key value now_second db

  unfoldable pub get : Text → R.Db → Result RobustMqError (Option Text)
  unfolding engine_get_by_cluster
  get key db = elim (engine_get_by_cluster F.json_wrap key db) [
    | ok (some found) ↦ elim (F.json_string.from_slice found.bytes) [
      | ok text ↦ ok (some text)
      | err e ↦ err (serde_json_error e)
    ]
    | ok none ↦ ok none
    | err e ↦ err e
  ]

module _ ⦃R : Rocksdb⦄ where
  unfoldable pub delete : Text → R.Db → Result RobustMqError (Unit {0}) × R.Db
  unfolding engine_delete_by_cluster
  delete key db = engine_delete_by_cluster key db

  unfoldable pub exists : Text → R.Db → Result RobustMqError Bool
  unfolding engine_exists_by_cluster
  exists key db = engine_exists_by_cluster key db

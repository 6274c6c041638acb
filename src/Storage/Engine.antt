-- ===== src/Storage/Engine.antt =====
-- placement-center/src/storage/engine.rs, and `StorageDataWrap` of storage/mod.rs. The time that
-- `now_second()` reads is an argument.
use mathlib.Core.Option
use robustmq_geek.Prelude.{ℕ, Bool, Option, none, some, List, [], ◌∷◌}
use robustmq_geek.Prelude.{Bytes, Text, eq_bytes, Result, ok, err, if◌then◌else◌}
use robustmq_geek.Common.Errors.{RobustMqError, cluster_no_available_node, commmon_error}
use robustmq_geek.External.Rocksdb.{Rocksdb}
use robustmq_geek.External.Formats.{Json}
use robustmq_geek.Storage.Rocksdb.{db_column_family_cluster, cf_cluster}
use robustmq_geek.Storage.Rocksdb.{write, read, read_prefix, delete, exist}

pub record StorageDataWrap : Type 0 where
  pub bytes : Bytes
  pub create_time : ℕ

-- `StorageDataWrap::new`
abbrev pub new_wrap : Bytes → ℕ → StorageDataWrap
new_wrap content now_second = record { bytes = content; create_time = now_second }

-- The error of a write, as the engine passes it on.
abbrev saved : Result Text (Unit {0}) → Result RobustMqError (Unit {0})
saved (ok u) = ok u
saved (err e) = err (commmon_error e)

-- The second loop of `engine_prefix_list`: what does not parse is skipped.
parse_wraps : Json StorageDataWrap → List (Text × Bytes) → List StorageDataWrap
parse_wraps json [] = []
parse_wraps json ((_, v) ∷ data_list) = elim (json.from_slice v) [
  | ok wrap ↦ wrap ∷ parse_wraps json data_list
  | err e ↦ parse_wraps json data_list
]

module _ ⦃R : Rocksdb⦄ (json_wrap : Json StorageDataWrap) where
  unfoldable pub engine_save :
      {T : Type 0} → Json T → Text → Text → T → ℕ → R.Db → Result RobustMqError (Unit {0}) × R.Db
  engine_save json rocksdb_cluster key_name value now_second db =
      if eq_bytes rocksdb_cluster db_column_family_cluster
      then elim (json.to_vec value) [
        | ok content ↦
            let (result, db') =
              write json_wrap cf_cluster key_name (new_wrap content now_second) db in
            (saved result, db')
        | err e ↦ (err (commmon_error e.display), db)
      ]
      else (err cluster_no_available_node, db)

  unfoldable pub engine_get : Text → Text → R.Db → Result RobustMqError (Option StorageDataWrap)
  engine_get rocksdb_cluster key_name db =
      if eq_bytes rocksdb_cluster db_column_family_cluster
      then elim (read json_wrap cf_cluster key_name db) [
        | ok (some found) ↦ ok (some found)
        | ok none ↦ ok none
        | err e ↦ err (commmon_error e)
      ]
      else err cluster_no_available_node

  -- `none` is a scan that does not end within the rounds; see `read_prefix`.
  unfoldable pub engine_prefix_list :
      ℕ → Text → Text → R.Db → Result RobustMqError (Option (List StorageDataWrap))
  unfolding parse_wraps
  engine_prefix_list rounds rocksdb_cluster prefix_key_name db =
      if eq_bytes rocksdb_cluster db_column_family_cluster
      then ok
          (Option.map (parse_wraps json_wrap) (read_prefix rounds cf_cluster prefix_key_name db))
      else err cluster_no_available_node

  unfoldable pub engine_save_by_cluster :
      {T : Type 0} → Json T → Text → T → ℕ → R.Db → Result RobustMqError (Unit {0}) × R.Db
  unfolding engine_save
  engine_save_by_cluster json = engine_save json db_column_family_cluster

  unfoldable pub engine_get_by_cluster : Text → R.Db → Result RobustMqError (Option StorageDataWrap)
  unfolding engine_get
  engine_get_by_cluster = engine_get db_column_family_cluster

  unfoldable pub engine_prefix_list_by_cluster :
      ℕ → Text → R.Db → Result RobustMqError (Option (List StorageDataWrap))
  unfolding engine_prefix_list
  engine_prefix_list_by_cluster rounds = engine_prefix_list rounds db_column_family_cluster

module _ ⦃R : Rocksdb⦄ where
  unfoldable pub engine_delete : Text → Text → R.Db → Result RobustMqError (Unit {0}) × R.Db
  engine_delete rocksdb_cluster key_name db =
      if eq_bytes rocksdb_cluster db_column_family_cluster
      then delete cf_cluster key_name db
      else (err cluster_no_available_node, db)

  unfoldable pub engine_exists : Text → Text → R.Db → Result RobustMqError Bool
  engine_exists rocksdb_cluster key_name db =
      if eq_bytes rocksdb_cluster db_column_family_cluster
      then ok (exist cf_cluster key_name db)
      else err cluster_no_available_node

  unfoldable pub engine_delete_by_cluster : Text → R.Db → Result RobustMqError (Unit {0}) × R.Db
  unfolding engine_delete
  engine_delete_by_cluster = engine_delete db_column_family_cluster

  unfoldable pub engine_exists_by_cluster : Text → R.Db → Result RobustMqError Bool
  unfolding engine_exists
  engine_exists_by_cluster = engine_exists db_column_family_cluster

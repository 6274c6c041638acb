-- ===== src/External/Opening.antt =====
-- The calls of the `rocksdb` crate that open a database on a disk.
use robustmq_geek.Prelude.{
  ◌≡◌, ℕ, Bool, true, false, List, [], ◌∷◌, Text, eq_bytes, Result, ok, ◌||◌, Action, done,
}
use robustmq_geek.Common.Errors.{Fault}
use robustmq_geek.External.Rocksdb.{Rocksdb}

-- The methods of `Options` that set one, with what they set.
pub data Setting : Type 0 where
  create_if_missing create_missing_column_families set_use_fsync set_disable_auto_compactions :
      Bool → Setting
  set_max_open_files set_bytes_per_sync optimize_for_point_lookup set_table_cache_num_shard_bits
        set_max_write_buffer_number set_write_buffer_size set_target_file_size_base
        set_min_write_buffer_number_to_merge set_level_zero_stop_writes_trigger
        set_level_zero_slowdown_writes_trigger :
      ℕ → Setting
  set_compaction_style_universal : Setting
  set_prefix_extractor_of_fixed : ℕ → Setting
  set_memtable_prefix_bloom_tenths : ℕ → Setting

abbrev pub Options : Type 0
Options = List Setting

pub record Opening (R : Rocksdb) : Type 1 where
  pub Disk : Type 0
  pub exists : Text → Disk → Bool
  pub open_db : Options → Text → Action Disk (Result Fault R.Db)
  pub list_cf : Options → Text → Disk → Result Fault (List Text)
  pub open_cf : Options → Text → List Text → Action Disk (Result Fault R.Db)
  pub create_cf : R.Db → Text → Options → Result Fault (Unit {0}) × R.Db

abbrev pub is_among : Text → List Text → Bool
is_among name [] = false
is_among name (other ∷ names) = eq_bytes name other || is_among name names

-- A database has the families that it was opened with and those that are created in it.
pub record IsOpening {R : Rocksdb} (O : Opening R) : Type 0 where
  pub has_family : Text → R.Db → Bool
  pub open_cf-has_family :
      (opts : Options) (path : Text) (families : List Text) (disk disk' : O.Disk) (db : R.Db)
      (name : Text)
      → O.open_cf opts path families disk ≡ done (ok db) disk'
      → is_among name families ≡ true
      → has_family name db ≡ true
  pub create_cf-creates :
      (db : R.Db) (name : Text) (opts : Options)
      → (O.create_cf db name opts).0 ≡ ok tt
      → has_family name (O.create_cf db name opts).1 ≡ true

-- ===== src/Storage/Rocksdb/Open.antt =====
-- placement-center/src/storage/rocksdb.rs: `open_db_opts` and `RocksDBEngine::new`.
use mathlib.Core.Path.{subst}
use robustmq_geek.Prelude.{
  ◌≡◌, ◌∙◌, ap, true, false, List, [], ◌∷◌, ◌++◌, Text, codes, ok, err, done, Action, ◌>>=◌, ◌>>◌,
  pure, panic, gets, unwrap, if◌then◌else◌, Bool-cases, Result-cases, done-injective, panicked-done,
  continue-returns, unwrap-returns, inl, inr,
}
use robustmq_geek.Common.Config.{PlacementCenterConfig}
use robustmq_geek.External.Rocksdb.{Rocksdb}
use robustmq_geek.External.Opening.{
  Options, Opening, IsOpening, is_among, create_if_missing, create_missing_column_families,
  set_max_open_files, set_use_fsync, set_bytes_per_sync, optimize_for_point_lookup,
  set_table_cache_num_shard_bits, set_max_write_buffer_number, set_write_buffer_size,
  set_target_file_size_base, set_min_write_buffer_number_to_merge,
  set_level_zero_stop_writes_trigger, set_level_zero_slowdown_writes_trigger,
  set_compaction_style_universal, set_disable_auto_compactions, set_prefix_extractor_of_fixed,
  set_memtable_prefix_bloom_tenths,
}
use robustmq_geek.Storage.Rocksdb.{column_family_list, cf_cluster}

unfoldable pub open_db_opts : Options
open_db_opts =
    create_if_missing true
    ∷ create_missing_column_families true
    ∷ set_max_open_files 1000
    ∷ set_use_fsync false
    ∷ set_bytes_per_sync 8388608
    ∷ optimize_for_point_lookup 1024
    ∷ set_table_cache_num_shard_bits 6
    ∷ set_max_write_buffer_number 32
    ∷ set_write_buffer_size 536870912
    ∷ set_target_file_size_base 1073741824
    ∷ set_min_write_buffer_number_to_merge 4
    ∷ set_level_zero_stop_writes_trigger 2000
    ∷ set_level_zero_slowdown_writes_trigger 0
    ∷ set_compaction_style_universal
    ∷ set_disable_auto_compactions true
    ∷ set_prefix_extractor_of_fixed 10
    ∷ set_memtable_prefix_bloom_tenths 2
    ∷ []

abbrev pub db_path : {Value : Type 0} → PlacementCenterConfig Value → Text
db_path config = config.data_path ++ codes "/_storage_rocksdb"

module _ ⦃R : Rocksdb⦄ ⦃O : Opening R⦄ where
  -- The loop over `column_family_list()`.
  unfoldable pub create_families : List Text → List Text → R.Db → Action O.Disk R.Db
  unfolding open_db_opts
  create_families cf_list [] db = pure db
  create_families cf_list (family ∷ families) db =
      if is_among family cf_list
      then create_families cf_list families db
      else (let (result, created) = O.create_cf db family open_db_opts in
          elim result [ ok _ ↦ create_families cf_list families created | err e ↦ panic ])

  -- The database is made where there is none.
  abbrev ensure_db : Text → Action O.Disk (Unit {0})
  unfolding open_db_opts
  ensure_db path = do
    there ← gets (O.exists path)
    if there then pure tt else do opened ← O.open_db open_db_opts path; unwrap opened; pure tt

  unfoldable pub open_listed : Text → List Text → Action O.Disk R.Db
  unfolding create_families column_family_list open_db_opts
  open_listed path cf_list = do
    opened ← O.open_cf open_db_opts path cf_list
    unwrap opened >>= create_families cf_list column_family_list

  unfoldable pub new : {Value : Type 0} → PlacementCenterConfig Value → Action O.Disk R.Db
  unfolding open_listed open_db_opts ensure_db
  new config = do
    ensure_db (db_path config)
    listed ← gets (O.list_cf open_db_opts (db_path config))
    unwrap listed >>= open_listed (db_path config)

  create_families-has_cluster :
      (I : IsOpening O) (cf_list : List Text) (opened db : R.Db) (disk disk' : O.Disk)
      → (is_among cf_cluster cf_list ≡ true → I.has_family cf_cluster opened ≡ true)
      → create_families cf_list (cf_cluster ∷ []) opened disk ≡ done db disk'
      → I.has_family cf_cluster db ≡ true
  unfolding create_families
  create_families-has_cluster I cf_list opened db disk disk' has p =
      elim (Bool-cases (is_among cf_cluster cf_list)) [
        | inl listed ↦
            subst (λ d. I.has_family cf_cluster d ≡ true) (done-injective (rw listed at p)).0
              (has listed)
        | inr missing ↦ elim (Result-cases (O.create_cf opened cf_cluster open_db_opts).0) [
          | inl (u, creates) ↦
              subst (λ d. I.has_family cf_cluster d ≡ true)
                (done-injective (rw (missing, creates) at p)).0
                (I.create_cf-creates opened cf_cluster open_db_opts creates)
          | inr (e, fails) ↦ elim (panicked-done (rw (missing, fails) at p)) [ ]
        ]
      ]

  -- An engine that `new` makes has the family "cluster", whether the database was on the disk
  -- before or not, and whichever families it had.
  pub new-has_cluster :
      (I : IsOpening O) {Value : Type 0} (config : PlacementCenterConfig Value)
      (disk disk' : O.Disk) (db : R.Db)
      → new config disk ≡ done db disk'
      → I.has_family cf_cluster db ≡ true
  unfolding new open_listed column_family_list
  new-has_cluster I config disk disk' db p =
      let path = db_path config in
      let (_, s1, _, p1) =
        continue-returns (ensure_db path disk)
          (λ _ d. (unwrap (O.list_cf open_db_opts path d) >>= open_listed path) d) db disk' p in
      let (cf_list, s2, _, p2) =
        continue-returns (unwrap (O.list_cf open_db_opts path s1) s1) (open_listed path) db disk'
          p1 in
      let (result, s3, opens, p3) =
        continue-returns (O.open_cf open_db_opts path cf_list s2)
          (λ opened. unwrap opened >>= create_families cf_list column_family_list) db disk' p2 in
      let (opened, s4, there, p4) =
        continue-returns (unwrap result s3) (create_families cf_list column_family_list) db disk'
          p3 in
      let whole = opens ∙ ap (λ r. done r s3) (unwrap-returns result opened s3 s4 there).0 in
      create_families-has_cluster I cf_list opened db s4 disk'
        (I.open_cf-has_family open_db_opts path cf_list s2 s3 opened cf_cluster whole) p4

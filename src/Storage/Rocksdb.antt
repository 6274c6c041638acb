-- ===== src/Storage/Rocksdb.antt =====
-- placement-center/src/storage/rocksdb.rs: `RocksDBEngine`. Its only field is the database, which
-- the methods that write return anew. `cf_cluster().unwrap()` cannot fail on an engine that `new`
-- made, since `new` creates the family; a handle is the family's name here.
pub mod ReadWrite
pub mod Scan
pub mod Open
use mathlib.Core.Option
use robustmq_geek.Prelude.{
  ℕ, zero, suc, map, ◌≡◌, Bool, true, false, Option, none, some, List, [], ◌∷◌, ◌++◌, ◌&&◌,
}
use robustmq_geek.Prelude.{Bytes, Text, codes, Result, ok, err, is_utf8, starts_with, if◌then◌else◌}
use robustmq_geek.Common.Errors.{Fault, RobustMqError, rocksdb_error}
use robustmq_geek.External.Rocksdb.{Rocksdb}
use robustmq_geek.External.Formats.{Json}

abbrev pub db_column_family_cluster : Text
db_column_family_cluster = codes "cluster"

abbrev pub cf_cluster : Text
cf_cluster = db_column_family_cluster

abbrev pub get_column_family : Text
get_column_family = cf_cluster

unfoldable pub column_family_list : List Text
column_family_list = db_column_family_cluster ∷ []

abbrev failed : Text → Result Fault (Unit {0}) → Result Text (Unit {0})
failed message (ok u) = ok u
failed message (err e) = err (message ++ e.debug)

-- `String::from_utf8(bytes)`; the text of its error is the caller's business.
abbrev pub from_utf8 : Bytes → Option Text
from_utf8 bytes = if is_utf8 bytes then some bytes else none

parsed : {A : Type 0} → Result Fault A → Result Text (Option A)
parsed (ok t) = ok (some t)
parsed (err e) = err (codes "Failed to deserialize: " ++ e.debug)

-- The scan of `read_prefix` over what the iterator passes. A key that is not UTF-8 makes the
-- loop go round without `iter.next()`, so the iterator stays where it is: the fuel counts the
-- rounds, and `none` is a scan that is still running when it is spent. Each element of the
-- result is a map of one entry.
unfoldable pub scan_prefix : ℕ → Text → List (Bytes × Bytes) → Option (List (Text × Bytes))
scan_prefix zero search_key iter = none
scan_prefix (suc rounds) search_key [] = some []
scan_prefix (suc rounds) search_key ((key, value) ∷ iter) =
    let again = scan_prefix rounds search_key ((key, value) ∷ iter) in
    let more = Option.map (λ result. (key, value) ∷ result) (scan_prefix rounds search_key iter) in
    if is_utf8 key then (if starts_with key search_key then more else some []) else again

-- A Rust `HashMap<String, String>`, as the list of its entries.
abbrev pub Raw : Type 0
Raw = List (Text × Text)

unfoldable pub utf8_items : List (Bytes × Bytes) → List Raw
utf8_items [] = []
utf8_items ((key, val) ∷ iter) =
    let rest = utf8_items iter in
    if is_utf8 key && is_utf8 val then ((key, val) ∷ []) ∷ rest else rest

module _ ⦃R : Rocksdb⦄ where
  unfoldable pub write :
      {A : Type 0} → Json A → Text → Text → A → R.Db → Result Text (Unit {0}) × R.Db
  write json cf key value db = elim (json.to_string value) [
    | ok serialized ↦
        let (result, db') = R.put_cf db cf key serialized in
        (failed (codes "Failed to put to ColumnFamily:") result, db')
    | err e ↦ (
      err (
          codes "Failed to serialize to String. T: "
          ++ (json.debug value ++ (codes ", err: " ++ e.debug))),
      db,
    )
  ]

  unfoldable pub write_str : Text → Text → Text → R.Db → Result Text (Unit {0}) × R.Db
  write_str cf key value db =
      let (result, db') = R.put_cf db cf key value in
      (failed (codes "Failed to put to ColumnFamily:") result, db')

  -- The `Debug` text of the UTF-8 error is left out: no caller reads it.
  unfoldable pub read : {A : Type 0} → Json A → Text → Text → R.Db → Result Text (Option A)
  unfolding parsed
  read json cf key db = elim (R.get_cf db cf key) [
    | ok none ↦ ok none
    | ok (some found) ↦
        if is_utf8 found
        then parsed (json.from_str found)
        else err (codes "Failed to deserialize: ")
    | err e ↦ err (codes "Failed to get from ColumnFamily: " ++ e.debug)
  ]

  unfoldable pub read_prefix : ℕ → Text → Text → R.Db → Option (List (Text × Bytes))
  unfolding scan_prefix
  read_prefix rounds cf search_key db = scan_prefix rounds search_key (R.iterate db cf search_key)

  unfoldable pub read_all_by_cf : Text → R.Db → List Raw
  unfolding utf8_items
  read_all_by_cf cf db = utf8_items (R.iterate db cf [])

  -- The map from the one family to its entries.
  unfoldable pub read_all : R.Db → List (Text × List Raw)
  unfolding column_family_list read_all_by_cf
  read_all db = map (λ family. (family, read_all_by_cf get_column_family db)) column_family_list

  unfoldable pub delete : Text → Text → R.Db → Result RobustMqError (Unit {0}) × R.Db
  delete cf key db =
      let (result, db') = R.delete_cf db cf key in
      (elim result [ ok u ↦ ok u | err e ↦ err (rocksdb_error e) ], db')

  unfoldable pub exist : Text → Text → R.Db → Bool
  exist cf key db = R.key_may_exist_cf db cf key

-- ===== src/External/Rocksdb.antt =====
-- The calls of the `rocksdb` crate that the storage makes. A column family is known by its name.
use robustmq_geek.Prelude.{◌≡◌, ◌≢◌, Bool, true, false, Option, none, some, List, [], ◌∷◌, ◌&&◌}
use robustmq_geek.Prelude.{Bytes, Text, eq_bytes, Result, ok, ltb, ◌==◌, if◌then◌else◌}
use robustmq_geek.Common.Errors.{Fault}

pub record Rocksdb : Type 1 where
  pub Db : Type 0
  pub put_cf : Db → Text → Bytes → Bytes → Result Fault (Unit {0}) × Db
  pub get_cf : Db → Text → Bytes → Result Fault (Option Bytes)
  pub delete_cf : Db → Text → Bytes → Result Fault (Unit {0}) × Db
  pub key_may_exist_cf : Db → Text → Bytes → Bool
  -- What a raw iterator passes over, from the first key that is not below the given one.
  pub iterate : Db → Text → Bytes → List (Bytes × Bytes)

-- The order of keys: bytewise, a proper prefix first.
abbrev pub le_bytes : Bytes → Bytes → Bool
le_bytes [] _ = true
le_bytes (_ ∷ _) [] = false
le_bytes (a ∷ as') (b ∷ bs) =
    let rest = le_bytes as' bs in if ltb a b then true else if a == b then rest else false

abbrev pub AllFrom : Bytes → List (Bytes × Bytes) → Type 0
AllFrom k [] = Unit
AllFrom k ((j, _) ∷ l) = (le_bytes k j ≡ true) × AllFrom k l

abbrev pub IsAscending : List (Bytes × Bytes) → Type 0
IsAscending [] = Unit
IsAscending ((k, _) ∷ l) = AllFrom k l × IsAscending l

unfoldable pub find_item : Bytes → List (Bytes × Bytes) → Option Bytes
find_item k [] = none
find_item k ((j, v) ∷ l) = if eq_bytes k j then some v else find_item k l

-- The documented behaviour of a database that meets no I/O error: a read gives what was last put,
-- a deleted key has no value, the bloom filter has no false negative, and an iterator passes over
-- the keys that have a value, in ascending order.
pub record IsDatabase (R : Rocksdb) : Type 0 where
  pub healthy : R.Db → Bool
  pub find : R.Db → Text → Bytes → Option Bytes
  pub get-find :
      (d : R.Db) (cf : Text) (k : Bytes) → healthy d ≡ true → R.get_cf d cf k ≡ ok (find d cf k)
  pub put-ok :
      (d : R.Db) (cf : Text) (k v : Bytes) → healthy d ≡ true → (R.put_cf d cf k v).0 ≡ ok tt
  pub put-healthy :
      (d : R.Db) (cf : Text) (k v : Bytes) → healthy d ≡ true → healthy (R.put_cf d cf k v).1 ≡ true
  pub find-put :
      (d : R.Db) (cf : Text) (k v : Bytes) (c : Text) (j : Bytes)
      → healthy d ≡ true
      → find (R.put_cf d cf k v).1 c j
        ≡ (if eq_bytes c cf && eq_bytes j k then some v else find d c j)
  pub delete-ok :
      (d : R.Db) (cf : Text) (k : Bytes) → healthy d ≡ true → (R.delete_cf d cf k).0 ≡ ok tt
  pub delete-healthy :
      (d : R.Db) (cf : Text) (k : Bytes) → healthy d ≡ true → healthy (R.delete_cf d cf k).1 ≡ true
  pub find-delete :
      (d : R.Db) (cf : Text) (k : Bytes) (c : Text) (j : Bytes)
      → healthy d ≡ true
      → find (R.delete_cf d cf k).1 c j
        ≡ (if eq_bytes c cf && eq_bytes j k then none else find d c j)
  pub may_exist :
      (d : R.Db) (cf : Text) (k : Bytes) → find d cf k ≢ none → R.key_may_exist_cf d cf k ≡ true
  pub find-iterate :
      (d : R.Db) (cf : Text) (from k : Bytes)
      → healthy d ≡ true
      → find_item k (R.iterate d cf from) ≡ (if le_bytes from k then find d cf k else none)
  pub iterate-AllFrom : (d : R.Db) (cf : Text) (from : Bytes) → AllFrom from (R.iterate d cf from)
  pub iterate-IsAscending :
      (d : R.Db) (cf : Text) (from : Bytes) → IsAscending (R.iterate d cf from)

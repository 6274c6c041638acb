-- ===== src/Raft/Route.antt =====
-- placement-center/src/raft/route.rs: `DataRoute`, which applies committed data to the key-value
-- store.
use robustmq_geek.Prelude.{ℕ, ◌≡◌, ◌<◌, ◌∷◌, Bytes, Result, err, arith}
use robustmq_geek.Prelude.{Action, panicked, ◌>>=◌, pure, unwrap}
use robustmq_geek.Common.Errors.{Fault, RobustMqError}
use robustmq_geek.External.Rocksdb.{Rocksdb}
use robustmq_geek.Protocol.Kv.{SetRequest, DeleteRequest}
use robustmq_geek.External.Formats.{Proto, Bincode, IsBincode}
use robustmq_geek.Storage.Kv.{KvFormats}
use robustmq_geek.Storage.Kv as KvStorage
use robustmq_geek.Raft.Proposal.{StorageData, StorageDataType, kv_set, kv_delete}

pub record RouteFormats : Type 0 where
  pub bincode_storage_data : Bincode StorageData
  pub proto_set : Proto SetRequest
  pub proto_delete : Proto DeleteRequest

module _ ⦃R : Rocksdb⦄ ⦃F : KvFormats⦄ ⦃G : RouteFormats⦄ where
  -- A method of the store as an action on the database.
  abbrev on_db :
      (R.Db → Result RobustMqError (Unit {0}) × R.Db)
      → Action R.Db (Result RobustMqError (Unit {0}))
  on_db method db = let (result, db') = method db in pure result db'

  route_request : StorageDataType → Bytes → ℕ → Action R.Db (Result RobustMqError (Unit {0}))
  route_request kv_set bytes now_second = do
    req ← unwrap (G.proto_set.decode bytes)
    on_db (KvStorage.set req.key req.value now_second)
  route_request kv_delete bytes now_second = do
    req ← unwrap (G.proto_delete.decode bytes)
    on_db (KvStorage.delete req.key)

  -- The request is decoded from all of the data, as the source has it, and not from the `value`
  -- inside it.
  unfoldable pub route : Bytes → ℕ → Action R.Db (Result RobustMqError (Unit {0}))
  unfolding route_request
  route bytes now_second = do
    storage_data ← unwrap (G.bincode_storage_data.deserialize bytes)
    route_request storage_data.data_type bytes now_second

abbrev pub variant_index : StorageDataType → ℕ
variant_index kv_set = 0
variant_index kv_delete = 1

-- What the formats say of first bytes: `bincode` begins with the first field, a variant's index as
-- a little-endian `u32`, and a protobuf message begins with a tag, whose field number, the byte
-- over 8 for a one-byte tag, must not be 0.
pub record FirstBytes (G : RouteFormats) : Type 0 where
  pub bincode : IsBincode G.bincode_storage_data
  pub variant :
      (sd : StorageData) → (rest : Bytes) × (bincode.packed sd ≡ variant_index sd.data_type ∷ rest)
  pub set_tag :
      (b : ℕ) (bytes : Bytes) → b < 8 → (e : Fault) × (G.proto_set.decode (b ∷ bytes) ≡ err e)
  pub delete_tag :
      (b : ℕ) (bytes : Bytes) → b < 8 → (e : Fault) × (G.proto_delete.decode (b ∷ bytes) ≡ err e)

module _ ⦃R : Rocksdb⦄ ⦃F : KvFormats⦄ ⦃G : RouteFormats⦄ (B : FirstBytes G) where
  -- Whatever was proposed, `set` or `delete` and with any request inside: when its serialised data
  -- is committed, `route` panics and the database is left as it was.
  pub route-panics :
      (sd : StorageData) (now_second : ℕ) (db : R.Db)
      → route (B.bincode.packed sd) now_second db ≡ panicked db
  unfolding route
  route-panics sd now_second db =
      rw (B.bincode.deserialize-packed sd) (refuses sd.data_type (B.variant sd).0 (B.variant sd).1)
    where
      refuses :
          (t : StorageDataType) (rest : Bytes)
          → B.bincode.packed sd ≡ variant_index t ∷ rest
          → route_request t (B.bincode.packed sd) now_second db ≡ panicked db
      refuses kv_set rest p = rw (p, (B.set_tag 0 rest (omega arith)).1)
      refuses kv_delete rest p = rw (p, (B.delete_tag 1 rest (omega arith)).1)

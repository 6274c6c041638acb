-- ===== src/Storage/Kv/RoundTrip.antt =====
-- The key-value store on a database that meets no I/O error: each operation succeeds, and the
-- store is a map from keys to values.
use robustmq_geek.Prelude.{ℕ, ◌≡◌, true, none, some}
use robustmq_geek.Prelude.{Text, eq_bytes, ok, if◌then◌else◌, Bool-cases, inl, inr}
use robustmq_geek.External.Rocksdb.{Rocksdb, IsDatabase}
use robustmq_geek.Storage.Rocksdb.{cf_cluster}
use robustmq_geek.Storage.Rocksdb
use robustmq_geek.Storage.Rocksdb.ReadWrite.{
  write-ok, write-healthy, find-write, read-none, read-written, read_congr, delete-healthy,
  find-delete,
}
use robustmq_geek.Storage.Engine.{new_wrap}
use robustmq_geek.Storage.Kv.{KvFormats, AreKvFormats, set, get, delete}

module _ ⦃R : Rocksdb⦄ ⦃D : IsDatabase R⦄ ⦃F : KvFormats⦄ ⦃L : AreKvFormats F⦄ where
  -- `set` comes down to one engine write of the wrapped JSON text.
  pub set_lem :
      (k v : Text) (now : ℕ) (d : R.Db)
      → D.healthy d ≡ true
      → ((set k v now d).0 ≡ ok tt)
        × ((set k v now d).1
            ≡ (Rocksdb.write F.json_wrap cf_cluster k (new_wrap (L.string.written v) now) d).1)
  unfolding set eq_bytes
  set_lem k v now d fine = (
    rw (L.string.to_vec-written v, write-ok d fine F.json_wrap L.wrap cf_cluster k),
    rw (L.string.to_vec-written v),
  )

  pub set-healthy :
      (k v : Text) (now : ℕ) (d : R.Db) → D.healthy d ≡ true → D.healthy (set k v now d).1 ≡ true
  set-healthy k v now d fine =
      rw ((set_lem k v now d fine).1)
        (write-healthy d fine F.json_wrap L.wrap cf_cluster k (new_wrap (L.string.written v) now))

  find-set :
      (k v : Text) (now : ℕ) (d : R.Db) (j : Text)
      → D.healthy d ≡ true
      → D.find (set k v now d).1 cf_cluster j ≡ (
          if eq_bytes j k
          then some (L.wrap.written (new_wrap (L.string.written v) now))
          else D.find d cf_cluster j)
  unfolding eq_bytes
  find-set k v now d j fine = rw ((set_lem k v now d fine).1) (
      find-write d fine F.json_wrap L.wrap cf_cluster k (new_wrap (L.string.written v) now)
        cf_cluster j)

  get_congr :
      (d e : R.Db) (k : Text)
      → D.healthy d ≡ true
      → D.healthy e ≡ true
      → D.find e cf_cluster k ≡ D.find d cf_cluster k
      → get k e ≡ get k d
  unfolding get eq_bytes
  get_congr d e k fine fine' p = rw (read_congr d fine F.json_wrap e cf_cluster k fine' p, get)

  get_of_found :
      (d : R.Db) (k v : Text) (now : ℕ)
      → D.healthy d ≡ true
      → D.find d cf_cluster k ≡ some (L.wrap.written (new_wrap (L.string.written v) now))
      → get k d ≡ ok (some v)
  unfolding get eq_bytes
  get_of_found d k v now fine p = rw (
    read-written d fine F.json_wrap L.wrap cf_cluster k (new_wrap (L.string.written v) now) p,
    L.string.from_slice-written v,
    get,
  )

  pub get_of_missing :
      (d : R.Db) (k : Text) → D.healthy d ≡ true → D.find d cf_cluster k ≡ none → get k d ≡ ok none
  unfolding get eq_bytes
  get_of_missing d k fine p = rw (read-none d fine F.json_wrap L.wrap cf_cluster k p, get)

  -- After `set` of a key, `get` of that key returns the value that was set, and `get` of any other
  -- key returns what it returned before.
  pub get-set :
      (k v : Text) (now : ℕ) (d : R.Db) (j : Text)
      → D.healthy d ≡ true
      → get j (set k v now d).1 ≡ (if eq_bytes j k then ok (some v) else get j d)
  get-set k v now d j fine = elim (Bool-cases (eq_bytes j k)) [
    | inl e ↦ rw e (
        get_of_found (set k v now d).1 j v now (set-healthy k v now d fine)
          (rw e at (find-set k v now d j fine)))
    | inr e ↦ rw e (
        get_congr d (set k v now d).1 j fine (set-healthy k v now d fine)
          (rw e at (find-set k v now d j fine)))
  ]

  find-delete_key :
      (k : Text) (d : R.Db) (j : Text)
      → D.healthy d ≡ true
      → D.find (delete k d).1 cf_cluster j ≡ (if eq_bytes j k then none else D.find d cf_cluster j)
  unfolding delete eq_bytes
  find-delete_key k d j fine = find-delete d fine cf_cluster k cf_cluster j

  pub delete_key-healthy :
      (k : Text) (d : R.Db) → D.healthy d ≡ true → D.healthy (delete k d).1 ≡ true
  unfolding delete eq_bytes
  delete_key-healthy k d fine = delete-healthy d fine cf_cluster k

  -- After `delete` of a key, `get` of that key finds nothing, and `get` of any other key returns
  -- what it returned before.
  pub get-delete :
      (k : Text) (d : R.Db) (j : Text)
      → D.healthy d ≡ true
      → get j (delete k d).1 ≡ (if eq_bytes j k then ok none else get j d)
  get-delete k d j fine = elim (Bool-cases (eq_bytes j k)) [
    | inl e ↦ rw e (
        get_of_missing (delete k d).1 j (delete_key-healthy k d fine)
          (rw e at (find-delete_key k d j fine)))
    | inr e ↦ rw e (
        get_congr d (delete k d).1 j fine (delete_key-healthy k d fine)
          (rw e at (find-delete_key k d j fine)))
  ]

-- ===== src/Storage/Rocksdb/ReadWrite.antt =====
-- Reads after writes and deletions, on a database that meets no I/O error.
use robustmq_geek.Prelude.{◌≡◌, true, none, some, ◌&&◌}
use robustmq_geek.Prelude.{Bytes, Text, eq_bytes, ok, if◌then◌else◌}
use robustmq_geek.External.Rocksdb.{Rocksdb, IsDatabase}
use robustmq_geek.External.Formats.{Json, IsJson}
use robustmq_geek.Storage.Rocksdb.{write, read, delete}

module _ ⦃R : Rocksdb⦄ ⦃D : IsDatabase R⦄ (d : R.Db) (fine : D.healthy d ≡ true) where
  module _ {A : Type 0} (json : Json A) (J : IsJson json) (cf : Text) (k : Text) where
    pub write-ok : (v : A) → (write json cf k v d).0 ≡ ok tt
    unfolding write
    write-ok v = rw (J.to_string-written v, D.put-ok d cf k (J.written v) fine, write)

    pub write-healthy : (v : A) → D.healthy (write json cf k v d).1 ≡ true
    unfolding write
    write-healthy v = rw (J.to_string-written v, write) (D.put-healthy d cf k (J.written v) fine)

    pub find-write :
        (v : A) (c : Text) (j : Bytes)
        → D.find (write json cf k v d).1 c j
          ≡ (if eq_bytes c cf && eq_bytes j k then some (J.written v) else D.find d c j)
    unfolding write
    find-write v c j = rw (J.to_string-written v, write) (D.find-put d cf k (J.written v) c j fine)

    pub read-none : D.find d cf k ≡ none → read json cf k d ≡ ok none
    unfolding read
    read-none h = rw (D.get-find d cf k fine, h, read)

    pub read-written : (v : A) → D.find d cf k ≡ some (J.written v) → read json cf k d ≡ ok (some v)
    unfolding read
    read-written v h =
        rw (D.get-find d cf k fine, h, J.is_utf8-written v, J.from_str-written v, read)

  -- Two databases without I/O errors that agree on a key read alike there.
  pub read_congr :
      {A : Type 0} (json : Json A) (e : R.Db) (cf k : Text)
      → D.healthy e ≡ true
      → D.find e cf k ≡ D.find d cf k
      → read json cf k e ≡ read json cf k d
  unfolding read
  read_congr json e cf k fine' p = rw (D.get-find e cf k fine', D.get-find d cf k fine, p, read)

  pub delete-ok : (cf : Text) (k : Text) → (delete cf k d).0 ≡ ok tt
  unfolding delete
  delete-ok cf k = rw (D.delete-ok d cf k fine, delete)

  pub delete-healthy : (cf : Text) (k : Text) → D.healthy (delete cf k d).1 ≡ true
  unfolding delete
  delete-healthy cf k = D.delete-healthy d cf k fine

  pub find-delete :
      (cf k c : Text) (j : Bytes)
      → D.find (delete cf k d).1 c j
        ≡ (if eq_bytes c cf && eq_bytes j k then none else D.find d c j)
  unfolding delete
  find-delete cf k c j = D.find-delete d cf k c j fine

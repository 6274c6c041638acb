-- ===== src/Storage/Kv/History.antt =====
-- The key-value store refines a history: after any sequence of writes, a key reads as the last
-- write of it says.
use robustmq_geek.Prelude.{ℕ, ◌≡◌, ◌∙◌, true, Option, none, some, List, [], ◌∷◌, arith}
use robustmq_geek.Prelude.{Text, eq_bytes, ok, if◌then◌else◌}
use robustmq_geek.External.Rocksdb.{Rocksdb, IsDatabase}
use robustmq_geek.Storage.Kv.{KvFormats, AreKvFormats, set, get, delete}
use robustmq_geek.Storage.Kv.RoundTrip.{get-set, get-delete, set-healthy, delete_key-healthy}

-- A call of the store that writes, with the time at which it is made.
pub data Write : Type 0 where
  setting : Text → Text → ℕ → Write
  deleting : Text → Write

module _ ⦃R : Rocksdb⦄ ⦃F : KvFormats⦄ where
  -- The calls in turn; the replies are not looked at.
  pub perform : List Write → R.Db → R.Db
  perform [] d = d
  perform (setting k v now ∷ writes) d = perform writes (set k v now d).1
  perform (deleting k ∷ writes) d = perform writes (delete k d).1

-- What a key maps to after the writes, from what it mapped to before.
pub latest : Text → List Write → Option Text → Option Text
latest j [] old = old
latest j (setting k v now ∷ writes) old = latest j writes (if eq_bytes j k then some v else old)
latest j (deleting k ∷ writes) old = latest j writes (if eq_bytes j k then none else old)

module _ ⦃R : Rocksdb⦄ ⦃D : IsDatabase R⦄ ⦃F : KvFormats⦄ ⦃L : AreKvFormats F⦄ where
  -- On a database without I/O errors, if `get` of a key succeeds then after any sequence of `set`
  -- and `delete` calls `get` of it succeeds with what the last call on that key left, and with
  -- what it returned at first if there was none.
  pub get-perform :
      (writes : List Write) (d : R.Db) (j : Text) (old : Option Text)
      → D.healthy d ≡ true
      → get j d ≡ ok old
      → get j (perform writes d) ≡ ok (latest j writes old)
  unfolding perform latest
  get-perform [] d j old fine h = h
  get-perform (setting k v now ∷ writes) d j old fine h =
      get-perform writes (set k v now d).1 j _ (set-healthy k v now d fine)
        (get-set k v now d j fine ∙ ground (arith))
  get-perform (deleting k ∷ writes) d j old fine h =
      get-perform writes (delete k d).1 j _ (delete_key-healthy k d fine)
        (get-delete k d j fine ∙ ground (arith))

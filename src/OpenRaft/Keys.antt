-- ===== src/OpenRaft/Keys.antt =====
-- placement-center/src/openraft/store/mod.rs: `id_to_bin` and `bin_to_id`, the keys of the log.
use robustmq_geek.Prelude.{
  ℕ, zero, suc, ◌+◌, ◌*◌, ◌/◌, ◌%◌, ◌^◌, ◌<◌, ◌≡◌, ◌∙◌, refl, sym, ap, Option, none, some, [], ◌∷◌,
  ◌++◌, ◌&&◌,
}
use robustmq_geek.Prelude.{Bytes, eq_bytes, leb, ◌==◌, if◌then◌else◌, arith, length}
use robustmq_geek.External.Rocksdb.{le_bytes}

-- So many bytes of a number, the highest first.
be_bytes : ℕ → ℕ → Bytes
be_bytes zero n = []
be_bytes (suc k) n = be_bytes k (n / 256) ++ n % 256 ∷ []

-- Reads so many bytes; too short a slice panics, which is `none`.
read_be : ℕ → ℕ → Bytes → Option ℕ
read_be zero n bytes = some n
read_be (suc k) n [] = none
read_be (suc k) n (b ∷ bytes) = read_be k (256 * n + b) bytes

unfoldable pub id_to_bin : ℕ → Bytes
unfolding be_bytes
id_to_bin id = be_bytes 8 id

unfoldable pub bin_to_id : Bytes → Option ℕ
unfolding read_be
bin_to_id buf = read_be 8 0 buf

read_be-snoc :
    (k n m b : ℕ) (bytes : Bytes)
    → read_be k n bytes ≡ some m
    → length bytes ≡ k
    → read_be (suc k) n (bytes ++ b ∷ []) ≡ some (256 * m + b)
unfolding read_be
read_be-snoc zero n m b [] h l = ground arith
read_be-snoc zero n m b (c ∷ bytes) h l = ground arith
read_be-snoc (suc k) n m b [] h l = ground arith
read_be-snoc (suc k) n m b (c ∷ bytes) h l = read_be-snoc k (256 * n + c) m b bytes h (omega arith)

length-snoc : (bytes : Bytes) (b : ℕ) → length (bytes ++ b ∷ []) ≡ suc (length bytes)
length-snoc [] b = refl
length-snoc (c ∷ bytes) b = ap suc (length-snoc bytes b)

length-be_bytes : (k n : ℕ) → length (be_bytes k n) ≡ k
unfolding be_bytes
length-be_bytes zero n = refl
length-be_bytes (suc k) n =
    length-snoc (be_bytes k (n / 256)) (n % 256) ∙ ap suc (length-be_bytes k (n / 256))

read_be-be_bytes : (k n : ℕ) → n < 256 ^ k → read_be k 0 (be_bytes k n) ≡ some n
unfolding read_be be_bytes
read_be-be_bytes zero n h = ap some (omega arith)
read_be-be_bytes (suc k) n h =
    read_be-snoc k 0 (n / 256) (n % 256) (be_bytes k (n / 256))
      (read_be-be_bytes k (n / 256) (omega arith)) (length-be_bytes k (n / 256))
    ∙ ap some (omega arith)

-- A number of 64 bits reads back from its key.
pub bin_to_id-id_to_bin : (id : ℕ) → id < 2 ^ 64 → bin_to_id (id_to_bin id) ≡ some id
unfolding bin_to_id id_to_bin
bin_to_id-id_to_bin id h = read_be-be_bytes 8 id h

le_bytes-snoc :
    (as' bs : Bytes) (a b : ℕ)
    → length as' ≡ length bs
    → le_bytes (as' ++ a ∷ []) (bs ++ b ∷ [])
      ≡ (if eq_bytes as' bs then leb a b else le_bytes as' bs)
unfolding eq_bytes
le_bytes-snoc [] [] a b l = ground arith
le_bytes-snoc [] (y ∷ bs) a b l = ground arith
le_bytes-snoc (x ∷ as') [] a b l = ground arith
le_bytes-snoc (x ∷ as') (y ∷ bs) a b l = ground (arith, le_bytes-snoc as' bs a b)

eq_bytes-snoc :
    (as' bs : Bytes) (a b : ℕ)
    → length as' ≡ length bs
    → eq_bytes (as' ++ a ∷ []) (bs ++ b ∷ []) ≡ (eq_bytes as' bs && a == b)
unfolding eq_bytes
eq_bytes-snoc [] [] a b l = ground arith
eq_bytes-snoc [] (y ∷ bs) a b l = ground arith
eq_bytes-snoc (x ∷ as') [] a b l = ground arith
eq_bytes-snoc (x ∷ as') (y ∷ bs) a b l = ground (arith, eq_bytes-snoc as' bs a b)

eq_bytes-be_bytes :
    (k a b : ℕ) → a < 256 ^ k → b < 256 ^ k → eq_bytes (be_bytes k a) (be_bytes k b) ≡ (a == b)
unfolding be_bytes eq_bytes
eq_bytes-be_bytes zero a b ha hb = ground arith
eq_bytes-be_bytes (suc k) a b ha hb =
    eq_bytes-snoc (be_bytes k (a / 256)) (be_bytes k (b / 256)) (a % 256) (b % 256)
      (length-be_bytes k (a / 256) ∙ sym (length-be_bytes k (b / 256)))
    ∙ rw (eq_bytes-be_bytes k (a / 256) (b / 256) (omega arith) (omega arith)) (ground arith)

le_bytes-be_bytes :
    (k a b : ℕ) → a < 256 ^ k → b < 256 ^ k → le_bytes (be_bytes k a) (be_bytes k b) ≡ leb a b
unfolding be_bytes
le_bytes-be_bytes zero a b ha hb = ground arith
le_bytes-be_bytes (suc k) a b ha hb =
    le_bytes-snoc (be_bytes k (a / 256)) (be_bytes k (b / 256)) (a % 256) (b % 256)
      (length-be_bytes k (a / 256) ∙ sym (length-be_bytes k (b / 256)))
    ∙ rw
        (
          eq_bytes-be_bytes k (a / 256) (b / 256) (omega arith) (omega arith),
          le_bytes-be_bytes k (a / 256) (b / 256) (omega arith) (omega arith),
        )
        (ground arith)

-- Keys compare as their numbers do.
pub eq_bytes-id_to_bin :
    (a b : ℕ) → a < 2 ^ 64 → b < 2 ^ 64 → eq_bytes (id_to_bin a) (id_to_bin b) ≡ (a == b)
unfolding id_to_bin
eq_bytes-id_to_bin a b ha hb = eq_bytes-be_bytes 8 a b ha hb

pub le_bytes-id_to_bin :
    (a b : ℕ) → a < 2 ^ 64 → b < 2 ^ 64 → le_bytes (id_to_bin a) (id_to_bin b) ≡ leb a b
unfolding id_to_bin
le_bytes-id_to_bin a b ha hb = le_bytes-be_bytes 8 a b ha hb

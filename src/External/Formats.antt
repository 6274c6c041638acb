-- ===== src/External/Formats.antt =====
-- The serialisers: `serde_json`, `prost` and `bincode`, at one type each.
use robustmq_geek.Prelude.{◌≡◌, true, Result, ok, Bytes, Text, is_utf8}
use robustmq_geek.Common.Errors.{Fault}

-- `serde_json` at a type that also has `Debug`.
pub record Json (A : Type 0) : Type 0 where
  pub to_string : A → Result Fault Text
  pub from_str : Text → Result Fault A
  pub to_vec : A → Result Fault Bytes
  pub from_slice : Bytes → Result Fault A
  pub debug : A → Text

-- Values of the types in use serialise, to UTF-8 text, and read back.
pub record IsJson {A : Type 0} (j : Json A) : Type 0 where
  pub written : A → Text
  pub to_string-written : (a : A) → j.to_string a ≡ ok (written a)
  pub is_utf8-written : (a : A) → is_utf8 (written a) ≡ true
  pub from_str-written : (a : A) → j.from_str (written a) ≡ ok a
  pub to_vec-written : (a : A) → j.to_vec a ≡ ok (written a)
  pub from_slice-written : (a : A) → j.from_slice (written a) ≡ ok a

-- A `prost` message.
pub record Proto (A : Type 0) : Type 0 where
  pub encode_to_vec : A → Bytes
  pub decode : Bytes → Result Fault A

pub record IsProto {A : Type 0} (p : Proto A) : Type 0 where
  pub decode-encode_to_vec : (a : A) → p.decode (p.encode_to_vec a) ≡ ok a

pub record Bincode (A : Type 0) : Type 0 where
  pub serialize : A → Result Fault Bytes
  pub deserialize : Bytes → Result Fault A

pub record IsBincode {A : Type 0} (b : Bincode A) : Type 0 where
  pub packed : A → Bytes
  pub serialize-packed : (a : A) → b.serialize a ≡ ok (packed a)
  pub deserialize-packed : (a : A) → b.deserialize (packed a) ≡ ok a

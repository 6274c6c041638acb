-- ===== src/Tests/Coders.antt =====
-- Encoders into lists of numbers that a decoder reads back, and the formats made from them.
pub mod Optional
use robustmq_geek.Prelude.{
  ℕ, zero, suc, ◌+◌, ◌≡◌, refl, ap, ◌∙◌, true, Option, none, some, List, [], ◌∷◌,
}
use robustmq_geek.Prelude.{
  Bytes, Text, Result, ok, err, ◌==◌, if◌then◌else◌, arith, length, is_utf8, is_utf8_ascii,
  AllAscii,
}
use robustmq_geek.Common.Errors.{Fault}
use robustmq_geek.External.Formats.{Json, IsJson, Proto, IsProto, Bincode, IsBincode}

pub record Coder (A : Type 0) : Type 0 where
  pub encode : A → List ℕ → List ℕ
  pub decode : List ℕ → Option (A × List ℕ)
  pub decode-encode : (a : A) (rest : List ℕ) → decode (encode a rest) ≡ some (a, rest)

abbrev pub bind : {A B : Type 0} → Option A → (A → Option B) → Option B
bind none f = none
bind (some a) f = f a

abbrev decode_number : List ℕ → Option (ℕ × List ℕ)
decode_number [] = none
decode_number (n ∷ rest) = some (n, rest)

abbrev pub number : Coder ℕ
number = record {
  encode = λ n rest. n ∷ rest;
  decode = decode_number;
  decode-encode = λ n rest. refl;
}

module _ {A B : Type 0} (a : Coder A) (b : Coder B) where
  abbrev encode_pair : A × B → List ℕ → List ℕ
  encode_pair (x, y) rest = a.encode x (b.encode y rest)

  abbrev decode_pair : List ℕ → Option ((A × B) × List ℕ)
  decode_pair l = bind (a.decode l) λ (x, l'). bind (b.decode l') λ (y, l''). some ((x, y), l'')

  pub decode_pair-encode_pair :
      (p : A × B) (rest : List ℕ) → decode_pair (encode_pair p rest) ≡ some (p, rest)
  decode_pair-encode_pair (x, y) rest =
      rw (a.decode-encode x (b.encode y rest)) (rw (b.decode-encode y rest))

  abbrev pub pair : Coder (A × B)
  pair = record {
    encode = encode_pair;
    decode = decode_pair;
    decode-encode = decode_pair-encode_pair;
  }

module _ {A : Type 0} (a : Coder A) where
  abbrev encode_each : List A → List ℕ → List ℕ
  encode_each [] rest = rest
  encode_each (x ∷ xs) rest = a.encode x (encode_each xs rest)

  abbrev decode_each : ℕ → List ℕ → Option (List A × List ℕ)
  decode_each zero l = some ([], l)
  decode_each (suc n) l =
      bind (a.decode l) λ (x, l'). bind (decode_each n l') λ (xs, l''). some (x ∷ xs, l'')

  decode_each-encode_each :
      (xs : List A) (rest : List ℕ)
      → decode_each (length xs) (encode_each xs rest) ≡ some (xs, rest)
  decode_each-encode_each [] rest = refl
  decode_each-encode_each (x ∷ xs) rest =
      rw (a.decode-encode x (encode_each xs rest)) (rw (decode_each-encode_each xs rest))

  abbrev decode_list : List ℕ → Option (List A × List ℕ)
  decode_list [] = none
  decode_list (n ∷ l) = decode_each n l

  pub list_law :
      (xs : List A) (rest : List ℕ)
      → decode_list (length xs ∷ encode_each xs rest) ≡ some (xs, rest)
  list_law xs rest = decode_each-encode_each xs rest

  abbrev pub list : Coder (List A)
  list = record {
    encode = λ xs rest. length xs ∷ encode_each xs rest;
    decode = decode_list;
    decode-encode = list_law;
  }

module _ {A B : Type 0} (to : A → B) (from : B → A) (back : (a : A) → from (to a) ≡ a)
    (b : Coder B) where
  abbrev pub rebuilt : Option (B × List ℕ) → Option (A × List ℕ)
  rebuilt none = none
  rebuilt (some (x, l)) = some (from x, l)

  pub via_law : (a : A) (rest : List ℕ) → rebuilt (b.decode (b.encode (to a) rest)) ≡ some (a, rest)
  via_law a rest = rw (b.decode-encode (to a) rest) (ap (λ x. some (x, rest)) (back a))

  abbrev pub via : Coder A
  via = record {
    encode = λ a rest. b.encode (to a) rest;
    decode = λ l. rebuilt (b.decode l);
    decode-encode = via_law;
  }

abbrev pub bad_data : Fault
bad_data = record { display = []; debug = [] }

-- A list of numbers as ASCII text: each in unary, and a comma.
ones : ℕ → Text → Text
ones zero rest = b',' ∷ rest
ones (suc n) rest = b'1' ∷ ones n rest

text_of : List ℕ → Text
text_of [] = []
text_of (n ∷ l) = ones n (text_of l)

read_text : ℕ → Text → List ℕ
read_text n [] = []
read_text n (c ∷ text) =
    let more = read_text (suc n) text in
    let next = n ∷ read_text 0 text in if c == b'1' then more else next

read_text-ones : (n m : ℕ) (rest : Text) → read_text m (ones n rest) ≡ (n + m) ∷ read_text 0 rest
unfolding read_text ones
read_text-ones zero m rest = ap (λ (k : ℕ). k ∷ read_text 0 rest) (omega arith)
read_text-ones (suc n) m rest =
    read_text-ones n (suc m) rest ∙ ap (λ (k : ℕ). k ∷ read_text 0 rest) (omega arith)

read_text-text_of : (l : List ℕ) → read_text 0 (text_of l) ≡ l
unfolding text_of
read_text-text_of [] = unfold read_text in refl
read_text-text_of (n ∷ l) =
    read_text-ones n 0 (text_of l) ∙ rw (read_text-text_of l) (ap (λ (k : ℕ). k ∷ l) (omega arith))

AllAscii-ones : (n : ℕ) (rest : Text) → AllAscii rest → AllAscii (ones n rest)
unfolding ones
AllAscii-ones zero rest h = (omega arith, h)
AllAscii-ones (suc n) rest h = (omega arith, AllAscii-ones n rest h)

AllAscii-text_of : (l : List ℕ) → AllAscii (text_of l)
unfolding text_of
AllAscii-text_of [] = tt
AllAscii-text_of (n ∷ l) = AllAscii-ones n (text_of l) (AllAscii-text_of l)

module _ {A : Type 0} (a : Coder A) where
  abbrev pub finish : Option (A × List ℕ) → Result Fault A
  finish none = err bad_data
  finish (some (x, _)) = ok x

  pub written : A → Text
  written x = text_of (a.encode x [])

  pub parse : Text → Result Fault A
  parse text = finish (a.decode (read_text 0 text))

  pub parse-written : (x : A) → parse (written x) ≡ ok x
  unfolding parse written
  parse-written x = rw (read_text-text_of (a.encode x [])) (rw (a.decode-encode x []))

  pub is_utf8-written : (x : A) → is_utf8 (written x) ≡ true
  unfolding written
  is_utf8-written x = is_utf8_ascii (text_of (a.encode x [])) (AllAscii-text_of (a.encode x []))

  abbrev pub json : Json A
  json = record {
    to_string = λ x. ok (written x);
    from_str = parse;
    to_vec = λ x. ok (written x);
    from_slice = parse;
    debug = λ x. [];
  }

  abbrev pub json-IsJson : IsJson json
  json-IsJson = record {
    written = written;
    to_string-written = λ x. refl;
    is_utf8-written = is_utf8-written;
    from_str-written = parse-written;
    to_vec-written = λ x. refl;
    from_slice-written = parse-written;
  }

  pub unpack : Bytes → Result Fault A
  unpack l = finish (a.decode l)

  pub unpack-encode : (x : A) → unpack (a.encode x []) ≡ ok x
  unfolding unpack
  unpack-encode x = rw (a.decode-encode x [])

  abbrev pub proto : Proto A
  proto = record { encode_to_vec = λ x. a.encode x []; decode = unpack }

  pub proto-IsProto : IsProto proto
  proto-IsProto = record { decode-encode_to_vec = unpack-encode }

  abbrev pub bincode : Bincode A
  bincode = record { serialize = λ x. ok (a.encode x []); deserialize = unpack }

  abbrev pub bincode-IsBincode : IsBincode bincode
  bincode-IsBincode = record {
    packed = λ x. a.encode x [];
    serialize-packed = λ x. refl;
    deserialize-packed = unpack-encode;
  }

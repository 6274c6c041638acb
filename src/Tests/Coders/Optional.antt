-- ===== src/Tests/Coders/Optional.antt =====
-- Encoders of a value with a tag and of an optional one, which agree on a value that is there.
use mathlib.Core.Option
use robustmq_geek.Prelude.{
  ℕ, ◌≡◌, refl, ap, ◌==◌, Option, none, some, List, [], ◌∷◌, err, if◌then◌else◌,
}
use robustmq_geek.Tests.Coders.{Coder, bad_data, written, parse, read_text-text_of}

module _ {A : Type 0} (a : Coder A) where
  abbrev decode_present : List ℕ → Option (A × List ℕ)
  decode_present [] = none
  decode_present (n ∷ l) = let x = a.decode l in if n == 1 then x else none

  pub present_law : (x : A) (rest : List ℕ) → decode_present (1 ∷ a.encode x rest) ≡ some (x, rest)
  present_law x rest = a.decode-encode x rest

  abbrev pub present : Coder A
  present = record {
    encode = λ x rest. 1 ∷ a.encode x rest;
    decode = decode_present;
    decode-encode = present_law;
  }

  abbrev encode_option : Option A → List ℕ → List ℕ
  encode_option none rest = 0 ∷ rest
  encode_option (some x) rest = 1 ∷ a.encode x rest

  abbrev decode_option : List ℕ → Option (Option A × List ℕ)
  decode_option [] = none
  decode_option (n ∷ l) =
      let x = Option.map (λ (y, r). (some y, r)) (a.decode l) in
      if n == 1 then x else some (none, l)

  pub option_law :
      (o : Option A) (rest : List ℕ) → decode_option (encode_option o rest) ≡ some (o, rest)
  option_law none rest = refl
  option_law (some x) rest = ap (Option.map (λ (y, r). (some y, r))) (a.decode-encode x rest)

  abbrev pub option : Coder (Option A)
  option = record { encode = encode_option; decode = decode_option; decode-encode = option_law }

  pub written-some : (x : A) → written option (some x) ≡ written present x
  unfolding written
  written-some x = refl

  pub parse-none : parse present (written option none) ≡ err bad_data
  unfolding parse written
  parse-none = rw (read_text-text_of (0 ∷ [])) refl

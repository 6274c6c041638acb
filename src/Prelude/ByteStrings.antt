-- ===== src/Prelude/ByteStrings.antt =====
-- Byte strings: `Vec<u8>`, and a Rust `String` as the bytes of its UTF-8 text.
use Prim.Native.Nat.{ℕ, zero, suc, ◌<◌}
use Prim.Native.Char.{code}
use Prim.Native.String.{String}
use mathlib.Core.Path.{◌≡◌, refl}
use mathlib.Core.Logic.{◌↔◌}
use mathlib.Core.Bool.{Bool, true, false, ◌&&◌}
use mathlib.Core.List.{List, [], ◌∷◌, ◌++◌}
use native.Mathlib.Omega.{arith}
use robustmq_geek.Prelude.Tests.{ltb, leb, ◌==◌, if◌then◌else◌}

abbrev pub Bytes : Type 0
Bytes = List ℕ

-- A Rust `String`.
abbrev pub Text : Type 0
Text = List ℕ

-- The bytes of an ASCII literal.
abbrev pub codes : String → Text
codes String.[] = []
codes (String.◌∷◌ c s) = code c ∷ codes s

unfoldable pub eq_bytes : Bytes → Bytes → Bool
eq_bytes [] [] = true
eq_bytes [] (_ ∷ _) = false
eq_bytes (_ ∷ _) [] = false
eq_bytes (a ∷ as') (b ∷ bs) = a == b && eq_bytes as' bs

pub eq_bytes_iff : (a b : Bytes) → (eq_bytes a b ≡ true) ↔ (a ≡ b)
unfolding eq_bytes
eq_bytes_iff [] [] = (λ _. refl, λ _. refl)
eq_bytes_iff [] (_ ∷ _) = (λ h. cc, λ h. cc)
eq_bytes_iff (_ ∷ _) [] = (λ h. cc, λ h. cc)
eq_bytes_iff (a ∷ as') (b ∷ bs) = ground (arith, eq_bytes_iff as' bs)

pub eq_bytes_refl : (a : Bytes) → eq_bytes a a ≡ true
eq_bytes_refl a = (eq_bytes_iff a a).1 refl

pub eq_bytes_comm : (a b : Bytes) → eq_bytes a b ≡ eq_bytes b a
unfolding eq_bytes
eq_bytes_comm [] [] = refl
eq_bytes_comm [] (_ ∷ _) = refl
eq_bytes_comm (_ ∷ _) [] = refl
eq_bytes_comm (a ∷ as') (b ∷ bs) = ground (arith, eq_bytes_comm as' bs)

-- A common prefix does not matter to the comparison.
pub eq_bytes-append : (p a b : Bytes) → eq_bytes (p ++ a) (p ++ b) ≡ eq_bytes a b
unfolding eq_bytes
eq_bytes-append [] a b = refl
eq_bytes-append (x ∷ p) a b = ground (arith, eq_bytes-append p a b)

-- `key.starts_with(prefix)`, the key first as in Rust.
unfoldable pub starts_with : Bytes → Bytes → Bool
starts_with k [] = true
starts_with [] (_ ∷ _) = false
starts_with (a ∷ k) (b ∷ p) = a == b && starts_with k p

pub starts_with-append : (p k : Bytes) → starts_with (p ++ k) p ≡ true
unfolding starts_with
starts_with-append [] k = refl
starts_with-append (x ∷ p) k = ground (arith, starts_with-append p k)

-- A continuation byte of UTF-8.
abbrev cont : ℕ → Bool
cont b = leb 0x80 b && ltb b 0xc0

-- `String::from_utf8` succeeds: no overlong form, no surrogate, nothing above U+10FFFF. The first
-- argument is how many continuation bytes are due, with the bounds of the next one.
is_utf8_from : ℕ → ℕ → ℕ → Bytes → Bool
is_utf8_from zero lo hi [] = true
is_utf8_from (suc n) lo hi [] = false
is_utf8_from (suc n) lo hi (b ∷ bs) =
    let rest = is_utf8_from n 0x80 0xbf bs in if leb lo b && leb b hi then rest else false
is_utf8_from zero lo hi (b ∷ bs) =
    let one = is_utf8_from 0 0x80 0xbf bs in
    let two = is_utf8_from 1 0x80 0xbf bs in
    let three =
      is_utf8_from 2 (if b == 0xe0 then 0xa0 else 0x80) (if b == 0xed then 0x9f else 0xbf) bs in
    let four =
      is_utf8_from 3 (if b == 0xf0 then 0x90 else 0x80) (if b == 0xf4 then 0x8f else 0xbf) bs in
    if ltb b 0x80
    then one
    else if leb 0xc2 b && leb b 0xdf
    then two
    else if leb 0xe0 b && leb b 0xef
    then three
    else if leb 0xf0 b && leb b 0xf4
    then four
    else false

unfoldable pub is_utf8 : Bytes → Bool
unfolding is_utf8_from
is_utf8 bs = is_utf8_from 0 0x80 0xbf bs

abbrev pub AllAscii : Bytes → Type 0
AllAscii [] = Unit
AllAscii (b ∷ bs) = (b < 0x80) × AllAscii bs

pub is_utf8_ascii : (bs : Bytes) → AllAscii bs → is_utf8 bs ≡ true
unfolding is_utf8
is_utf8_ascii [] h = refl
is_utf8_ascii (b ∷ bs) h = ground (arith, is_utf8_ascii bs h.1)

pub append-AllAscii : (a b : Bytes) → AllAscii a → AllAscii b → AllAscii (a ++ b)
append-AllAscii [] b h k = k
append-AllAscii (x ∷ a) b h k = (h.0, append-AllAscii a b h.1 k)

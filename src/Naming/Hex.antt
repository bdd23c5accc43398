-- ===== src/Naming/Hex.antt =====
-- The hex of a key hash is read back.
use distributed_jbod.Common.{
  ℕ, ◌*◌, ◌/◌, ◌%◌, ◌<◌, ◌≡◌, refl, false, not, some, List, [], ◌∷◌, length, join, map, ok, All,
  arith, every_below, every_below_lem, not-true,
}
use distributed_jbod.Common.Bytes.{IsByte}
use distributed_jbod.ShardFile.{KeyHash}
use distributed_jbod.Naming.{
  hex_digit, hex_byte, to_hex, parse_hex_byte, is_continuation, cuts_character, read_hex, from_hex,
}
use distributed_jbod.Naming.RoundTrip.{AreBytes, is_just, is_just_lem}

-- Every byte is read back from its two digits.
parse_hex_byte-hex_digit :
    (b : ℕ) → IsByte b → parse_hex_byte (hex_digit (b / 16)) (hex_digit (b % 16)) ≡ some b
unfolding every_below parse_hex_byte
parse_hex_byte-hex_digit b lt = is_just_lem _ b (
    every_below_lem (λ x. is_just (parse_hex_byte (hex_digit (x / 16)) (hex_digit (x % 16))) x) 256
      refl b lt)

hex_digit_plain : (d : ℕ) → d < 16 → is_continuation (hex_digit d) ≡ false
unfolding every_below
hex_digit_plain d lt =
    not-true _ (every_below_lem (λ x. not (is_continuation (hex_digit x))) 16 refl d lt)

-- No character is cut in front of the digits of a list of bytes.
hex_plain : (bytes : List ℕ) → All IsByte bytes → cuts_character (join (map hex_byte bytes)) ≡ false
hex_plain [] h = refl
hex_plain (b ∷ bytes) (lt, h) = hex_digit_plain (b / 16) (omega arith)

read_hex-hex_byte :
    (bytes : List ℕ) → All IsByte bytes → read_hex (join (map hex_byte bytes)) ≡ ok bytes
unfolding read_hex
read_hex-hex_byte [] h = refl
read_hex-hex_byte (b ∷ bytes) (lt, h) = rw (
  read_hex,
  hex_digit_plain (b / 16) (omega arith),
  hex_plain bytes h,
  parse_hex_byte-hex_digit b lt,
  read_hex-hex_byte bytes h,
)

length-hex : (bytes : List ℕ) → length (join (map hex_byte bytes)) ≡ 2 * length bytes
length-hex [] = refl
length-hex (b ∷ bytes) = omega (arith, length-hex bytes)

-- A key hash is read back from its hex: for 32 bytes, `from_hex` of `to_hex` returns them, and the text
-- has 64 characters.
pub from_hex-to_hex :
    (hash : KeyHash)
    → AreBytes 32 hash
    → (from_hex (to_hex hash) ≡ ok hash) × (length (to_hex hash) ≡ 64)
unfolding from_hex to_hex
from_hex-to_hex hash a =
    let size : length (join (map hex_byte hash)) ≡ 64 = omega (arith, length-hex hash, a.size) in
    (rw (to_hex, size) (read_hex-hex_byte hash a.all_bytes), size)

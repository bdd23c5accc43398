-- ===== src/Naming.antt =====
-- crates/djbod-core/src/version.rs, keyhash.rs and layout.rs: how version ids, key hashes and files are
-- named. A text is the list of its bytes; all the names are ASCII.
pub mod RoundTrip
pub mod Hex
pub mod FileNames
mod Runs
use distributed_jbod.Common.{
  ℕ, zero, suc, ◌+◌, ◌-◌, ◌*◌, ◌/◌, ◌%◌, ◌^◌, Bool, true, false, not, ◌&&◌, ◌||◌, Option, none,
  some, List, [], ◌∷◌, ◌++◌, length, get_or, take, drop, leb, ◌==◌, ◌!=◌, if◌then◌else◌, join, map,
  Outcome, ok, err, panic, ◌>>=◌,
}
use distributed_jbod.Common.Digits.{digits, value_from}
use distributed_jbod.ShardFile.{KeyHash, VersionId}

abbrev pub Text : Type 0
Text = List ℕ

-- "0123456789ABCDEFGHJKMNPQRSTVWXYZ".
abbrev pub alphabet : Text
alphabet =
    b'0' ∷ b'1' ∷ b'2' ∷ b'3' ∷ b'4' ∷ b'5' ∷ b'6' ∷ b'7' ∷ b'8' ∷ b'9' ∷ b'A' ∷ b'B' ∷ b'C' ∷ b'D'
    ∷ b'E' ∷ b'F' ∷ b'G' ∷ b'H' ∷ b'J' ∷ b'K' ∷ b'M' ∷ b'N' ∷ b'P' ∷ b'Q' ∷ b'R' ∷ b'S' ∷ b'T'
    ∷ b'V' ∷ b'W' ∷ b'X' ∷ b'Y' ∷ b'Z' ∷ []

abbrev pub text_len : ℕ
text_len = 26

-- `u128::from_be_bytes` and `to_be_bytes`.
abbrev pub from_be_bytes : List ℕ → ℕ
from_be_bytes bytes = value_from 256 0 bytes

abbrev pub to_be_bytes : ℕ → List ℕ
to_be_bytes value = digits 256 16 value

-- `c.to_ascii_uppercase()`.
abbrev pub to_ascii_uppercase : ℕ → ℕ
to_ascii_uppercase c = if leb b'a' c && leb c b'z' then c - 32 else c

-- The search for a letter in the rest of the alphabet, from the value `v` on.
unfoldable pub find_letter : ℕ → ℕ → Text → Option ℕ
find_letter upper v [] = none
find_letter upper v (letter ∷ letters) =
    if letter == upper then some v else find_letter upper (v + 1) letters

unfoldable pub decode_char : ℕ → Option ℕ
decode_char c = find_letter (to_ascii_uppercase c) 0 alphabet

-- The loop of `to_text`, with `n` characters to come: the shift is by 5 bits for each after the next.
unfoldable pub text_digits : ℕ → ℕ → Text
text_digits zero value = []
text_digits (suc n) value = get_or alphabet (value / 2 ^ (5 * n) % 2 ^ 5) 0 ∷ text_digits n value

unfoldable pub to_text : VersionId → Text
to_text v = text_digits text_len (from_be_bytes v)

-- The loop of `from_text`; `value << 5` drops the bits above 128, and `|` fills the 5 that are free.
unfoldable pub read_text : ℕ → Text → Option ℕ
read_text value [] = some value
read_text value (c ∷ cs) = elim (decode_char c) [
  | none ↦ none
  | some digit ↦ read_text (value * 2 ^ 5 % 2 ^ 128 + digit) cs
]

unfoldable pub from_text : Text → Option VersionId
from_text text =
    if length text != text_len
    then none
    else if not (leb b'0' (get_or text 0 0) && leb (get_or text 0 0) b'7')
    then none
    else elim (read_text 0 text) [ none ↦ none | some value ↦ some (to_be_bytes value) ]

-- `{byte:02x}`.
abbrev pub hex_digit : ℕ → ℕ
hex_digit d = if leb 10 d then d - 10 + b'a' else d + b'0'

abbrev pub hex_byte : ℕ → Text
hex_byte byte = hex_digit (byte / 16) ∷ hex_digit (byte % 16) ∷ []

unfoldable pub to_hex : KeyHash → Text
to_hex hash = join (map hex_byte hash)

-- A digit of `u8::from_str_radix(_, 16)`, in either case.
abbrev pub parse_hex_digit : ℕ → Option ℕ
parse_hex_digit c =
    if leb b'0' c && leb c b'9'
    then some (c - b'0')
    else if leb b'a' c && leb c b'f'
    then some (c - b'a' + 10)
    else if leb b'A' c && leb c b'F'
    then some (c - b'A' + 10)
    else none

-- `u8::from_str_radix` of two bytes: two digits, or one after a plus sign.
unfoldable pub parse_hex_byte : ℕ → ℕ → Option ℕ
parse_hex_byte a b = elim (parse_hex_digit b) [
  | none ↦ none
  | some low ↦
      if a == b'+'
      then some low
      else elim (parse_hex_digit a) [ none ↦ none | some high ↦ some (high * 16 + low) ]
]

-- Not the first byte of a character in UTF-8: a slice of a `str` that starts or ends here panics.
abbrev pub is_continuation : ℕ → Bool
is_continuation c = leb 128 c && leb c 191

abbrev pub cuts_character : Text → Bool
cuts_character [] = false
cuts_character (c ∷ rest) = is_continuation c

-- The loop over the pairs of bytes. Failing is returning `None`.
unfoldable pub read_hex : Text → Outcome (Unit {0}) (List ℕ)
read_hex [] = ok []
read_hex (a ∷ []) = panic
read_hex (a ∷ b ∷ rest) = elim (is_continuation a || cuts_character rest) [
  | true ↦ panic
  | false ↦ elim (parse_hex_byte a b) [
    | none ↦ err tt
    | some byte ↦ read_hex rest >>= λ bytes. ok (byte ∷ bytes)
  ]
]

unfoldable pub from_hex : Text → Outcome (Unit {0}) KeyHash
from_hex hex = if length hex != 64 then err tt else read_hex hex

-- `directory_components`: the fan-out and the full hash.
unfoldable pub directory_components : KeyHash → Text × Text × Text
directory_components hash = let hex = to_hex hash in (take 2 hex, take 2 (drop 2 hex), hex)

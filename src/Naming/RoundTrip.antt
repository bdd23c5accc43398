-- ===== src/Naming/RoundTrip.antt =====
-- The text of a version id and the hex of a key hash are read back.
use distributed_jbod.Common.{
  ℕ, zero, suc, ◌*◌, ◌/◌, ◌%◌, ◌^◌, ◌<◌, ◌≡◌, refl, sym, ◌∙◌, ap, Bool, true, false, ◌&&◌, Option,
  none, some, List, length, get_or, leb, ◌==◌, ==_iff, All, arith, every_below, every_below_lem,
}
use distributed_jbod.Common.Digits.{digits, shift_digit, digits-value_from, value_from-bound}
use distributed_jbod.Common.Bytes.{IsByte}
use distributed_jbod.ShardFile.{VersionId}
use distributed_jbod.Naming.{
  alphabet, text_len, from_be_bytes, to_be_bytes, find_letter, decode_char, text_digits, to_text,
  read_text, from_text,
}
use native.Mathlib.Nat.{pow-suc, pow-zero, mod-eq_of_lt, div-eq_of_lt, div-one, div-le_self}

abbrev pub is_just : Option ℕ → ℕ → Bool
is_just none d = false
is_just (some x) d = x == d

pub is_just_lem : (o : Option ℕ) (d : ℕ) → is_just o d ≡ true → o ≡ some d
is_just_lem none d h = absurd (cc)
is_just_lem (some x) d h = ap some ((==_iff x d).0 h)

-- Every letter of the alphabet decodes to its value.
decode_char-alphabet : (d : ℕ) → d < 32 → decode_char (get_or alphabet d 0) ≡ some d
unfolding every_below decode_char find_letter
decode_char-alphabet d lt =
    is_just_lem (decode_char (get_or alphabet d 0)) d
      (every_below_lem (λ x. is_just (decode_char (get_or alphabet x 0)) x) 32 checked d lt)
  where
    checked : every_below (λ x. is_just (decode_char (get_or alphabet x 0)) x) 32 ≡ true
    checked = refl

power : (n : ℕ) → 2 ^ (5 * n) ≡ 32 ^ n
power zero = refl
power (suc n) =
    let five : 5 * suc n ≡ suc (suc (suc (suc (suc (5 * n))))) = omega arith in
    ap (◌^◌ 2) five
    ∙ omega (
      arith,
      power n,
      pow-suc 2 (5 * n),
      pow-suc 2 (suc (5 * n)),
      pow-suc 2 (suc (suc (5 * n))),
      pow-suc 2 (suc (suc (suc (5 * n)))),
      pow-suc 2 (suc (suc (suc (suc (5 * n))))),
      pow-suc 32 n,
    )

read_text-text_digits : (n v : ℕ) → v < 2 ^ 128 → read_text (v / 32 ^ n) (text_digits n v) ≡ some v
unfolding read_text text_digits
read_text-text_digits zero v h = ap some (ap (λ m. v / m) (pow-zero 32) ∙ div-one v)
read_text-text_digits (suc n) v h =
    let shifted = shift_digit 32 n v in
    let small : v / 32 ^ suc n * 32 % 2 ^ 128 ≡ v / 32 ^ suc n * 32 =
      mod-eq_of_lt {n = v / 32 ^ suc n * 32} {m = 2 ^ 128}
        (omega (arith, shifted, div-le_self v (32 ^ n))) in
    let decoded : decode_char (get_or alphabet (v / 32 ^ n % 2 ^ 5) 0) ≡ some (v / 32 ^ n % 32) =
      decode_char-alphabet (v / 32 ^ n % 32) (omega arith) in
    rw (power n, read_text, decoded, small, shifted) (read_text-text_digits n v h)

length-text_digits : (n v : ℕ) → length (text_digits n v) ≡ n
unfolding text_digits
length-text_digits zero v = refl
length-text_digits (suc n) v = ap suc (length-text_digits n v)

-- The letters of the values 0 to 7 are '0' to '7'.
low_letter :
    (d : ℕ) → d < 8 → (leb b'0' (get_or alphabet d 0) && leb (get_or alphabet d 0) b'7') ≡ true
unfolding every_below
low_letter d lt =
    every_below_lem (λ x. leb b'0' (get_or alphabet x 0) && leb (get_or alphabet x 0) b'7') 8 refl d
      lt

-- The bytes of an array of `n`.
pub record AreBytes (n : ℕ) (bytes : List ℕ) : Type 0 where
  pub size : length bytes ≡ n
  pub all_bytes : All IsByte bytes

from_be_bytes-bound : (v : VersionId) → AreBytes 16 v → from_be_bytes v < 2 ^ 128
from_be_bytes-bound v a =
    let (low, high) = value_from-bound 256 0 v a.all_bytes in
    let wide : 256 ^ length v ≡ 2 ^ 128 = ap (◌^◌ 256) a.size in omega (arith, high, wide)

first_letter :
    (v : VersionId)
    → AreBytes 16 v
    → (leb b'0' (get_or (to_text v) 0 0) && leb (get_or (to_text v) 0 0) b'7') ≡ true
unfolding to_text text_digits
first_letter v a =
    let bound = from_be_bytes-bound v a in
    low_letter (from_be_bytes v / 2 ^ (5 * 25) % 2 ^ 5) (omega (arith, bound))

length-to_text : (v : VersionId) → length (to_text v) ≡ text_len
unfolding to_text
length-to_text v = length-text_digits text_len (from_be_bytes v)

to_text_read :
    (v : VersionId) (n : ℕ) → n ≡ from_be_bytes v → n < 2 ^ 128 → read_text 0 (to_text v) ≡ some n
unfolding to_text
to_text_read v n e h =
    let start : 0 ≡ n / 32 ^ 26 = sym (div-eq_of_lt {n = n} {m = 32 ^ 26} (omega (arith, h))) in
    ap (λ x. read_text 0 (text_digits 26 x)) (sym e)
    ∙ ap (λ x. read_text x (text_digits 26 n)) start
    ∙ read_text-text_digits 26 n h

-- A version id is read back from its text: for 16 bytes, `from_text` of `to_text` returns them, and the
-- text has 26 characters.
pub from_text-to_text :
    (v : VersionId)
    → AreBytes 16 v
    → (from_text (to_text v) ≡ some v) × (length (to_text v) ≡ text_len)
unfolding from_text
from_text-to_text v a =
    let n = from_be_bytes v in
    let bound = from_be_bytes-bound v a in
    let size = length-to_text v in
    let back : to_be_bytes n ≡ v =
      ap (λ k. digits 256 k n) (sym a.size) ∙ digits-value_from 256 0 v (omega arith) a.all_bytes in
    (rw (size, first_letter v a, to_text_read v n refl bound, back), size)

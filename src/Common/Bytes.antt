-- ===== src/Common/Bytes.antt =====
-- Byte buffers: little-endian integers, and reading and writing a range of a buffer.
use Prim.Native.Nat.{ℕ, zero, suc, ◌+◌, ◌-◌, ◌*◌, ◌/◌, ◌%◌, ◌^◌, ◌≤◌, ◌<◌}
use mathlib.Core.Path.{◌≡◌, refl, sym, ap, ap₂, ◌∙◌}
use mathlib.Core.List.{List, [], ◌∷◌, ◌++◌}
use native.Mathlib.Omega.{arith}
use native.Mathlib.Nat.{pow-suc}
use distributed_jbod.Common.Lists.{
  length, take, drop, All, length-append, length-take, length-drop, take-append_left,
  drop-append_left, take-append_le, drop-drop,
}
use distributed_jbod.Common.Tests.{leb, if◌then◌else◌, le→leb}
use distributed_jbod.Common.Results.{Outcome, ok, panic}

-- `n.to_le_bytes()` of a `w`-byte integer, and `from_le_bytes`.
unfoldable pub to_le_bytes : ℕ → ℕ → List ℕ
to_le_bytes zero n = []
to_le_bytes (suc w) n = n % 256 ∷ to_le_bytes w (n / 256)

unfoldable pub from_le_bytes : List ℕ → ℕ
from_le_bytes [] = 0
from_le_bytes (b ∷ bs) = b + 256 * from_le_bytes bs

abbrev pub IsByte : ℕ → Type 0
IsByte b = b < 256

pub length-to_le_bytes : (w n : ℕ) → length (to_le_bytes w n) ≡ w
unfolding to_le_bytes
length-to_le_bytes zero n = refl
length-to_le_bytes (suc w) n = ap suc (length-to_le_bytes w (n / 256))

pub to_le_bytes-IsByte : (w n : ℕ) → All IsByte (to_le_bytes w n)
unfolding to_le_bytes
to_le_bytes-IsByte zero n = tt
to_le_bytes-IsByte (suc w) n = (omega arith, to_le_bytes-IsByte w (n / 256))

pub from_le_bytes-to_le_bytes : (w n : ℕ) → n < 256 ^ w → from_le_bytes (to_le_bytes w n) ≡ n
unfolding from_le_bytes to_le_bytes
from_le_bytes-to_le_bytes zero n h = omega arith
from_le_bytes-to_le_bytes (suc w) n h =
    let smaller : n / 256 < 256 ^ w = omega (arith, pow-suc 256 w) in
    omega (arith, from_le_bytes-to_le_bytes w (n / 256) smaller)

-- `&buf[offset..offset + n]`, and `buf[offset..offset + n].copy_from_slice(bytes)`, in range.
abbrev pub slice : List ℕ → ℕ → ℕ → List ℕ
slice buf offset n = take n (drop offset buf)

unfoldable pub write_at : List ℕ → ℕ → List ℕ → List ℕ
write_at buf offset bytes = take offset buf ++ (bytes ++ drop (offset + length bytes) buf)

pub length-write_at :
    (buf : List ℕ) (offset : ℕ) (bytes : List ℕ)
    → offset + length bytes ≤ length buf
    → length (write_at buf offset bytes) ≡ length buf
unfolding write_at
length-write_at buf offset bytes h = omega (
  arith,
  length-append (take offset buf) (bytes ++ drop (offset + length bytes) buf),
  length-append bytes (drop (offset + length bytes) buf),
  length-take offset buf,
  length-drop (offset + length bytes) buf,
)

-- What was written is read back.
pub slice-write_at_same :
    (buf : List ℕ) (offset n : ℕ) (bytes : List ℕ)
    → n ≡ length bytes
    → offset ≤ length buf
    → slice (write_at buf offset bytes) offset n ≡ bytes
unfolding write_at
slice-write_at_same buf offset n bytes e h =
    let full : offset ≡ length (take offset buf) = omega (arith, length-take offset buf) in
    ap (take n) (drop-append_left (take offset buf) _ offset full) ∙ take-append_left bytes _ n e

take-take : (a b : ℕ) (xs : List ℕ) → a ≤ b → take a (take b xs) ≡ take a xs
take-take zero b xs h = refl
take-take (suc a) zero xs h = absurd (omega arith)
take-take (suc a) (suc b) [] h = refl
take-take (suc a) (suc b) (x ∷ xs) h = ap (◌∷◌ x) (take-take a b xs (omega arith))

drop-append_le : (a : ℕ) (xs ys : List ℕ) → a ≤ length xs → drop a (xs ++ ys) ≡ drop a xs ++ ys
drop-append_le zero xs ys h = refl
drop-append_le (suc a) [] ys h = absurd (omega arith)
drop-append_le (suc a) (x ∷ xs) ys h = drop-append_le a xs ys (omega arith)

pub take-drop-take :
    (xs : List ℕ) (offset n to : ℕ)
    → offset + n ≤ to
    → slice (take to xs) offset n ≡ slice xs offset n
take-drop-take xs zero n to h = take-take n to xs (omega arith)
take-drop-take xs (suc offset) n zero h = absurd (omega arith)
take-drop-take [] (suc offset) n (suc to) h = refl
take-drop-take (x ∷ xs) (suc offset) n (suc to) h = take-drop-take xs offset n to (omega arith)

-- A range below a write is not changed by it.
pub slice-write_at_before :
    (buf : List ℕ) (offset : ℕ) (bytes : List ℕ) (o n : ℕ)
    → o + n ≤ offset
    → offset ≤ length buf
    → slice (write_at buf offset bytes) o n ≡ slice buf o n
unfolding write_at
slice-write_at_before buf offset bytes o n h hb =
    let front = take offset buf in
    let size : length front ≡ offset = omega (arith, length-take offset buf) in
    ap (take n) (drop-append_le o front _ (omega arith))
    ∙ take-append_le (drop o front) _ n (omega (arith, length-drop o front))
    ∙ take-drop-take buf o n offset h

pub drop-append_ge : (xs ys : List ℕ) (a b : ℕ) → a ≡ length xs + b → drop a (xs ++ ys) ≡ drop b ys
drop-append_ge [] ys a b h = ap (λ n. drop n ys) (omega arith)
drop-append_ge (x ∷ xs) ys zero b h = absurd (omega arith)
drop-append_ge (x ∷ xs) ys (suc a) b h = drop-append_ge xs ys a b (omega arith)

-- A range above a write is not changed by it.
pub slice-write_at_after :
    (buf : List ℕ) (offset : ℕ) (bytes : List ℕ) (o n : ℕ)
    → offset + length bytes ≤ o
    → offset ≤ length buf
    → slice (write_at buf offset bytes) o n ≡ slice buf o n
unfolding write_at
slice-write_at_after buf offset bytes o n h hb =
    let front = take offset buf in
    let size : length front ≡ offset = omega (arith, length-take offset buf) in
    let k = o - (offset + length bytes) in
    ap (take n) (
      drop-append_ge front _ o (length bytes + k) (omega arith)
      ∙ drop-append_ge bytes _ (length bytes + k) k refl
      ∙ drop-drop (offset + length bytes) k buf
      ∙ ap (λ j. drop j buf) (omega arith))

-- A second write of the same size at the same place replaces the first.
pub write_at-write_at :
    (buf : List ℕ) (offset : ℕ) (first second : List ℕ)
    → length first ≡ length second
    → offset ≤ length buf
    → write_at (write_at buf offset first) offset second ≡ write_at buf offset second
unfolding write_at
write_at-write_at buf offset first second e h =
    let front = take offset buf in
    let size : offset ≡ length front = omega (arith, length-take offset buf) in
    ap₂ ◌++◌ (take-append_left front _ offset size) (
      ap (◌++◌ second) (
        drop-append_ge front _ (offset + length second) (length second) (omega arith)
        ∙ drop-append_left first _ (length second) (sym e)
        ∙ ap (λ j. drop (offset + j) buf) e))

-- A range of a range, and a range of the second part of a list.
pub slice-slice :
    (xs : List ℕ) (a n b m : ℕ) → b + m ≤ n → slice (slice xs a n) b m ≡ slice xs (a + b) m
slice-slice xs a n b m h = take-drop-take (drop a xs) b m n h ∙ ap (take m) (drop-drop a b xs)

pub slice-append_right :
    (xs ys : List ℕ) (a b n : ℕ) → a ≡ length xs + b → slice (xs ++ ys) a n ≡ slice ys b n
slice-append_right xs ys a b n h = ap (take n) (drop-append_ge xs ys a b h)

-- A range of the first part of a list.
pub slice-append_left :
    (xs ys : List ℕ) (a n : ℕ) → a + n ≤ length xs → slice (xs ++ ys) a n ≡ slice xs a n
slice-append_left xs ys a n h =
    ap (take n) (drop-append_le a xs ys (omega arith))
    ∙ take-append_le (drop a xs) ys n (omega (arith, length-drop a xs))

pub length-slice : (xs : List ℕ) (a n : ℕ) → a + n ≤ length xs → length (slice xs a n) ≡ n
length-slice xs a n h = omega (arith, length-take n (drop a xs), length-drop a xs)

-- Reading an integer at an offset. A range outside the buffer panics.
module _ {ℓ} {E : Type ℓ} where
  unfoldable pub read_uint : ℕ → List ℕ → ℕ → Outcome E ℕ
  read_uint w buf offset =
      if leb (offset + w) (length buf) then ok (from_le_bytes (slice buf offset w)) else panic

  pub read_uint_lem :
      (w : ℕ) (buf : List ℕ) (offset : ℕ)
      → offset + w ≤ length buf
      → read_uint w buf offset ≡ ok (from_le_bytes (slice buf offset w))
  unfolding read_uint
  read_uint_lem w buf offset h = rw (le→leb _ _ h)

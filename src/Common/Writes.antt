-- ===== src/Common/Writes.antt =====
-- A page filled by writes at ascending offsets that do not overlap: every field reads back.
use Prim.Native.Nat.{ℕ, ◌+◌, ◌≤◌}
use mathlib.Core.Path.{◌≡◌, refl, ◌∙◌}
use mathlib.Core.List.{List, [], ◌∷◌}
use native.Mathlib.Omega.{arith}
use distributed_jbod.Common.Lists.{length, All}
use distributed_jbod.Common.Bytes.{
  slice, write_at, length-write_at, slice-write_at_same, slice-write_at_before,
}

abbrev pub Write : Type 0
Write = ℕ × List ℕ

unfoldable pub write_all : List ℕ → List Write → List ℕ
write_all page [] = page
write_all page ((offset, bytes) ∷ writes) = write_all (write_at page offset bytes) writes

-- The writes go up from `low` and end at `high` at most.
abbrev pub Ascend : ℕ → ℕ → List Write → Type 0
Ascend low high [] = low ≤ high
Ascend low high ((offset, bytes) ∷ writes) =
    (low ≤ offset) × Ascend (offset + length bytes) high writes

Ascend-le : (low high : ℕ) (writes : List Write) → Ascend low high writes → low ≤ high
Ascend-le low high [] h = h
Ascend-le low high ((offset, bytes) ∷ writes) h =
    omega (arith, Ascend-le (offset + length bytes) high writes h.1)

pub Ascend-lower :
    (lower low high : ℕ) (writes : List Write)
    → lower ≤ low
    → Ascend low high writes
    → Ascend lower high writes
Ascend-lower lower low high [] h a = omega arith
Ascend-lower lower low high ((offset, bytes) ∷ writes) h a = (omega (arith, a.0), a.1)

pub length-write_all :
    (page : List ℕ) (low : ℕ) (writes : List Write)
    → Ascend low (length page) writes
    → length (write_all page writes) ≡ length page
unfolding write_all
length-write_all page low [] h = refl
length-write_all page low ((offset, bytes) ∷ writes) h =
    let same = length-write_at page offset bytes (Ascend-le _ _ writes h.1) in
    length-write_all (write_at page offset bytes) (offset + length bytes) writes (rw same h.1)
    ∙ same

-- What lies below the first write is not changed.
pub slice-write_all_before :
    (page : List ℕ) (low : ℕ) (writes : List Write) (o n : ℕ)
    → Ascend low (length page) writes
    → o + n ≤ low
    → slice (write_all page writes) o n ≡ slice page o n
unfolding write_all
slice-write_all_before page low [] o n h hn = refl
slice-write_all_before page low ((offset, bytes) ∷ writes) o n h hn =
    let end = Ascend-le _ _ writes h.1 in
    let same = length-write_at page offset bytes end in
    slice-write_all_before (write_at page offset bytes) (offset + length bytes) writes o n
      (rw same h.1) (omega arith)
    ∙ slice-write_at_before page offset bytes o n (omega arith) (omega arith)

abbrev pub Reads : List ℕ → Write → Type 0
Reads page w = slice page w.0 (length w.1) ≡ w.1

-- Every write reads back.
pub write_all-Reads :
    (page : List ℕ) (low : ℕ) (writes : List Write)
    → Ascend low (length page) writes
    → All (Reads (write_all page writes)) writes
unfolding write_all
write_all-Reads page low [] h = tt
write_all-Reads page low ((offset, bytes) ∷ writes) h =
    let end = Ascend-le _ _ writes h.1 in
    let same = length-write_at page offset bytes end in
    let next = write_at page offset bytes in
    (
      slice-write_all_before next (offset + length bytes) writes offset (length bytes) (rw same h.1)
            (omega arith)
          ∙ slice-write_at_same page offset (length bytes) bytes refl (omega arith),
      write_all-Reads next (offset + length bytes) writes (rw same h.1),
    )

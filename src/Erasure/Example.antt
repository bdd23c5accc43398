-- ===== src/Erasure/Example.antt =====
-- A concrete instance of the library's interface: two data shards and one parity shard, the sum of
-- their blocks position by position. It shows that the laws asked of the library can hold.
use distributed_jbod.Common.{
  ℕ, zero, suc, ◌+◌, ◌-◌, ◌≤◌, ◌<◌, ◌≡◌, refl, sym, ◌∙◌, ap, ap₂, Option, none, some, List, [], ◌∷◌,
  ◌++◌, map, length, replicate, All, arith,
}
use mathlib.Core.List.{map-append}
use distributed_jbod.Erasure.{Block, Slots, ReedSolomon, ReedSolomonCode}
use distributed_jbod.Erasure.Laws.{
  Matches, count_some, HasLength, IsCodeword, IsReedSolomon, CodeIsValid,
}

abbrev pub add_blocks : Block → Block → Block
add_blocks [] b = []
add_blocks (x ∷ a) [] = []
add_blocks (x ∷ a) (y ∷ b) = (x + y) ∷ add_blocks a b

abbrev pub sub_blocks : Block → Block → Block
sub_blocks [] b = []
sub_blocks (x ∷ a) [] = []
sub_blocks (x ∷ a) (y ∷ b) = (x - y) ∷ sub_blocks a b

abbrev pub sum_encode : List Block → List Block → Option (List Block)
sum_encode (a ∷ b ∷ []) buffers = some (add_blocks a b ∷ [])
sum_encode blocks buffers = none

abbrev pub sum_reconstruct : Slots → Option Slots
sum_reconstruct (some a ∷ some b ∷ p ∷ []) = some (some a ∷ some b ∷ some (add_blocks a b) ∷ [])
sum_reconstruct (some a ∷ none ∷ some p ∷ []) = some (some a ∷ some (sub_blocks p a) ∷ some p ∷ [])
sum_reconstruct (none ∷ some b ∷ some p ∷ []) = some (some (sub_blocks p b) ∷ some b ∷ some p ∷ [])
sum_reconstruct slots = none

abbrev pub sum_code : ReedSolomon
sum_code = record {
  encode_sep = sum_encode;
  reconstruct_data = sum_reconstruct;
  reconstruct = sum_reconstruct;
}

abbrev pub two_plus_one : ReedSolomonCode
two_plus_one = record {
  scheme = record { data_shards = 2; parity_shards = 1 };
  reed_solomon = some sum_code;
}

add_blocks-length :
    (n : ℕ) (a b : Block) → length a ≡ n → length b ≡ n → length (add_blocks a b) ≡ n
add_blocks-length n [] b ha hb = ha
add_blocks-length n (x ∷ a) [] ha hb = hb
add_blocks-length zero (x ∷ a) (y ∷ b) ha hb = absurd (omega arith)
add_blocks-length (suc n) (x ∷ a) (y ∷ b) ha hb =
    ap suc (add_blocks-length n a b (omega arith) (omega arith))

sub-add_left : (a b : Block) → length a ≡ length b → sub_blocks (add_blocks a b) a ≡ b
sub-add_left [] [] h = refl
sub-add_left [] (y ∷ b) h = absurd (omega arith)
sub-add_left (x ∷ a) [] h = absurd (omega arith)
sub-add_left (x ∷ a) (y ∷ b) h = ap₂ ◌∷◌ (omega arith) (sub-add_left a b (omega arith))

sub-add_right : (a b : Block) → length a ≡ length b → sub_blocks (add_blocks a b) b ≡ a
sub-add_right [] b h = refl
sub-add_right (x ∷ a) [] h = absurd (omega arith)
sub-add_right (x ∷ a) (y ∷ b) h = ap₂ ◌∷◌ (omega arith) (sub-add_right a b (omega arith))

-- Two of the three slots give all three blocks.
sum_reconstruct_lem :
    (a b p : Block) (slots : Slots)
    → length a ≡ length b
    → p ≡ add_blocks a b
    → Matches slots (a ∷ b ∷ p ∷ [])
    → 2 ≤ count_some slots
    → sum_reconstruct slots ≡ some (some a ∷ some b ∷ some p ∷ [])
sum_reconstruct_lem a b p [] l e m h = absurd m
sum_reconstruct_lem a b p (s ∷ []) l e m h = absurd m.1
sum_reconstruct_lem a b p (s ∷ t ∷ []) l e m h = absurd m.1.1
sum_reconstruct_lem a b p (s ∷ t ∷ u ∷ v ∷ slots) l e m h = absurd m.1.1.1
sum_reconstruct_lem a b p (some x ∷ some y ∷ u ∷ []) l e m h = cc (m.0, m.1.0)
sum_reconstruct_lem a b p (some x ∷ none ∷ some z ∷ []) l e m h =
    cc (m.0, m.1.1.0, sub-add_left a b l)
sum_reconstruct_lem a b p (none ∷ some y ∷ some z ∷ []) l e m h =
    cc (m.1.0, m.1.1.0, sub-add_right a b l)
sum_reconstruct_lem a b p (some x ∷ none ∷ none ∷ []) l e m h = absurd (omega arith)
sum_reconstruct_lem a b p (none ∷ some y ∷ none ∷ []) l e m h = absurd (omega arith)
sum_reconstruct_lem a b p (none ∷ none ∷ some z ∷ []) l e m h = absurd (omega arith)
sum_reconstruct_lem a b p (none ∷ none ∷ none ∷ []) l e m h = absurd (omega arith)

sum_encodes :
    (blocks : List Block) (len : ℕ)
    → length blocks ≡ 2
    → 0 < len
    → All (HasLength len) blocks
    → (parity : List Block) × (sum_encode blocks (replicate 1 (replicate len 0)) ≡ some parity)
      × (length parity ≡ 1)
      × All (HasLength len) parity
sum_encodes [] len h p l = absurd (omega arith)
sum_encodes (a ∷ []) len h p l = absurd (omega arith)
sum_encodes (a ∷ b ∷ c ∷ blocks) len h p l = absurd (omega arith)
sum_encodes (a ∷ b ∷ []) len h p l =
    (add_blocks a b ∷ [], refl, refl, (add_blocks-length len a b l.0 l.1.0, tt))

sum_reconstructs :
    (blocks parity : List Block) (len : ℕ) (slots : Slots)
    → IsCodeword (some sum_code) 2 1 len blocks parity
    → Matches slots (blocks ++ parity)
    → 2 ≤ count_some slots
    → sum_reconstruct slots ≡ some (map some (blocks ++ parity))
sum_reconstructs [] parity len slots cw m h = absurd (omega (arith, cw.data_count))
sum_reconstructs (a ∷ []) parity len slots cw m h = absurd (omega (arith, cw.data_count))
sum_reconstructs (a ∷ b ∷ c ∷ blocks) parity len slots cw m h =
    absurd (omega (arith, cw.data_count))
sum_reconstructs (a ∷ b ∷ []) [] len slots cw m h = absurd (omega (arith, cw.parity_count))
sum_reconstructs (a ∷ b ∷ []) (p ∷ q ∷ parity) len slots cw m h =
    absurd (omega (arith, cw.parity_count))
sum_reconstructs (a ∷ b ∷ []) (p ∷ []) len slots cw m h =
    sum_reconstruct_lem a b p slots (cw.data_lengths.0 ∙ sym cw.data_lengths.1.0) (cc (cw.encoded))
      m h

sum_reconstructs_data :
    (blocks parity : List Block) (len : ℕ) (slots : Slots)
    → IsCodeword (some sum_code) 2 1 len blocks parity
    → Matches slots (blocks ++ parity)
    → 2 ≤ count_some slots
    → (rest : Slots) × (sum_reconstruct slots ≡ some (map some blocks ++ rest))
sum_reconstructs_data blocks parity len slots cw m h = (
  map some parity,
  rw (← map-append some blocks parity) (sum_reconstructs blocks parity len slots cw m h),
)

sum_code-IsReedSolomon : IsReedSolomon sum_code 2 1
sum_code-IsReedSolomon = record {
  encodes = sum_encodes;
  reconstructs = sum_reconstructs;
  reconstructs_data = sum_reconstructs_data;
}

pub two_plus_one-IsValid : CodeIsValid two_plus_one
two_plus_one-IsValid = record {
  some_data = omega arith;
  few_shards = omega arith;
  library = (omega arith, sum_code-IsReedSolomon);
}

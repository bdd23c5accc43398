-- ===== src/Erasure.antt =====
-- crates/djbod-core/src/erasure.rs: the scheme `k + m`, and the Reed-Solomon code with typed shard
-- indices. The crate `reed-solomon-erasure` is a parameter: `ReedSolomon` holds the operations that
-- the code calls on an instance of it, and `none` is its `Err`.
pub mod Bounds
pub mod Layout
pub mod Laws
pub mod Parity
pub mod Filled
pub mod Reconstruct
pub mod Example
mod Runs
use distributed_jbod.Common.{
  ℕ, zero, suc, ◌+◌, ◌<◌, ◌≡◌, Bool, true, false, not, ◌&&◌, Option, none, some, List, [], ◌∷◌,
  ◌++◌, Outcome, ok, err, panic, ◌>>=◌, ◌>>◌, fail_if, expect, ltb, ◌==◌, ◌!=◌, if◌then◌else◌,
  length, get_or, set, replicate, range_from, arith,
}

-- A shard index is a `u8` and a block is a vector of bytes.
abbrev pub ShardIndex : Type 0
ShardIndex = ℕ

abbrev pub Block : Type 0
Block = List ℕ

abbrev pub max_data_shards : ℕ
max_data_shards = 32

abbrev pub max_parity_shards : ℕ
max_parity_shards = 8

abbrev pub max_total_shards : ℕ
max_total_shards = 64

pub record Scheme : Type 0 where
  pub data_shards : ℕ
  pub parity_shards : ℕ

pub data SchemeError : Type 0 where
  no_data_shards : SchemeError
  too_many_data_shards : ℕ → SchemeError
  too_many_parity_shards : ℕ → SchemeError
  too_many_shards : ℕ → SchemeError

-- `Scheme::new`. The sum of two `u8` is taken in `u16`, where it cannot wrap.
unfoldable pub new_scheme : ℕ → ℕ → Outcome SchemeError Scheme
new_scheme k m = do
  fail_if (k == 0) no_data_shards
  fail_if (ltb max_data_shards k) (too_many_data_shards k)
  fail_if (ltb max_parity_shards m) (too_many_parity_shards m)
  fail_if (ltb max_total_shards (k + m)) (too_many_shards (k + m))
  ok (record { data_shards = k; parity_shards = m })

abbrev pub total_shards : Scheme → ℕ
total_shards s = s.data_shards + s.parity_shards

abbrev pub contains : Scheme → ShardIndex → Bool
contains s i = ltb i (total_shards s)

abbrev pub is_data : Scheme → ShardIndex → Bool
is_data s i = ltb i s.data_shards

abbrev pub is_parity : Scheme → ShardIndex → Bool
is_parity s i = contains s i && not (is_data s i)

abbrev pub shard_indices : Scheme → List ShardIndex
shard_indices s = range_from 0 (total_shards s)

abbrev pub data_shard_indices : Scheme → List ShardIndex
data_shard_indices s = range_from 0 s.data_shards

pub data CodingError : Type 0 where
  wrong_data_block_count : (expected actual : ℕ) → CodingError
  unequal_block_lengths : CodingError
  empty_blocks : CodingError
  index_out_of_range : ShardIndex → CodingError
  duplicate_index : ShardIndex → CodingError
  too_few_shards_present : (present needed : ℕ) → CodingError

-- The positional slots that the library's `reconstruct` fills in.
abbrev pub Slots : Type 0
Slots = List (Option Block)

-- An instance of the library's `ReedSolomon`. `encode_sep` takes the data blocks and the parity
-- buffers, and returns what it leaves in the buffers; the other two return the filled slots.
pub record ReedSolomon : Type 0 where
  pub encode_sep : List Block → List Block → Option (List Block)
  pub reconstruct_data : Slots → Option Slots
  pub reconstruct : Slots → Option Slots

pub record ReedSolomonCode : Type 0 where
  pub scheme : Scheme
  pub reed_solomon : Option ReedSolomon

-- `ReedSolomonCode::new`, over the library's `ReedSolomon::new(k, m)`.
pub new_code : (ℕ → ℕ → Option ReedSolomon) → Scheme → Outcome CodingError ReedSolomonCode
new_code library s =
    if s.parity_shards == 0 then ok (record { scheme = s; reed_solomon = none }) else do
      rs ← expect (library s.data_shards s.parity_shards)
      ok (record { scheme = s; reed_solomon = some rs })

-- `for block in data_blocks { if block.len() != block_len … }`.
abbrev pub all_have_length : ℕ → List Block → Bool
all_have_length n [] = true
all_have_length n (b ∷ bs) = (length b == n) && all_have_length n bs

-- `data_blocks[0].len()`; the index panics on an empty vector.
abbrev pub first_length : List Block → Option ℕ
first_length [] = none
first_length (b ∷ bs) = some (length b)

abbrev pub encode_parity :
    Option ReedSolomon → List Block → List Block → Outcome CodingError (List Block)
encode_parity none data_blocks parity_blocks = ok parity_blocks
encode_parity (some rs) data_blocks parity_blocks = expect (rs.encode_sep data_blocks parity_blocks)

unfoldable pub compute_parity : ReedSolomonCode → List Block → Outcome CodingError (List Block)
compute_parity code data_blocks = do
  let k = code.scheme.data_shards
  fail_if (length data_blocks != k) (wrong_data_block_count k (length data_blocks))
  block_len ← expect (first_length data_blocks)
  fail_if (block_len == 0) empty_blocks
  fail_if (not (all_have_length block_len data_blocks)) unequal_block_lengths
  encode_parity code.reed_solomon data_blocks
      (replicate code.scheme.parity_shards (replicate block_len 0))

abbrev pub is_some {ℓ} : {A : Type ℓ} → Option A → Bool
is_some none = false
is_some (some a) = true

-- The `match block_len` of the layout loop: does a block of `n` bytes disagree with it?
abbrev pub length_differs : Option ℕ → ℕ → Bool
length_differs none n = false
length_differs (some len) n = len != n

abbrev pub note_length : Option ℕ → ℕ → Option ℕ
note_length none n = some n
note_length (some len) n = some len

-- The first loop of `reconstruct`: lay the present blocks out by position.
pub lay_out :
    Scheme → List (ShardIndex × Block) → Slots → Option ℕ → Outcome CodingError (Slots × Option ℕ)
lay_out s [] slots block_len = ok (slots, block_len)
lay_out s ((index, bytes) ∷ present) slots block_len = do
  fail_if (not (contains s index)) (index_out_of_range index)
  fail_if (is_some (get_or slots index none)) (duplicate_index index)
  fail_if (length_differs block_len (length bytes)) unequal_block_lengths
  lay_out s present (set slots index (some bytes)) (note_length block_len (length bytes))

pub check_wanted : Scheme → List ShardIndex → Outcome CodingError (Unit {0})
check_wanted s [] = ok tt
check_wanted s (index ∷ wanted) = do
  fail_if (not (contains s index)) (index_out_of_range index)
  check_wanted s wanted

abbrev pub any_missing : Slots → List ShardIndex → Bool
any_missing slots [] = false
any_missing slots (index ∷ wanted) =
    let rest = any_missing slots wanted in if is_some (get_or slots index none) then rest else true

abbrev pub only_data : Scheme → List ShardIndex → Bool
only_data s [] = true
only_data s (index ∷ wanted) =
    let rest = only_data s wanted in if is_parity s index then false else rest

abbrev pub is_zero_length : Option ℕ → Bool
is_zero_length none = false
is_zero_length (some n) = n == 0

-- The body of `if needs_reconstruction`.
pub fill_in : ReedSolomonCode → ℕ → Option ℕ → List ShardIndex → Slots → Outcome CodingError Slots
fill_in code present block_len wanted slots = do
  let k = code.scheme.data_shards
  fail_if (ltb present k) (too_few_shards_present present k)
  fail_if (is_zero_length block_len) empty_blocks
  rs ← expect code.reed_solomon
  if only_data code.scheme wanted
      then expect (rs.reconstruct_data slots)
      else expect (rs.reconstruct slots)

-- The last loop: copy the wanted blocks out.
pub copy_out : Slots → List ShardIndex → Outcome CodingError (List Block)
copy_out slots [] = ok []
copy_out slots (index ∷ wanted) = do
  block ← expect (get_or slots index none)
  rest ← copy_out slots wanted
  ok (block ∷ rest)

unfoldable pub reconstruct :
    ReedSolomonCode → List (ShardIndex × Block) → List ShardIndex → Outcome CodingError (List Block)
reconstruct code present wanted = do
  (slots, block_len) ← lay_out code.scheme present (replicate (total_shards code.scheme) none) none
  check_wanted code.scheme wanted
  filled ←
      (if any_missing slots wanted
        then fill_in code (length present) block_len wanted slots
        else ok slots)
  copy_out filled wanted

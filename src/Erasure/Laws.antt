-- ===== src/Erasure/Laws.antt =====
-- What `erasure.rs` relies on of the crate `reed-solomon-erasure`: any `k` of the `k + m` blocks of
-- a codeword determine the others.
use distributed_jbod.Common.{
  ℕ, ◌+◌, ◌≤◌, ◌<◌, ◌≡◌, Option, none, some, List, [], ◌∷◌, ◌++◌, map, ok, length, replicate, All,
}
use distributed_jbod.Erasure.{
  Block, Slots, ReedSolomon, ReedSolomonCode, encode_parity, total_shards,
}

-- Every slot is empty or holds the codeword's block of its position.
abbrev pub SlotMatches : Option Block → Block → Type 0
SlotMatches none b = Unit
SlotMatches (some x) b = x ≡ b

abbrev pub Matches : Slots → List Block → Type 0
Matches [] [] = Unit
Matches [] (b ∷ bs) = ⊥
Matches (s ∷ slots) [] = ⊥
Matches (s ∷ slots) (b ∷ bs) = SlotMatches s b × Matches slots bs

abbrev pub slot_count : Option Block → ℕ
slot_count none = 0
slot_count (some b) = 1

abbrev pub count_some : Slots → ℕ
count_some [] = 0
count_some (s ∷ slots) = slot_count s + count_some slots

abbrev pub HasLength : ℕ → Block → Type 0
HasLength n b = length b ≡ n

-- `k` data blocks of one non-zero length, with the parity blocks that the code computes from them.
pub record IsCodeword (rs : Option ReedSolomon) (k m len : ℕ) (blocks parity : List Block)
    : Type 0 where
  pub data_count : length blocks ≡ k
  pub not_empty : 0 < len
  pub data_lengths : All (HasLength len) blocks
  pub encoded : encode_parity rs blocks (replicate m (replicate len 0)) ≡ ok parity
  pub parity_count : length parity ≡ m
  pub parity_lengths : All (HasLength len) parity

-- The documented behaviour of an instance for `k` data and `m` parity shards.
pub record IsReedSolomon (rs : ReedSolomon) (k m : ℕ) : Type 0 where
  pub encodes :
      (blocks : List Block) (len : ℕ)
      → length blocks ≡ k
      → 0 < len
      → All (HasLength len) blocks
      → (parity : List Block) × (rs.encode_sep blocks (replicate m (replicate len 0)) ≡ some parity)
        × (length parity ≡ m)
        × All (HasLength len) parity
  pub reconstructs :
      (blocks parity : List Block) (len : ℕ) (slots : Slots)
      → IsCodeword (some rs) k m len blocks parity
      → Matches slots (blocks ++ parity)
      → k ≤ count_some slots
      → rs.reconstruct slots ≡ some (map some (blocks ++ parity))
  pub reconstructs_data :
      (blocks parity : List Block) (len : ℕ) (slots : Slots)
      → IsCodeword (some rs) k m len blocks parity
      → Matches slots (blocks ++ parity)
      → k ≤ count_some slots
      → (rest : Slots) × (rs.reconstruct_data slots ≡ some (map some blocks ++ rest))

abbrev pub CodeFor : Option ReedSolomon → ℕ → ℕ → Type 0
CodeFor none k m = m ≡ 0
CodeFor (some rs) k m = (0 < m) × IsReedSolomon rs k m

-- A code whose scheme `new_scheme` accepts and whose library instance is there exactly if the
-- scheme has parity shards.
pub record CodeIsValid (code : ReedSolomonCode) : Type 0 where
  pub some_data : 0 < code.scheme.data_shards
  pub few_shards : total_shards code.scheme ≤ 40
  pub library : CodeFor code.reed_solomon code.scheme.data_shards code.scheme.parity_shards

-- ===== src/Erasure/Runs.antt =====
-- Concrete codewords, and the theorem about `reconstruct` at a concrete input.
use distributed_jbod.Common.{◌≡◌, refl, List, [], ◌∷◌, ok, arith}
use distributed_jbod.Erasure.{Block, ShardIndex, reconstruct}
use distributed_jbod.Erasure.Laws.{IsCodeword}
use distributed_jbod.Erasure.Reconstruct.{reconstruct_lem}
use distributed_jbod.Erasure.Example.{two_plus_one, two_plus_one-IsValid}

abbrev data_blocks : List Block
data_blocks = (1 ∷ 2 ∷ []) ∷ (3 ∷ 4 ∷ []) ∷ []

abbrev parity_blocks : List Block
parity_blocks = (4 ∷ 6 ∷ []) ∷ []

codeword : IsCodeword two_plus_one.reed_solomon 2 1 2 data_blocks parity_blocks
codeword = record {
  data_count = refl;
  not_empty = omega arith;
  data_lengths = (refl, (refl, tt));
  encoded = refl;
  parity_count = refl;
  parity_lengths = (refl, tt);
}

-- Block 1 is lost.
abbrev present : List (ShardIndex × Block)
present = (0, 1 ∷ 2 ∷ []) ∷ (2, 4 ∷ 6 ∷ []) ∷ []

reconstruct_lem_example : reconstruct two_plus_one present (1 ∷ []) ≡ ok ((3 ∷ 4 ∷ []) ∷ [])
reconstruct_lem_example =
    reconstruct_lem two_plus_one 2 data_blocks parity_blocks present (1 ∷ []) two_plus_one-IsValid
      codeword (omega arith)
      (
        record { inside = omega arith; same = refl; sized = refl },
        (record { inside = omega arith; same = refl; sized = refl }, tt),
      )
      (omega arith) (omega arith)

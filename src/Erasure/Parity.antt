-- ===== src/Erasure/Parity.antt =====
-- `compute_parity` of a valid code: no `expect` of its steps fails.
use distributed_jbod.Common.{
  ℕ, ◌<◌, ◌≡◌, refl, sym, ap, Option, none, some, List, [], ◌∷◌, length, ok, true, All, arith,
  ==_of_eq, ==_of_pos,
}
use distributed_jbod.Erasure.{
  Block, ReedSolomon, ReedSolomonCode, compute_parity, all_have_length, first_length,
}
use distributed_jbod.Erasure.Laws.{HasLength, IsCodeword, CodeFor, CodeIsValid}

all_have_length_lem :
    (len : ℕ) (bs : List Block) → All (HasLength len) bs → all_have_length len bs ≡ true
all_have_length_lem len [] h = refl
all_have_length_lem len (b ∷ bs) h = ground (arith, all_have_length_lem len bs h.1, h.0)

first_length_lem :
    (len : ℕ) (bs : List Block)
    → All (HasLength len) bs
    → 0 < length bs
    → first_length bs ≡ some len
first_length_lem len [] h p = absurd (omega arith)
first_length_lem len (b ∷ bs) h p = ap some h.0

encode_parity_lem :
    (rs : Option ReedSolomon) (k m len : ℕ) (bs : List Block)
    → CodeFor rs k m
    → length bs ≡ k
    → 0 < len
    → All (HasLength len) bs
    → (parity : List Block) × IsCodeword rs k m len bs parity
encode_parity_lem none k m len bs v hk hp hl = (
  [],
  record {
    data_count = hk;
    not_empty = hp;
    data_lengths = hl;
    encoded = rw v refl;
    parity_count = sym v;
    parity_lengths = tt;
  },
)
encode_parity_lem (some rs) k m len bs v hk hp hl =
    let (parity, runs, count, lengths) = v.1.encodes bs len hk hp hl in
    (
      parity,
      record {
        data_count = hk;
        not_empty = hp;
        data_lengths = hl;
        encoded = rw runs refl;
        parity_count = count;
        parity_lengths = lengths;
      },
    )

-- On `k` blocks of one non-zero length a valid code computes the parity of a codeword.
pub compute_parity_lem :
    (code : ReedSolomonCode) (bs : List Block) (len : ℕ)
    → CodeIsValid code
    → length bs ≡ code.scheme.data_shards
    → 0 < len
    → All (HasLength len) bs
    → (parity : List Block) × (compute_parity code bs ≡ ok parity)
      × IsCodeword code.reed_solomon code.scheme.data_shards code.scheme.parity_shards len bs parity
unfolding compute_parity
compute_parity_lem code bs len v hk hp hl =
    let (parity, cw) = encode_parity_lem code.reed_solomon _ _ len bs v.library hk hp hl in
    let first = first_length_lem len bs hl (omega (arith, v.some_data)) in
    let same = all_have_length_lem len bs hl in
    (parity, rw (==_of_eq _ _ hk, first, ==_of_pos len hp, same) cw.encoded, cw)

-- ===== src/Erasure/Reconstruct.antt =====
-- `reconstruct` of a valid code: no `expect` of its steps fails, and it returns the codeword's blocks.
use distributed_jbod.Common.{
  ℕ, zero, suc, ◌+◌, ◌≤◌, ◌<◌, ◌≡◌, refl, sym, inl, inr, Option, none, some, List, [], ◌∷◌, ◌++◌,
  map, length, ok, true, false, length-append, get_or, All-weaken, replicate, get_or-replicate, All,
  arith, le→ltb, Bool-cases, ==_of_pos, ◌>>=◌,
}
use distributed_jbod.Erasure.{
  ShardIndex, Block, Slots, ReedSolomon, ReedSolomonCode, total_shards, any_missing, only_data,
  is_zero_length, fill_in, copy_out, reconstruct,
}
use distributed_jbod.Erasure.Laws.{Matches, count_some, IsCodeword, CodeFor, CodeIsValid}
use distributed_jbod.Erasure.Layout.{Distinct, Fits, Matches-length, Agrees, lay_out_lem}
use distributed_jbod.Erasure.Filled.{
  IsIn, check_wanted_lem, copy_out_present, IsBelow, copy_out_filled, copy_out-All,
  All-filled_none_missing, only_data_lem,
}

-- The codeword's blocks at the wanted indices.
abbrev pub blocks_at : List Block → List ShardIndex → List Block
blocks_at cw wanted = map (λ i. get_or cw i []) wanted

pub codeword_length :
    (rs : Option ReedSolomon) (k m len : ℕ) (bs parity : List Block)
    → IsCodeword rs k m len bs parity
    → length (bs ++ parity) ≡ k + m
codeword_length rs k m len bs parity cw =
    omega (arith, length-append bs parity, cw.data_count, cw.parity_count)

fill_in_lem :
    (code : ReedSolomonCode) (len : ℕ) (bs parity : List Block) (rs : Option ReedSolomon)
    (slots : Slots) (n : ℕ) (bl : Option ℕ) (wanted : List ShardIndex)
    → code.reed_solomon ≡ rs
    → CodeFor rs code.scheme.data_shards code.scheme.parity_shards
    → IsCodeword rs code.scheme.data_shards code.scheme.parity_shards len bs parity
    → Matches slots (bs ++ parity)
    → code.scheme.data_shards ≤ count_some slots
    → code.scheme.data_shards ≤ n
    → is_zero_length bl ≡ false
    → All (IsIn code.scheme) wanted
    → any_missing slots wanted ≡ true
    → (fill_in code n bl wanted slots >>= λ filled. copy_out filled wanted)
      ≡ ok (blocks_at (bs ++ parity) wanted)
unfolding fill_in
fill_in_lem code len bs parity none slots n bl wanted e lib cw m hk hn z w missing =
    let total = codeword_length none _ _ len bs parity cw in
    let size = Matches-length slots (bs ++ parity) m in
    cc (
      missing,
      All-filled_none_missing slots wanted (omega arith)
          (All-weaken (IsIn code.scheme) (IsBelow (length slots)) wanted (λ i p. omega arith) w),
    )
fill_in_lem code len bs parity (some rs) slots n bl wanted e lib cw m hk hn z w missing =
    elim (Bool-cases (only_data code.scheme wanted)) [
      | inl d ↦
          let (rest, runs) = lib.1.reconstructs_data bs parity len slots cw m hk in
          let low = only_data_lem code.scheme wanted w d in
          rw (le→ltb _ _ hn, z, e, d, runs)
            (copy_out_filled bs parity rest wanted (rw cw.data_count low))
      | inr d ↦
          let runs = lib.1.reconstructs bs parity len slots cw m hk in
          rw (le→ltb _ _ hn, z, e, d, runs)
            (copy_out-All (bs ++ parity) wanted
              (rw (codeword_length (some rs) _ _ len bs parity cw) w))
    ]

-- A block of the codeword `cw` of block length `len`, at its place.
pub record IsBlockOf (cw : List Block) (len : ℕ) (p : ShardIndex × Block) : Type 0 where
  pub inside : p.0 < length cw
  pub same : p.1 ≡ get_or cw p.0 []
  pub sized : length p.1 ≡ len

IsBlockOf-Fits :
    (cw : List Block) (len n : ℕ) (ps : List (ShardIndex × Block))
    → All (IsBlockOf cw len) ps
    → All (Fits (replicate n none) cw len) ps
IsBlockOf-Fits cw len n ps =
    All-weaken (IsBlockOf cw len) (Fits (replicate n none) cw len) ps λ p h. record {
      inside = h.inside;
      free = get_or-replicate n p.0 none;
      same = h.same;
      sized = h.sized;
    }

Matches-empty : (cw : List Block) (n : ℕ) → n ≡ length cw → Matches (replicate n none) cw
Matches-empty [] zero h = tt
Matches-empty [] (suc n) h = absurd (omega arith)
Matches-empty (b ∷ cw) zero h = absurd (omega arith)
Matches-empty (b ∷ cw) (suc n) h = (tt, Matches-empty cw n (omega arith))

is_zero_length-false :
    (bl : Option ℕ) (len : ℕ) → 0 < len → Agrees bl len → is_zero_length bl ≡ false
is_zero_length-false none len p h = refl
is_zero_length-false (some n) len p h = ==_of_pos n (omega arith)

-- From `k` blocks or more of a codeword of a valid code, each at its place and none twice, `reconstruct`
-- returns the wanted blocks of that codeword, whether they were present or not, if every wanted index is
-- in the scheme.
pub reconstruct_lem :
    (code : ReedSolomonCode) (len : ℕ) (bs parity : List Block)
    (present : List (ShardIndex × Block)) (wanted : List ShardIndex)
    → CodeIsValid code
    → IsCodeword code.reed_solomon code.scheme.data_shards code.scheme.parity_shards len bs parity
    → Distinct present
    → All (IsBlockOf (bs ++ parity) len) present
    → code.scheme.data_shards ≤ length present
    → All (IsIn code.scheme) wanted
    → reconstruct code present wanted ≡ ok (blocks_at (bs ++ parity) wanted)
unfolding reconstruct
reconstruct_lem code len bs parity present wanted v cw hd hp hk w =
    let n = total_shards code.scheme in
    let total = codeword_length code.reed_solomon _ _ len bs parity cw in
    let (out, laid) =
      lay_out_lem code.scheme present (replicate n none) none (bs ++ parity) len total
        (Matches-empty (bs ++ parity) n (sym total)) hd
        (IsBlockOf-Fits (bs ++ parity) len n present hp) tt in
    elim (Bool-cases (any_missing out.0 wanted)) [
      | inl missing ↦
          rw (laid.runs, check_wanted_lem code.scheme wanted w, missing)
            (fill_in_lem code len bs parity code.reed_solomon out.0 (length present) out.1 wanted
              refl v.library cw laid.matches (omega (arith, laid.counted)) hk
              (is_zero_length-false out.1 len cw.not_empty laid.agreed) w missing)
      | inr whole ↦
          rw (laid.runs, check_wanted_lem code.scheme wanted w, whole)
            (copy_out_present out.0 (bs ++ parity) wanted laid.matches whole)
    ]

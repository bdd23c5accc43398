-- ===== src/Erasure/Filled.antt =====
-- The steps of `reconstruct` around the call of the crate: slots that are filled, and copied out.
use distributed_jbod.Common.{
  ℕ, zero, suc, ◌≤◌, ◌<◌, ◌≡◌, refl, ap, none, some, List, [], ◌∷◌, ◌++◌, map, length, ok, true,
  false, get_or, All, arith, lt→ltb,
}
use distributed_jbod.Erasure.{
  ShardIndex, Block, Scheme, Slots, total_shards, check_wanted, any_missing, only_data, copy_out,
  is_some,
}
use distributed_jbod.Erasure.Laws.{Matches, count_some}
use mathlib.Core.List.{append-nil}

abbrev pub IsIn : Scheme → ShardIndex → Type 0
IsIn s i = i < total_shards s

pub check_wanted_lem :
    (s : Scheme) (wanted : List ShardIndex) → All (IsIn s) wanted → check_wanted s wanted ≡ ok tt
unfolding check_wanted
check_wanted_lem s [] h = refl
check_wanted_lem s (i ∷ wanted) h = rw (lt→ltb _ _ h.0) (check_wanted_lem s wanted h.1)

-- A slot that is filled holds the codeword's block.
Matches-get :
    (slots : Slots) (cw : List Block) (i : ℕ)
    → Matches slots cw
    → is_some (get_or slots i none) ≡ true
    → get_or slots i none ≡ some (get_or cw i [])
Matches-get [] cw i m h = cc
Matches-get (s ∷ slots) [] i m h = absurd m
Matches-get (none ∷ slots) (b ∷ cw) zero m h = cc
Matches-get (some x ∷ slots) (b ∷ cw) zero m h = ap some m.0
Matches-get (s ∷ slots) (b ∷ cw) (suc i) m h = Matches-get slots cw i m.1 h

any_missing-cons :
    (slots : Slots) (i : ShardIndex) (wanted : List ShardIndex)
    → any_missing slots (i ∷ wanted) ≡ false
    → (is_some (get_or slots i none) ≡ true) × (any_missing slots wanted ≡ false)
any_missing-cons slots i wanted h = ground arith

pub copy_out_present :
    (slots : Slots) (cw : List Block) (wanted : List ShardIndex)
    → Matches slots cw
    → any_missing slots wanted ≡ false
    → copy_out slots wanted ≡ ok (map (λ i. get_or cw i []) wanted)
unfolding copy_out
copy_out_present slots cw [] m h = refl
copy_out_present slots cw (i ∷ wanted) m h =
    let (here, rest) = any_missing-cons slots i wanted h in
    rw (Matches-get slots cw i m here, copy_out_present slots cw wanted m rest)

get_or-map-some :
    (cw : List Block) (rest : Slots) (i : ℕ)
    → i < length cw
    → get_or (map some cw ++ rest) i none ≡ some (get_or cw i [])
get_or-map-some [] rest i h = absurd (omega arith)
get_or-map-some (b ∷ cw) rest zero h = refl
get_or-map-some (b ∷ cw) rest (suc i) h = get_or-map-some cw rest i (omega arith)

get_or-append_left :
    (cw more : List Block) (i : ℕ) → i < length cw → get_or (cw ++ more) i [] ≡ get_or cw i []
get_or-append_left [] more i h = absurd (omega arith)
get_or-append_left (b ∷ cw) more zero h = refl
get_or-append_left (b ∷ cw) more (suc i) h = get_or-append_left cw more i (omega arith)

abbrev pub IsBelow : ℕ → ShardIndex → Type 0
IsBelow n i = i < n

pub copy_out_filled :
    (cw more : List Block) (rest : Slots) (wanted : List ShardIndex)
    → All (IsBelow (length cw)) wanted
    → copy_out (map some cw ++ rest) wanted ≡ ok (map (λ i. get_or (cw ++ more) i []) wanted)
unfolding copy_out
copy_out_filled cw more rest [] h = refl
copy_out_filled cw more rest (i ∷ wanted) h = rw (
  get_or-map-some cw rest i h.0,
  copy_out_filled cw more rest wanted h.1,
  get_or-append_left cw more i h.0,
)

count_some-le : (slots : Slots) → count_some slots ≤ length slots
count_some-le [] = omega arith
count_some-le (none ∷ slots) = omega (arith, count_some-le slots)
count_some-le (some b ∷ slots) = omega (arith, count_some-le slots)

pub copy_out-All :
    (cw : List Block) (wanted : List ShardIndex)
    → All (IsBelow (length cw)) wanted
    → copy_out (map some cw) wanted ≡ ok (map (λ i. get_or cw i []) wanted)
copy_out-All cw wanted h = simp append-nil at (copy_out_filled cw [] [] wanted h)

-- If every slot is filled then nothing in the scheme is missing.
all_filled :
    (slots : Slots) (i : ℕ)
    → length slots ≤ count_some slots
    → i < length slots
    → is_some (get_or slots i none) ≡ true
all_filled [] i h p = absurd (omega arith)
all_filled (none ∷ slots) i h p = absurd (omega (arith, count_some-le slots))
all_filled (some b ∷ slots) zero h p = refl
all_filled (some b ∷ slots) (suc i) h p = all_filled slots i (omega arith) (omega arith)

pub All-filled_none_missing :
    (slots : Slots) (wanted : List ShardIndex)
    → length slots ≤ count_some slots
    → All (IsBelow (length slots)) wanted
    → any_missing slots wanted ≡ false
All-filled_none_missing slots [] h w = refl
All-filled_none_missing slots (i ∷ wanted) h w =
    rw (all_filled slots i h w.0, All-filled_none_missing slots wanted h w.1)

-- Wanting no parity shard of the scheme is wanting data shards.
pub only_data_lem :
    (s : Scheme) (wanted : List ShardIndex)
    → All (IsIn s) wanted
    → only_data s wanted ≡ true
    → All (IsBelow s.data_shards) wanted
only_data_lem s [] w h = tt
only_data_lem s (i ∷ wanted) w h = (ground arith, only_data_lem s wanted w.1 (ground arith))

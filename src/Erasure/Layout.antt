-- ===== src/Erasure/Layout.antt =====
-- The first loop of `reconstruct`, `lay_out`, on blocks with distinct indices in the scheme that
-- agree with a codeword.
use distributed_jbod.Common.{
  ℕ, zero, suc, ◌+◌, ◌<◌, ◌≡◌, refl, ◌∙◌, ap, ◌≢◌, Option, none, some, List, [], ◌∷◌, length, ok,
  get_or, set, get_or-set_ne, All, arith, lt→ltb, false,
}
use distributed_jbod.Erasure.{
  ShardIndex, Block, Scheme, Slots, total_shards, lay_out, length_differs, note_length,
}
use distributed_jbod.Erasure.Laws.{Matches, slot_count, count_some}

-- The blocks have different indices.
abbrev pub IsOther : ShardIndex → ShardIndex × Block → Type 0
IsOther i p = i ≢ p.0

abbrev pub Distinct : List (ShardIndex × Block) → Type 0
Distinct [] = Unit
Distinct (p ∷ ps) = All (IsOther p.0) ps × Distinct ps

-- A block of the codeword `cw`, at its place, whose slot is free.
pub record Fits (slots : Slots) (cw : List Block) (len : ℕ) (p : ShardIndex × Block) : Type 0 where
  pub inside : p.0 < length cw
  pub free : get_or slots p.0 none ≡ none
  pub same : p.1 ≡ get_or cw p.0 []
  pub sized : length p.1 ≡ len

pub Matches-length : (slots : Slots) (cw : List Block) → Matches slots cw → length slots ≡ length cw
Matches-length [] [] h = refl
Matches-length [] (b ∷ cw) h = absurd h
Matches-length (s ∷ slots) [] h = absurd h
Matches-length (s ∷ slots) (b ∷ cw) h = omega (arith, Matches-length slots cw h.1)

Matches-set :
    (slots : Slots) (cw : List Block) (i : ℕ) (b : Block)
    → Matches slots cw
    → b ≡ get_or cw i []
    → Matches (set slots i (some b)) cw
Matches-set [] [] i b h e = tt
Matches-set [] (c ∷ cw) i b h e = absurd h
Matches-set (s ∷ slots) [] i b h e = absurd h
Matches-set (s ∷ slots) (c ∷ cw) zero b h e = (e, h.1)
Matches-set (s ∷ slots) (c ∷ cw) (suc i) b h e = (h.0, Matches-set slots cw i b h.1 e)

count_some-set :
    (slots : Slots) (i : ℕ) (b : Block)
    → i < length slots
    → get_or slots i none ≡ none
    → count_some (set slots i (some b)) ≡ count_some slots + 1
count_some-set [] i b h e = absurd (omega arith)
count_some-set (s ∷ slots) zero b h e = omega (arith, ap slot_count e)
count_some-set (s ∷ slots) (suc i) b h e = omega (arith, count_some-set slots i b (omega arith) e)

-- A block that fits still fits when another index is filled.
Fits-set :
    (slots : Slots) (cw : List Block) (len i : ℕ) (b : Block) (ps : List (ShardIndex × Block))
    → All (IsOther i) ps
    → All (Fits slots cw len) ps
    → All (Fits (set slots i (some b)) cw len) ps
Fits-set slots cw len i b [] d h = tt
Fits-set slots cw len i b (p ∷ ps) d h = (
  record {
    inside = h.0.inside;
    free = get_or-set_ne slots i p.0 (some b) none d.0 ∙ h.0.free;
    same = h.0.same;
    sized = h.0.sized;
  },
  Fits-set slots cw len i b ps d.1 h.1,
)

-- The length noted so far is none or the codeword's.
abbrev pub Agrees : Option ℕ → ℕ → Type 0
Agrees none len = Unit
Agrees (some n) len = n ≡ len

note_length-Agrees :
    (bl : Option ℕ) (n len : ℕ) → n ≡ len → Agrees bl len → Agrees (note_length bl n) len
note_length-Agrees none n len e h = e
note_length-Agrees (some m) n len e h = h

length_differs-false :
    (bl : Option ℕ) (n len : ℕ) → n ≡ len → Agrees bl len → length_differs bl n ≡ false
length_differs-false none n len e h = refl
length_differs-false (some m) n len e h = ground arith

-- What the loop leaves behind.
pub record LaidOut (s : Scheme) (present : List (ShardIndex × Block)) (slots : Slots)
    (bl : Option ℕ) (cw : List Block) (len : ℕ) (out : Slots × Option ℕ) : Type 0 where
  pub runs : lay_out s present slots bl ≡ ok out
  pub matches : Matches out.0 cw
  pub counted : count_some out.0 ≡ count_some slots + length present
  pub agreed : Agrees out.1 len

-- One round of the loop on a block that fits.
lay_out_step :
    (s : Scheme) (i : ShardIndex) (b : Block) (ps : List (ShardIndex × Block)) (slots : Slots)
    (bl : Option ℕ)
    → i < total_shards s
    → get_or slots i none ≡ none
    → length_differs bl (length b) ≡ false
    → lay_out s ((i, b) ∷ ps) slots bl
      ≡ lay_out s ps (set slots i (some b)) (note_length bl (length b))
unfolding lay_out
lay_out_step s i b ps slots bl h e d = rw (lt→ltb _ _ h, e, d)

-- Distinct blocks of a codeword are all laid out, and nothing else is.
pub lay_out_lem :
    (s : Scheme) (present : List (ShardIndex × Block)) (slots : Slots) (bl : Option ℕ)
    (cw : List Block) (len : ℕ)
    → length cw ≡ total_shards s
    → Matches slots cw
    → Distinct present
    → All (Fits slots cw len) present
    → Agrees bl len
    → (out : Slots × Option ℕ) × LaidOut s present slots bl cw len out
lay_out_lem s [] slots bl cw len hl hm hd hf ha = (
  (slots, bl),
  record { runs = unfold lay_out in refl; matches = hm; counted = omega arith; agreed = ha },
)
lay_out_lem s ((i, b) ∷ ps) slots bl cw len hl hm hd hf ha =
    let fits = hf.0 in
    let (out, rest) =
      lay_out_lem s ps (set slots i (some b)) (note_length bl (length b)) cw len hl
        (Matches-set slots cw i b hm fits.same) hd.1 (Fits-set slots cw len i b ps hd.0 hf.1)
        (note_length-Agrees bl (length b) len fits.sized ha) in
    (
      out,
      record {
        runs =
            lay_out_step s i b ps slots bl (omega (arith, fits.inside)) fits.free
              (length_differs-false bl (length b) len fits.sized ha)
            ∙ rest.runs;
        matches = rest.matches;
        counted = omega (
          arith,
          rest.counted,
          count_some-set slots i b (omega (arith, Matches-length slots cw hm, fits.inside))
              fits.free,
        );
        agreed = rest.agreed;
      },
    )

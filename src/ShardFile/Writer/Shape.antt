-- ===== src/ShardFile/Writer/Shape.antt =====
-- The blocks of a shard file: all have the block length but the last, which may be shorter.
use distributed_jbod.Common.{
  ℕ, zero, suc, ◌+◌, ◌-◌, ◌*◌, ◌≤◌, ◌<◌, ◌≡◌, refl, sym, ◌∙◌, ap, Bool, true, false, some, List, [],
  ◌∷◌, ◌++◌, length, length-append, take, drop, get_elem?, join, All, All-append, arith, ltb,
  Bool-cases, inl, inr, ltb→lt, ltb→le, if◌then◌else◌, take-append_left, drop-append_left,
  drop-drop,
}
use distributed_jbod.Common.Bytes.{slice}
use distributed_jbod.Erasure.{Block}
use distributed_jbod.Erasure.Laws.{HasLength}
use mathlib.Core.List.{append-nil, append_assoc}
use mathlib.Core.Option.{some-injective}

-- The length of the last full block, 0 if there is none.
abbrev pub last_of : ℕ → List Block → ℕ
last_of size [] = 0
last_of size (b ∷ bs) = size

abbrev pub TailShape : ℕ → Bool → ℕ → List Block → List Block → Type 0
TailShape size false last full tail = (tail ≡ []) × (last ≡ last_of size full)
TailShape size true last full tail =
    (b : Block) × (tail ≡ b ∷ []) × (length b ≡ last) × (0 < last) × (last < size)

-- `short` says whether a short block was written, and `last` is the last block's length.
pub record Shape (size : ℕ) (short : Bool) (last : ℕ) (bs : List Block) : Type 0 where
  pub full : List Block
  pub tail : List Block
  pub split : bs ≡ full ++ tail
  pub full_sized : All (HasLength size) full
  pub tail_shape : TailShape size short last full tail

pub Shape-nil : (size : ℕ) → Shape size false 0 []
Shape-nil size = record {
  full = [];
  tail = [];
  split = refl;
  full_sized = tt;
  tail_shape = (refl, refl);
}

last_of-append : (size : ℕ) (full : List Block) (b : Block) → size ≡ last_of size (full ++ b ∷ [])
last_of-append size [] b = refl
last_of-append size (c ∷ full) b = refl

-- A block of 1 to `size` bytes may follow full blocks.
pub Shape-push :
    (size last : ℕ) (bs : List Block) (b : Block)
    → Shape size false last bs
    → 0 < length b
    → length b ≤ size
    → Shape size (if ltb (length b) size then true else false) (length b) (bs ++ b ∷ [])
Shape-push size last bs b s pos le =
    let whole : bs ≡ s.full = s.split ∙ ap (◌++◌ s.full) s.tail_shape.0 ∙ append-nil s.full in
    elim (Bool-cases (ltb (length b) size)) [
      | inl short ↦ rw short (record {
        full = s.full;
        tail = b ∷ [];
        split = ap (λ x. x ++ b ∷ []) whole;
        full_sized = s.full_sized;
        tail_shape = (b, refl, refl, pos, ltb→lt _ _ short);
      })
      | inr full ↦
          let sized : length b ≡ size = omega (arith, ltb→le _ _ full) in
          rw full (record {
            full = s.full ++ b ∷ [];
            tail = [];
            split = ap (λ x. x ++ b ∷ []) whole ∙ sym (append-nil (s.full ++ b ∷ []));
            full_sized = All-append (HasLength size) s.full (b ∷ []) s.full_sized (sized, tt);
            tail_shape = (refl, sized ∙ last_of-append size s.full b);
          })
    ]

join-append : (xs ys : List Block) → join (xs ++ ys) ≡ join xs ++ join ys
join-append [] ys = refl
join-append (x ∷ xs) ys = ap (◌++◌ x) (join-append xs ys) ∙ sym (append_assoc x (join xs) (join ys))

pub join-snoc : (bs : List Block) (b : Block) → join (bs ++ b ∷ []) ≡ join bs ++ b
join-snoc bs b = join-append bs (b ∷ []) ∙ ap (◌++◌ (join bs)) (append-nil b)

length-join_full :
    (size : ℕ) (bs : List Block) → All (HasLength size) bs → length (join bs) ≡ length bs * size
length-join_full size [] h = omega arith
length-join_full size (b ∷ bs) h =
    omega (arith, length-append b (join bs), length-join_full size bs h.1, h.0)

-- The bytes of the first `i` full blocks are skipped together.
drop-join :
    (size i : ℕ) (full tail : List Block)
    → All (HasLength size) full
    → i ≤ length full
    → drop (i * size) (join (full ++ tail)) ≡ join (drop i (full ++ tail))
drop-join size zero full tail h le =
    let none_skipped : 0 * size ≡ 0 = omega arith in
    ap (λ n. drop n (join (full ++ tail))) none_skipped
drop-join size (suc i) [] tail h le = absurd (omega arith)
drop-join size (suc i) (b ∷ full) tail h le =
    let split : suc i * size ≡ length b + i * size = omega (arith, h.0) in
    ap (λ n. drop n (b ++ join (full ++ tail))) split
    ∙ sym (drop-drop (length b) (i * size) (b ++ join (full ++ tail)))
    ∙ ap (drop (i * size)) (drop-append_left b (join (full ++ tail)) (length b) refl)
    ∙ drop-join size i full tail h.1 (omega arith)

drop-get_elem? :
    (bs : List Block) (i : ℕ) (b : Block)
    → get_elem? bs i ≡ some b
    → (rest : List Block) × (drop i bs ≡ b ∷ rest)
drop-get_elem? [] i b e = absurd (cc)
drop-get_elem? (c ∷ bs) zero b e = (bs, ap (λ x. x ∷ bs) (some-injective c b e))
drop-get_elem? (c ∷ bs) (suc i) b e = drop-get_elem? bs i b e

pub get_elem?-lt : (bs : List Block) (i : ℕ) (b : Block) → get_elem? bs i ≡ some b → i < length bs
get_elem?-lt [] i b e = absurd (cc)
get_elem?-lt (c ∷ bs) zero b e = omega arith
get_elem?-lt (c ∷ bs) (suc i) b e = omega (arith, get_elem?-lt bs i b e)

tail_length :
    (size last : ℕ) (short : Bool) (full tail : List Block)
    → TailShape size short last full tail
    → length tail ≤ 1
tail_length size last false full tail h = omega (arith, ap length h.0)
tail_length size last true full tail (b, e, sized, pos, less) = omega (arith, ap length e)

-- Block `i` stands at `i * size` of the joined bytes.
pub slice-join :
    (size last i : ℕ) (short : Bool) (bs : List Block) (b : Block)
    → Shape size short last bs
    → get_elem? bs i ≡ some b
    → slice (join bs) (i * size) (length b) ≡ b
slice-join size last i short bs b s e =
    let (rest, found) = drop-get_elem? bs i b e in
    let lt = get_elem?-lt bs i b e in
    let short_tail = tail_length size last short s.full s.tail s.tail_shape in
    let sizes = ap length s.split ∙ length-append s.full s.tail in
    let skip : drop (i * size) (join bs) ≡ join (drop i bs) =
      rw s.split (drop-join size i s.full s.tail s.full_sized (omega arith)) in
    ap (take (length b)) (skip ∙ ap join found) ∙ take-append_left b (join rest) (length b) refl

last_of-cases : (size : ℕ) (full : List Block) → 0 < length full → last_of size full ≡ size
last_of-cases size [] h = absurd (omega arith)
last_of-cases size (b ∷ full) h = refl

-- The last block of a file has 1 to `size` bytes, and the file's blocks have together
-- `(count - 1) * size + last` bytes.
pub Shape-lengths :
    (size last : ℕ) (short : Bool) (bs : List Block)
    → Shape size short last bs
    → 0 < size
    → 0 < length bs
    → (0 < last) × (last ≤ size) × (length (join bs) ≡ (length bs - 1) * size + last)
Shape-lengths size last short bs s hs hb = go short s.tail_shape
  where
    sizes : length bs ≡ length s.full + length s.tail
    sizes = ap length s.split ∙ length-append s.full s.tail

    joined : length (join bs) ≡ length s.full * size + length (join s.tail)
    joined =
        ap length (ap join s.split ∙ join-append s.full s.tail)
        ∙ length-append (join s.full) (join s.tail)
        ∙ ap (λ n. n + length (join s.tail)) (length-join_full size s.full s.full_sized)

    go :
        (sh : Bool)
        → TailShape size sh last s.full s.tail
        → (0 < last) × (last ≤ size) × (length (join bs) ≡ (length bs - 1) * size + last)
    go false (empty, is_last) =
        let none_left : length s.tail ≡ 0 = ap length empty in
        let no_bytes : length (join s.tail) ≡ 0 = ap (λ t. length (join t)) empty in
        let is_size = is_last ∙ last_of-cases size s.full (omega (arith, sizes, joined)) in
        let n = length s.full - 1 in
        let count : length s.full ≡ suc n = omega (arith, sizes, joined) in
        let left : length bs - 1 ≡ n = omega (arith, sizes, joined) in
        (
          omega (arith, sizes, joined),
          omega (arith, sizes, joined),
          rw left (omega (arith, sizes, joined, ap (λ (m : ℕ). m * size) count)),
        )
    go true (b, only, sized, pos, less) =
        let one_left : length s.tail ≡ 1 = ap length only in
        let bytes : length (join s.tail) ≡ last =
          ap (λ t. length (join t)) only ∙ ap length (append-nil b) ∙ sized in
        let left : length bs - 1 ≡ length s.full = omega (arith, sizes, joined) in
        (pos, omega (arith, sizes, joined), rw left (omega (arith, sizes, joined)))

get_elem?-full :
    (size : ℕ) (full tail : List Block) (i : ℕ) (b : Block)
    → All (HasLength size) full
    → i < length full
    → get_elem? (full ++ tail) i ≡ some b
    → length b ≡ size
get_elem?-full size [] tail i b h lt e = absurd (omega arith)
get_elem?-full size (c ∷ full) tail zero b h lt e = ap length (sym (some-injective c b e)) ∙ h.0
get_elem?-full size (c ∷ full) tail (suc i) b h lt e =
    get_elem?-full size full tail i b h.1 (omega arith) e

get_elem?-tail :
    (full : List Block) (b c : Block) (i : ℕ)
    → i ≡ length full
    → get_elem? (full ++ c ∷ []) i ≡ some b
    → b ≡ c
get_elem?-tail [] b c zero h e = sym (some-injective c b e)
get_elem?-tail [] b c (suc i) h e = absurd (omega arith)
get_elem?-tail (d ∷ full) b c zero h e = absurd (omega arith)
get_elem?-tail (d ∷ full) b c (suc i) h e = get_elem?-tail full b c i (omega arith) e

-- The last block has the length `last`, every other block the length `size`.
pub Shape-block :
    (size last : ℕ) (short : Bool) (bs : List Block) (i : ℕ) (b : Block)
    → Shape size short last bs
    → get_elem? bs i ≡ some b
    → ((i + 1 ≡ length bs → length b ≡ last) × (i + 1 < length bs → length b ≡ size))
Shape-block size last short bs i b s e = go short s.tail_shape
  where
    found : get_elem? (s.full ++ s.tail) i ≡ some b
    found = ap (λ xs. get_elem? xs i) (sym s.split) ∙ e

    sizes : length bs ≡ length s.full + length s.tail
    sizes = ap length s.split ∙ length-append s.full s.tail

    go :
        (sh : Bool)
        → TailShape size sh last s.full s.tail
        → ((i + 1 ≡ length bs → length b ≡ last) × (i + 1 < length bs → length b ≡ size))
    go false (empty, is_last) =
        let none_left : length s.tail ≡ 0 = ap length empty in
        let lt = get_elem?-lt bs i b e in
        let sized =
          get_elem?-full size s.full s.tail i b s.full_sized (omega (arith, sizes)) found in
        (
          λ at_end. sized ∙ sym (is_last ∙ last_of-cases size s.full (omega (arith, sizes))),
          λ before. sized,
        )
    go true (c, only, sized, pos, less) =
        let one_left : length s.tail ≡ 1 = ap length only in
        (
          λ at_end.
              ap length (
                get_elem?-tail s.full b c i (omega (arith, sizes))
                  (ap (λ t. get_elem? (s.full ++ t) i) (sym only) ∙ found))
              ∙ sized,
          λ before. get_elem?-full size s.full s.tail i b s.full_sized (omega (arith, sizes)) found,
        )

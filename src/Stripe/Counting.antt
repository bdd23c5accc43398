-- ===== src/Stripe/Counting.antt =====
-- How many shards a request names and how many blocks of a reply are usable.
use distributed_jbod.Common.{
  ℕ, zero, suc, ◌+◌, ◌≤◌, ◌<◌, ◌≡◌, refl, sym, ◌∙◌, ap, ap₂, Bool, true, false, some, List, [], ◌∷◌,
  map, length, range_from, All, length-map, arith, ◌==◌, ==_of_eq, ==_iff, Bool-cases, inl, inr,
  if◌then◌else◌,
}
use distributed_jbod.Erasure.{ShardIndex, Block, Scheme, total_shards, shard_indices}
use distributed_jbod.Erasure.Filled.{IsIn}
use distributed_jbod.Stripe.{BlockChecksum, ShardBlock, Verdict, usable, faulty, inspect}
use distributed_jbod.Stripe.Encode.{IsSound}
use distributed_jbod.Stripe.Lookup.{
  mem, received_at, Differs, NoRepeat, IsRequest, IsWanted, OtherIndex, OnePerIndex, IsReply,
}
use distributed_jbod.Stripe.Examine.{count_requested, usable_among, add_usable}

abbrev weight : Bool → ℕ
weight b = if b then 1 else 0

-- How often an index occurs in a list.
count_eq : ShardIndex → List ShardIndex → ℕ
count_eq j [] = 0
count_eq j (i ∷ indices) = weight (j == i) + count_eq j indices

count_eq-before : (j start n : ℕ) → j < start → count_eq j (range_from start n) ≡ 0
unfolding count_eq
count_eq-before j start zero h = refl
count_eq-before j start (suc n) h = ground (arith, count_eq-before j (start + 1) n (omega arith))

count_eq-range : (j start n : ℕ) → start ≤ j → j < start + n → count_eq j (range_from start n) ≡ 1
unfolding count_eq
count_eq-range j start zero h k = absurd (omega arith)
count_eq-range j start (suc n) h k = elim (Bool-cases (j == start)) [
  | inl here ↦
      rw here
        (omega (arith, count_eq-before j (start + 1) n (omega (arith, (==_iff j start).0 here))))
  | inr there ↦
      rw there (omega (arith, count_eq-range j (start + 1) n (ground arith) (omega arith)))
]

not-mem : (j : ShardIndex) (js : List ShardIndex) → All (Differs j) js → mem j js ≡ false
not-mem j [] h = refl
not-mem j (i ∷ js) h = ground (arith, h.0, not-mem j js h.1)

weight-mem :
    (j i : ShardIndex) (js : List ShardIndex)
    → mem j js ≡ false
    → weight (mem i (j ∷ js)) ≡ weight (j == i) + weight (mem i js)
weight-mem j i js h = elim (Bool-cases (j == i)) [
  | inl same ↦ rw (same, ← (==_iff j i).0 same, h)
  | inr other ↦ rw other (omega arith)
]

count_requested-cons :
    (j : ShardIndex) (js indices : List ShardIndex)
    → mem j js ≡ false
    → count_requested (j ∷ js) indices ≡ count_eq j indices + count_requested js indices
unfolding count_requested count_eq
count_requested-cons j js [] h = refl
count_requested-cons j js (i ∷ indices) h =
    omega (arith, weight-mem j i js h, count_requested-cons j js indices h)

count_requested-nil : (indices : List ShardIndex) → count_requested [] indices ≡ 0
unfolding count_requested
count_requested-nil [] = refl
count_requested-nil (i ∷ indices) = omega (arith, count_requested-nil indices)

abbrev IsBelow : ℕ → ShardIndex → Type 0
IsBelow n i = i < n

-- Indices below `n` without repetition are met once each on the way through `0 .. n`.
count_requested-range :
    (requested : List ShardIndex) (n : ℕ)
    → NoRepeat requested
    → All (IsBelow n) requested
    → count_requested requested (range_from 0 n) ≡ length requested
count_requested-range [] n d h = count_requested-nil (range_from 0 n)
count_requested-range (j ∷ js) n d h = omega (
  arith,
  count_requested-cons j js (range_from 0 n) (not-mem j js d.0),
  count_eq-range j 0 n (omega arith) (omega (arith, h.0)),
  count_requested-range js n d.1 h.1,
)

pub count_requested_lem :
    (s : Scheme) (requested : List ShardIndex)
    → IsRequest s requested
    → count_requested requested (shard_indices s) ≡ length requested
count_requested_lem s requested r =
    count_requested-range requested (total_shards s) r.distinct r.inside

abbrev pub indices_of : List ShardBlock → List ShardIndex
indices_of = map (λ (b : ShardBlock). b.index)

Differs-indices_of :
    (i : ShardIndex) (bs : List ShardBlock)
    → All (OtherIndex i) bs
    → All (Differs i) (indices_of bs)
Differs-indices_of i [] h = tt
Differs-indices_of i (b ∷ bs) h = (h.0, Differs-indices_of i bs h.1)

NoRepeat-indices_of : (bs : List ShardBlock) → OnePerIndex bs → NoRepeat (indices_of bs)
NoRepeat-indices_of [] h = tt
NoRepeat-indices_of (b ∷ bs) h = (Differs-indices_of b.index bs h.0, NoRepeat-indices_of bs h.1)

inside-indices_of :
    (s : Scheme) (requested : List ShardIndex) (bs : List ShardBlock)
    → All (IsWanted s requested) bs
    → All (IsIn s) (indices_of bs)
inside-indices_of s requested [] h = tt
inside-indices_of s requested (b ∷ bs) h = (h.0.0, inside-indices_of s requested bs h.1)

-- The indices of a reply are those of a request.
reply-IsRequest :
    (s : Scheme) (requested : List ShardIndex) (bs : List ShardBlock)
    → IsReply s requested bs
    → IsRequest s (indices_of bs)
reply-IsRequest s requested bs r = record {
  inside = inside-indices_of s requested bs r.wanted;
  distinct = NoRepeat-indices_of bs r.distinct;
}

unrequested_not_received :
    (s : Scheme) (requested : List ShardIndex) (bs : List ShardBlock) (i : ShardIndex)
    → All (IsWanted s requested) bs
    → mem i requested ≡ false
    → mem i (indices_of bs) ≡ false
unrequested_not_received s requested [] i h e = refl
unrequested_not_received s requested (b ∷ bs) i h e = elim (Bool-cases (b.index == i)) [
  | inl here ↦ cc (h.0.1, e, (==_iff _ _).0 here)
  | inr later ↦ rw later (unrequested_not_received s requested bs i h.1 e)
]

module _ (xxh3_64 : Block → BlockChecksum) (len : ℕ) where
  inspect_sound :
      (b : ShardBlock) → IsSound xxh3_64 len b → inspect xxh3_64 len (some b) ≡ usable b.bytes
  unfolding inspect
  inspect_sound b h = rw (==_of_eq _ _ h.sized, ==_of_eq _ _ (sym h.checked))

  abbrev is_usable : Verdict → Bool
  is_usable (usable b) = true
  is_usable (faulty kind) = false

  -- Where every received block is sound, the usable indices are the received ones.
  sound_usable :
      (bs : List ShardBlock) (i : ShardIndex)
      → All (IsSound xxh3_64 len) bs
      → is_usable (inspect xxh3_64 len (received_at bs i)) ≡ mem i (indices_of bs)
  sound_usable [] i h = unfold inspect in refl
  sound_usable (b ∷ bs) i h = elim (Bool-cases (b.index == i)) [
    | inl here ↦ rw (here, inspect_sound b h.0)
    | inr later ↦ rw later (sound_usable bs i h.1)
  ]

  add_usable-length :
      (i : ShardIndex) (v : Verdict) (rest : List (ShardIndex × Block))
      → length (add_usable i v rest) ≡ weight (is_usable v) + length rest
  add_usable-length i (usable b) rest = omega arith
  add_usable-length i (faulty kind) rest = omega arith

  sound_usable_count :
      (s : Scheme) (requested : List ShardIndex) (bs : List ShardBlock) (indices : List ShardIndex)
      → All (IsWanted s requested) bs
      → All (IsSound xxh3_64 len) bs
      → length (usable_among xxh3_64 len requested bs indices)
        ≡ count_requested (indices_of bs) indices
  unfolding usable_among count_requested
  sound_usable_count s requested bs [] hw hs = refl
  sound_usable_count s requested bs (i ∷ indices) hw hs = elim (Bool-cases (mem i requested)) [
    | inl asked ↦ rw asked (
        add_usable-length i (inspect xxh3_64 len (received_at bs i))
          (usable_among xxh3_64 len requested bs indices)
        ∙ ap₂ ◌+◌ (ap weight (sound_usable bs i hs))
            (sound_usable_count s requested bs indices hw hs))
    | inr unasked ↦
        rw (unasked, unrequested_not_received s requested bs i hw unasked)
          (omega (arith, sound_usable_count s requested bs indices hw hs))
  ]

  -- All blocks of a sound reply are usable.
  pub usable_among_sound :
      (s : Scheme) (requested : List ShardIndex) (bs : List ShardBlock)
      → IsReply s requested bs
      → All (IsSound xxh3_64 len) bs
      → length (usable_among xxh3_64 len requested bs (shard_indices s)) ≡ length bs
  usable_among_sound s requested bs r h =
      sound_usable_count s requested bs (shard_indices s) r.wanted h
      ∙ count_requested_lem s (indices_of bs) (reply-IsRequest s requested bs r)
      ∙ length-map (λ (b : ShardBlock). b.index) bs

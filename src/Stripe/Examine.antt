-- ===== src/Stripe/Examine.antt =====
-- The third loop of `decode_stripe`: which requested blocks are usable and which are faults, said by
-- a search in the request and the reply.
use distributed_jbod.Common.{
  ℕ, zero, suc, ◌+◌, ◌≤◌, ◌<◌, ◌≡◌, refl, ◌∙◌, ap, Bool, false, Option, none, some, List, [], ◌∷◌,
  length, get_or, range_from, All, All-weaken, arith, ◌==◌, ==_iff, Bool-cases, inl, inr,
  if◌then◌else◌,
}
use mathlib.Core.Path.{subst}
use distributed_jbod.Erasure.{ShardIndex, Block}
use distributed_jbod.Erasure.Layout.{IsOther, Distinct}
use distributed_jbod.Erasure.Reconstruct.{IsBlockOf}
use distributed_jbod.Stripe.{
  BlockChecksum, ShardBlock, BlockFault, Verdict, usable, faulty, push, inspect, examine,
}
use distributed_jbod.Stripe.Lookup.{mem, received_at}

abbrev pub add_usable : ShardIndex → Verdict → List (ShardIndex × Block) → List (ShardIndex × Block)
add_usable i (usable b) rest = (i, b) ∷ rest
add_usable i (faulty kind) rest = rest

abbrev pub add_fault : ShardIndex → Verdict → List BlockFault → List BlockFault
add_fault i (usable b) rest = rest
add_fault i (faulty kind) rest = record { index = i; kind = kind } ∷ rest

-- How many of the indices were requested.
unfoldable pub count_requested : List ShardIndex → List ShardIndex → ℕ
count_requested requested [] = 0
count_requested requested (i ∷ indices) =
    (if mem i requested then 1 else 0) + count_requested requested indices

module _ (xxh3_64 : Block → BlockChecksum) (len : ℕ) (cw : List Block) where
  -- A block whose length and checksum are right has the codeword's bytes: the checksum has not missed
  -- a corruption.
  pub record IsHonest (b : ShardBlock) : Type 0 where
    pub told : length b.bytes ≡ len → xxh3_64 b.bytes ≡ b.checksum → b.bytes ≡ get_or cw b.index []

  abbrev AtIndex : ShardIndex → Verdict → Type 0
  AtIndex i (usable b) = (length b ≡ len) × (b ≡ get_or cw i [])
  AtIndex i (faulty kind) = Unit

  inspect-AtIndex : (b : ShardBlock) → IsHonest b → AtIndex b.index (inspect xxh3_64 len (some b))
  unfolding inspect
  inspect-AtIndex b h = elim (Bool-cases (length b.bytes == len)) [
    | inl sized ↦ elim (Bool-cases (xxh3_64 b.bytes == b.checksum)) [
      | inl checked ↦
          let e = (==_iff _ _).0 sized in rw (sized, checked) (e, h.told e ((==_iff _ _).0 checked))
      | inr unchecked ↦ rw (sized, unchecked) tt
    ]
    | inr odd ↦ rw odd tt
  ]

  received-AtIndex :
      (i : ShardIndex) (received : List ShardBlock)
      → All IsHonest received
      → AtIndex i (inspect xxh3_64 len (received_at received i))
  received-AtIndex i [] h = unfold inspect in tt
  received-AtIndex i (b ∷ received) h = elim (Bool-cases (b.index == i)) [
    | inl here ↦ rw here (
        subst (λ j. AtIndex j (inspect xxh3_64 len (some b))) ((==_iff _ _).0 here)
          (inspect-AtIndex b h.0))
    | inr later ↦ rw later (received-AtIndex i received h.1)
  ]

module _ (xxh3_64 : Block → BlockChecksum) (len : ℕ) (requested : List ShardIndex)
    (received : List ShardBlock) where
  abbrev pub verdict_at : ShardIndex → Verdict
  verdict_at i = inspect xxh3_64 len (received_at received i)

  unfoldable pub usable_among : List ShardIndex → List (ShardIndex × Block)
  usable_among [] = []
  usable_among (i ∷ indices) =
      let rest = usable_among indices in
      if mem i requested then add_usable i (verdict_at i) rest else rest

  unfoldable pub faults_among : List ShardIndex → List BlockFault
  faults_among [] = []
  faults_among (i ∷ indices) =
      let rest = faults_among indices in
      if mem i requested then add_fault i (verdict_at i) rest else rest

  push_lem :
      (i : ShardIndex) (v : Verdict) (good : List (ShardIndex × Block)) (faults : List BlockFault)
      → push i v (good, faults) ≡ (add_usable i v good, add_fault i v faults)
  push_lem i (usable b) good faults = refl
  push_lem i (faulty kind) good faults = refl

  -- The loop over the tables finds what a search in the lists finds.
  pub examine_lem :
      (was : List Bool) (by_index : List (Option ShardBlock)) (indices : List ShardIndex)
      → ((i : ℕ) → get_or was i false ≡ mem i requested)
      → ((i : ℕ) → get_or by_index i none ≡ received_at received i)
      → examine xxh3_64 len was by_index indices ≡ (usable_among indices, faults_among indices)
  unfolding examine usable_among faults_among
  examine_lem was by_index [] hw hb = refl
  examine_lem was by_index (i ∷ indices) hw hb = elim (Bool-cases (mem i requested)) [
    | inl asked ↦
        rw (hw i, hb i, examine_lem was by_index indices hw hb, asked)
          (push_lem i (verdict_at i) (usable_among indices) (faults_among indices))
    | inr unasked ↦ rw (hw i, examine_lem was by_index indices hw hb, unasked)
  ]

  add_count :
      (i : ShardIndex) (v : Verdict) (good : List (ShardIndex × Block)) (faults : List BlockFault)
      → length (add_usable i v good) + length (add_fault i v faults)
        ≡ 1 + (length good + length faults)
  add_count i (usable b) good faults = omega arith
  add_count i (faulty kind) good faults = omega arith

  -- Every requested index is usable or a fault, and not both.
  pub usable-add-faults :
      (indices : List ShardIndex)
      → length (usable_among indices) + length (faults_among indices)
        ≡ count_requested requested indices
  unfolding usable_among faults_among count_requested
  usable-add-faults [] = omega arith
  usable-add-faults (i ∷ indices) = elim (Bool-cases (mem i requested)) [
    | inl asked ↦ rw asked (
        add_count i (verdict_at i) (usable_among indices) (faults_among indices)
        ∙ ap (◌+◌ 1) (usable-add-faults indices))
    | inr unasked ↦ rw unasked (omega (arith, usable-add-faults indices))
  ]

  -- The usable blocks are blocks of the codeword.
  add_usable-IsBlockOf :
      (cw : List Block) (i : ShardIndex) (v : Verdict) (rest : List (ShardIndex × Block))
      → i < length cw
      → AtIndex xxh3_64 len cw i v
      → All (IsBlockOf cw len) rest
      → All (IsBlockOf cw len) (add_usable i v rest)
  add_usable-IsBlockOf cw i (usable b) rest hi h hr =
      (record { inside = hi; same = h.1; sized = h.0 }, hr)
  add_usable-IsBlockOf cw i (faulty kind) rest hi h hr = hr

  pub usable_among-IsBlockOf :
      (cw : List Block) (start n : ℕ)
      → All (IsHonest xxh3_64 len cw) received
      → start + n ≤ length cw
      → All (IsBlockOf cw len) (usable_among (range_from start n))
  unfolding usable_among
  usable_among-IsBlockOf cw start zero h p = tt
  usable_among-IsBlockOf cw start (suc n) h p =
      let rest = usable_among-IsBlockOf cw (start + 1) n h (omega arith) in
      elim (Bool-cases (mem start requested)) [
        | inl asked ↦ rw asked (
            add_usable-IsBlockOf cw start (verdict_at start)
              (usable_among (range_from (start + 1) n)) (omega arith)
              (received-AtIndex xxh3_64 len cw start received h) rest)
        | inr unasked ↦ rw unasked rest
      ]

  abbrev IsFrom : ℕ → ShardIndex × Block → Type 0
  IsFrom start p = start ≤ p.0

  add_usable-IsFrom :
      (start i : ℕ) (v : Verdict) (rest : List (ShardIndex × Block))
      → start ≤ i
      → All (IsFrom start) rest
      → All (IsFrom start) (add_usable i v rest)
  add_usable-IsFrom start i (usable b) rest h hr = (h, hr)
  add_usable-IsFrom start i (faulty kind) rest h hr = hr

  usable_among-IsFrom :
      (low start n : ℕ) → low ≤ start → All (IsFrom low) (usable_among (range_from start n))
  unfolding usable_among
  usable_among-IsFrom low start zero h = tt
  usable_among-IsFrom low start (suc n) h =
      let rest = usable_among-IsFrom low (start + 1) n (omega arith) in
      elim (Bool-cases (mem start requested)) [
        | inl asked ↦ rw asked (
            add_usable-IsFrom low start (verdict_at start) (usable_among (range_from (start + 1) n))
              h rest)
        | inr unasked ↦ rw unasked rest
      ]

  add_usable-Distinct :
      (i : ℕ) (v : Verdict) (rest : List (ShardIndex × Block))
      → All (IsFrom (i + 1)) rest
      → Distinct rest
      → Distinct (add_usable i v rest)
  add_usable-Distinct i (usable b) rest h d =
      (All-weaken (IsFrom (i + 1)) (IsOther i) rest (λ p q. omega arith) h, d)
  add_usable-Distinct i (faulty kind) rest h d = d

  pub usable_among-Distinct : (start n : ℕ) → Distinct (usable_among (range_from start n))
  unfolding usable_among
  usable_among-Distinct start zero = tt
  usable_among-Distinct start (suc n) =
      let rest = usable_among-Distinct (start + 1) n in
      elim (Bool-cases (mem start requested)) [
        | inl asked ↦ rw asked (
            add_usable-Distinct start (verdict_at start) (usable_among (range_from (start + 1) n))
              (usable_among-IsFrom (start + 1) (start + 1) n (omega arith)) rest)
        | inr unasked ↦ rw unasked rest
      ]

-- ===== src/Stripe/Lookup.antt =====
-- The first two loops of `decode_stripe`: on a request and a reply that follow the protocol they
-- succeed, and their tables answer as a search in the two lists does.
use distributed_jbod.Common.{
  ℕ, ◌<◌, ◌≡◌, refl, ◌∙◌, ◌≢◌, Bool, true, false, ◌||◌, Option, none, some, List, [], ◌∷◌, ok,
  length, length-set, get_or, set, get_or-set_self, get_or-set_ne, get_or-replicate, All-of,
  length-replicate, replicate, All, arith, lt→ltb, ◌==◌, ==_of_eq, ==_iff, Bool-cases, inl, inr,
  if◌then◌else◌,
}
use distributed_jbod.Erasure.{ShardIndex, Scheme, total_shards}
use distributed_jbod.Erasure.Filled.{IsIn}
use distributed_jbod.Stripe.{ShardBlock, note_requested, index_received}

abbrev pub mem : ShardIndex → List ShardIndex → Bool
mem i [] = false
mem i (j ∷ js) = if j == i then true else mem i js

-- The block that was received for an index.
abbrev pub received_at : List ShardBlock → ShardIndex → Option ShardBlock
received_at [] i = none
received_at (b ∷ received) i = if b.index == i then some b else received_at received i

abbrev pub Differs : ShardIndex → ShardIndex → Type 0
Differs i j = i ≢ j

abbrev pub NoRepeat : List ShardIndex → Type 0
NoRepeat [] = Unit
NoRepeat (i ∷ is) = All (Differs i) is × NoRepeat is

-- A request names shards of the scheme, each once.
pub record IsRequest (s : Scheme) (requested : List ShardIndex) : Type 0 where
  pub inside : All (IsIn s) requested
  pub distinct : NoRepeat requested

abbrev pub IsWanted : Scheme → List ShardIndex → ShardBlock → Type 0
IsWanted s requested b = (b.index < total_shards s) × (mem b.index requested ≡ true)

abbrev pub OtherIndex : ShardIndex → ShardBlock → Type 0
OtherIndex i b = i ≢ b.index

abbrev pub OnePerIndex : List ShardBlock → Type 0
OnePerIndex [] = Unit
OnePerIndex (b ∷ bs) = All (OtherIndex b.index) bs × OnePerIndex bs

-- A reply holds blocks that were requested, one for each index at most.
pub record IsReply (s : Scheme) (requested : List ShardIndex) (received : List ShardBlock)
    : Type 0 where
  pub wanted : All (IsWanted s requested) received
  pub distinct : OnePerIndex received

get_or-set {ℓ} :
    {A : Type ℓ} (xs : List A) (i j : ℕ) (v d : A)
    → i < length xs
    → get_or (set xs i v) j d ≡ (if i == j then v else get_or xs j d)
get_or-set xs i j v d h = elim (Bool-cases (i == j)) [
  | inl same ↦ rw (same, ← (==_iff i j).0 same) (get_or-set_self xs i v d h)
  | inr other ↦ rw other (get_or-set_ne xs i j v d (λ e. cc (other, ==_of_eq i j e)))
]

abbrev IsUnset : List Bool → ShardIndex → Type 0
IsUnset was i = get_or was i false ≡ false

IsUnset-set :
    (was : List Bool) (i : ShardIndex) (js : List ShardIndex)
    → All (Differs i) js
    → All (IsUnset was) js
    → All (IsUnset (set was i true)) js
IsUnset-set was i [] d h = tt
IsUnset-set was i (j ∷ js) d h =
    (get_or-set_ne was i j true false d.0 ∙ h.0, IsUnset-set was i js d.1 h.1)

note_requested_from :
    (s : Scheme) (requested : List ShardIndex) (was : List Bool)
    → length was ≡ total_shards s
    → All (IsIn s) requested
    → NoRepeat requested
    → All (IsUnset was) requested
    → (out : List Bool) × (note_requested s requested was ≡ ok out)
      × ((i : ℕ) → get_or out i false ≡ (mem i requested || get_or was i false))
unfolding note_requested
note_requested_from s [] was hl hi hd hu = (was, refl, λ i. refl)
note_requested_from s (j ∷ requested) was hl hi hd hu =
    let (out, runs, table) =
      note_requested_from s requested (set was j true) (length-set was j true ∙ hl) hi.1 hd.1
        (IsUnset-set was j requested hd.0 hu.1) in
    (
      out,
      rw (lt→ltb _ _ hi.0, hu.0) runs,
      λ i. ground (arith, table i, get_or-set was j i true false (omega arith)),
    )

-- The table of the request.
pub note_requested_lem :
    (s : Scheme) (requested : List ShardIndex)
    → IsRequest s requested
    → (was : List Bool) × (note_requested s requested (replicate (total_shards s) false) ≡ ok was)
      × ((i : ℕ) → get_or was i false ≡ mem i requested)
note_requested_lem s requested r =
    let n = total_shards s in
    let (out, runs, table) =
      note_requested_from s requested (replicate n false) (length-replicate n false) r.inside
        r.distinct
        (All-of (IsUnset (replicate n false)) requested (λ i. get_or-replicate n i false)) in
    (out, runs, λ i. ground (arith, table i, get_or-replicate n i false))

-- What the table of the received blocks holds, from a table that holds `old`.
abbrev found_or : Option ShardBlock → Option ShardBlock → Option ShardBlock
found_or none old = old
found_or (some b) old = some b

abbrev IsFree : List (Option ShardBlock) → ShardBlock → Type 0
IsFree by_index b = get_or by_index b.index none ≡ none

IsFree-set :
    (by_index : List (Option ShardBlock)) (c : ShardBlock) (bs : List ShardBlock)
    → All (OtherIndex c.index) bs
    → All (IsFree by_index) bs
    → All (IsFree (set by_index c.index (some c))) bs
IsFree-set by_index c [] d h = tt
IsFree-set by_index c (b ∷ bs) d h = (
  get_or-set_ne by_index c.index b.index (some c) none d.0 ∙ h.0,
  IsFree-set by_index c bs d.1 h.1,
)

-- No later block has the index of an earlier one.
received_at-none :
    (i : ShardIndex) (bs : List ShardBlock) → All (OtherIndex i) bs → received_at bs i ≡ none
received_at-none i [] h = refl
received_at-none i (b ∷ bs) h = ground (arith, h.0, received_at-none i bs h.1)

index_received_from :
    (s : Scheme) (requested : List ShardIndex) (was : List Bool) (received : List ShardBlock)
    (by_index : List (Option ShardBlock))
    → ((i : ℕ) → get_or was i false ≡ mem i requested)
    → length by_index ≡ total_shards s
    → All (IsWanted s requested) received
    → OnePerIndex received
    → All (IsFree by_index) received
    → (out : List (Option ShardBlock)) × (index_received s was received by_index ≡ ok out)
      × ((i : ℕ) → get_or out i none ≡ found_or (received_at received i) (get_or by_index i none))
unfolding index_received
index_received_from s requested was [] by_index ht hl hw hd hf = (by_index, refl, λ i. refl)
index_received_from s requested was (b ∷ received) by_index ht hl hw hd hf =
    let (out, runs, table) =
      index_received_from s requested was received (set by_index b.index (some b)) ht
        (length-set by_index b.index (some b) ∙ hl) hw.1 hd.1
        (IsFree-set by_index b received hd.0 hf.1) in
    let asked : get_or was b.index false ≡ true = ht b.index ∙ hw.0.1 in
    (
      out,
      rw (lt→ltb _ _ hw.0.0, asked, hf.0) runs,
      λ i. ground (
        arith,
        table i,
        get_or-set by_index b.index i (some b) none (omega (arith, hw.0.0)),
        received_at-none b.index received hd.0,
      ),
    )

-- The table of the reply.
pub index_received_lem :
    (s : Scheme) (requested : List ShardIndex) (was : List Bool) (received : List ShardBlock)
    → ((i : ℕ) → get_or was i false ≡ mem i requested)
    → IsReply s requested received
    → (by_index : List (Option ShardBlock)) × (index_received s was received
          (replicate (total_shards s) none)
        ≡ ok by_index)
      × ((i : ℕ) → get_or by_index i none ≡ received_at received i)
index_received_lem s requested was received ht r =
    let n = total_shards s in
    let (out, runs, table) =
      index_received_from s requested was received (replicate n none) ht
        (length-replicate {A = Option ShardBlock} n none) r.wanted r.distinct
        (All-of (IsFree (replicate n none)) received (λ b. get_or-replicate n b.index none)) in
    (out, runs, λ i. ground (arith, table i, get_or-replicate {A = Option ShardBlock} n i none))

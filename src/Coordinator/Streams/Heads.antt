-- ===== src/Coordinator/Streams/Heads.antt =====
-- What the heads of the streams hold, and what a round takes of them.
use mathlib.Core.Path.{subst}
use mathlib.Core.Option.{some-injective}
use distributed_jbod.Common.{
  ℕ, ◌+◌, ◌≤◌, ◌≡◌, refl, sym, Bool, true, false, Option, none, some, List, [], ◌∷◌, length,
  length-append, All, All-append, arith, Bool-cases, ◌⊎◌, inl, inr, bytes_eq, bytes_eq→eq,
  bytes_eq_refl, if◌then◌else◌, &&_split,
}
use distributed_jbod.ShardFile.{VersionId}
use distributed_jbod.Coordinator.{LocatedRecord}
use distributed_jbod.Coordinator.Copies.OneVersion.{AreOf}
use distributed_jbod.Coordinator.Streams.{
  StreamedRecord, RecordSource, Lane, Key, key_of, key_ltb, least, smallest, matches_key,
  taken_head, taken, group_of,
}

abbrev pub held : Option StreamedRecord → ℕ
held none = 0
held (some h) = 1

-- How many records a lane can still yield.
abbrev pub lane_size : Lane → ℕ
lane_size lane = length lane.source.items + held lane.head

abbrev pub remaining : List Lane → ℕ
remaining [] = 0
remaining (lane ∷ lanes) = lane_size lane + remaining lanes

-- How many results the streams hold.
abbrev pub stream_size : List RecordSource → ℕ
stream_size [] = 0
stream_size (source ∷ sources) = length source.items + stream_size sources

pub taken_head-some :
    (key : Key) (head : Option StreamedRecord)
    → matches_key key head ≡ true
    → (length (taken_head key head) ≡ 1) × (held head ≡ 1)
taken_head-some key none e = absurd (cc)
taken_head-some key (some h) e = rw e (refl, refl)

pub taken_head-none :
    (key : Key) (head : Option StreamedRecord)
    → matches_key key head ≡ false
    → length (taken_head key head) ≡ 0
taken_head-none key none e = refl
taken_head-none key (some h) e = rw e refl

taken_head_key :
    (key : Key) (head : Option StreamedRecord)
    → All (λ (h : StreamedRecord). h.found.version ≡ key.1) (taken_head key head)
taken_head_key key none = tt
taken_head_key key (some h) = elim (Bool-cases (matches_key key (some h))) [
  | inl here ↦
      let (at_hash, at_version) =
        &&_split (bytes_eq h.found.key_hash key.0) (bytes_eq h.found.version key.1) here in
      rw here (bytes_eq→eq h.found.version key.1 at_version, tt)
  | inr other ↦ rw other tt
]

-- All that is taken is of one version.
pub taken_key :
    (key : Key) (lanes : List Lane)
    → All (λ (h : StreamedRecord). h.found.version ≡ key.1) (taken key lanes)
unfolding taken
taken_key key [] = tt
taken_key key (lane ∷ lanes) =
    All-append (λ (h : StreamedRecord). h.found.version ≡ key.1) (taken_head key lane.head)
      (taken key lanes) (taken_head_key key lane.head) (taken_key key lanes)

matches_own : (h : StreamedRecord) → matches_key (key_of h) (some h) ≡ true
matches_own h = rw (bytes_eq_refl h.found.key_hash, bytes_eq_refl h.found.version) refl

matches_at :
    (h : StreamedRecord) (key : Key) → some (key_of h) ≡ some key → matches_key key (some h) ≡ true
matches_at h key e =
    subst (λ (k : Key). matches_key k (some h) ≡ true) (some-injective _ _ e) (matches_own h)

-- The least key is that of the head or of the rest.
least_lem :
    (head : Option StreamedRecord) (rest : Option Key) (key : Key)
    → least head rest ≡ some key
    → (matches_key key head ≡ true) ⊎ (rest ≡ some key)
least_lem none rest key e = inr e
least_lem (some h) none key e = inl (matches_at h key e)
least_lem (some h) (some k) key e = elim (Bool-cases (key_ltb k (key_of h))) [
  | inl less ↦ inr (subst (λ (test : Bool). some (if test then k else key_of h) ≡ some key) less e)
  | inr not_less ↦ inl (
      matches_at h key
        (subst (λ (test : Bool). some (if test then k else key_of h) ≡ some key) not_less e))
]

-- A smallest key stands at a head.
pub smallest-taken :
    (key : Key) (lanes : List Lane) → smallest lanes ≡ some key → 1 ≤ length (taken key lanes)
unfolding smallest taken
smallest-taken key [] e = absurd (cc)
smallest-taken key (lane ∷ lanes) e =
    let counted = length-append (taken_head key lane.head) (taken key lanes) in
    elim (least_lem lane.head (smallest lanes) key e) [
      | inl own ↦ let (one, there) = taken_head-some key lane.head own in omega arith
      | inr later ↦ let rest = smallest-taken key lanes later in omega arith
    ]

AreOf-group_of :
    (v : VersionId) (items : List StreamedRecord)
    → All (λ (h : StreamedRecord). h.found.version ≡ v) items
    → AreOf v (group_of items)
AreOf-group_of v [] a = tt
AreOf-group_of v (h ∷ items) (same, a) = (same, AreOf-group_of v items a)

pub least-none :
    (head : Option StreamedRecord) (rest : Option Key)
    → least head rest ≡ none
    → (head ≡ none) × (rest ≡ none)
least-none none rest e = (refl, e)
least-none (some h) none e = absurd (cc)
least-none (some h) (some k) e = absurd (cc)

-- What is taken at the smallest key is some copies of one version.
pub taken_group :
    (key : Key) (lanes : List Lane)
    → smallest lanes ≡ some key
    → (c : LocatedRecord) × (copies : List LocatedRecord) × (group_of (taken key lanes)
        ≡ c ∷ copies)
      × AreOf c.found.version copies
taken_group key lanes e =
    outcome (taken key lanes) (smallest-taken key lanes e) (taken_key key lanes)
  where
    outcome :
        (items : List StreamedRecord)
        → 1 ≤ length items
        → All (λ (h : StreamedRecord). h.found.version ≡ key.1) items
        → (c : LocatedRecord) × (copies : List LocatedRecord) × (group_of items ≡ c ∷ copies)
          × AreOf c.found.version copies
    outcome [] some_item a = absurd (omega arith)
    outcome (h ∷ items) some_item (same, a) = (
      record { device = h.device; found = h.found },
      group_of items,
      refl,
      subst (λ (x : VersionId). AreOf x (group_of items)) (sym same) (AreOf-group_of key.1 items a),
    )

-- When there is no smallest key, no head holds a record.
pub smallest-none_heads :
    (lanes : List Lane) → smallest lanes ≡ none → All (λ (l : Lane). l.head ≡ none) lanes
unfolding smallest
smallest-none_heads [] e = tt
smallest-none_heads (lane ∷ lanes) e =
    let (empty, ended) = least-none lane.head (smallest lanes) e in
    (empty, smallest-none_heads lanes ended)

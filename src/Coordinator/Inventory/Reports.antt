-- ===== src/Coordinator/Inventory/Reports.antt =====
-- Every failed stream is reported when the merge of an inventory ends.
use mathlib.Core.Path.{subst}
use distributed_jbod.Common.{
  ◌≡◌, ◌⊎◌, false, none, List, [], ◌∷◌, All, All-weaken, Bool-cases, inl, inr,
}
use distributed_jbod.Common.Members.{All-of_IsIn, IsIn-map}
use distributed_jbod.Cluster.{DeviceId, NodeId}
use distributed_jbod.Coordinator.Streams.{RecordSource, Lane, Key, smallest, matches_key}
use distributed_jbod.Coordinator.Streams.Heads.{least-none}
use distributed_jbod.Coordinator.Inventory.{Unread, advance, advance_taken, start}
use distributed_jbod.Coordinator.Inventory.Unread.{
  has_failure, IsUnread, IsPending, HasPending, IsOwed, advance-owed, advance_taken-keeps,
  start-keeps,
}

-- What is owed stays owed when a lane is put in front.
IsOwed-before :
    (d : DeviceId) (lane : Lane) (state : List Lane × Unread)
    → IsOwed d state
    → IsOwed d (lane ∷ state.0, state.1)
IsOwed-before d lane state (inl i) = inl i
IsOwed-before d lane state (inr p) = inr (inr p)

-- A lane that is pending after its step is owed, whatever the other lanes do.
IsOwed-first :
    (d : DeviceId) (lane : Lane) (u last : Unread) (lanes : List Lane)
    → (IsUnread d u → IsUnread d last)
    → (IsUnread d u ⊎ IsPending d lane)
    → IsOwed d (lane ∷ lanes, last)
IsOwed-first d lane u last lanes keeps (inl i) = inl (keeps i)
IsOwed-first d lane u last lanes keeps (inr p) = inr (inl p)

or_else : {A B C : Type 0} → (B → C) → (A ⊎ B) → A ⊎ C
or_else f (inl a) = inl a
or_else f (inr b) = inr (f b)

start-IsOwed :
    (sources : List RecordSource) (u : Unread)
    → All
        (λ (s : RecordSource). (has_failure s.items ≡ false) ⊎ IsOwed s.device (start sources u))
        sources
unfolding start
start-IsOwed [] u = tt
start-IsOwed (source ∷ sources) u =
    let lane : Lane = record { source = source; head = none } in
    let more = (advance lane u).1 in
    let later = start sources more in
    (
      elim (Bool-cases (has_failure source.items)) [
        | inl fails ↦ inr (
            IsOwed-first source.device (advance lane u).0 more later.1 later.0
              (start-keeps source.device sources more) (advance-owed lane u fails))
        | inr good ↦ inl good
      ],
      All-weaken (λ (s : RecordSource). (has_failure s.items ≡ false) ⊎ IsOwed s.device later)
          (λ (s : RecordSource).
            (has_failure s.items ≡ false) ⊎ IsOwed s.device ((advance lane u).0 ∷ later.0, later.1))
          sources (λ s. or_else (IsOwed-before s.device (advance lane u).0 later))
          (start-IsOwed sources more),
    )

advance_taken-pending :
    (d : DeviceId) (key : Key) (lanes : List Lane) (u : Unread)
    → HasPending d lanes
    → IsOwed d (advance_taken key lanes u)
unfolding advance_taken
advance_taken-pending d key [] u p = absurd p
advance_taken-pending d key (lane ∷ lanes) u p = elim (Bool-cases (matches_key key lane.head)) [
  | inl here ↦ rw here (elim p [
    | inl (same, fails, full) ↦
        IsOwed-first d (advance lane u).0 (advance lane u).1
          (advance_taken key lanes (advance lane u).1).1
          (advance_taken key lanes (advance lane u).1).0
          (advance_taken-keeps d key lanes (advance lane u).1)
          (subst (λ (x : DeviceId). IsUnread x (advance lane u).1 ⊎ IsPending x (advance lane u).0)
            same (advance-owed lane u fails))
    | inr later ↦
        IsOwed-before d (advance lane u).0 (advance_taken key lanes (advance lane u).1)
          (advance_taken-pending d key lanes (advance lane u).1 later)
  ])
  | inr other ↦ rw other (elim p [
    | inl pending ↦ inr (inl pending)
    | inr later ↦
        IsOwed-before d lane (advance_taken key lanes u) (advance_taken-pending d key lanes u later)
  ])
]

-- At the end nothing is pending.
smallest-none : (d : DeviceId) (lanes : List Lane) → smallest lanes ≡ none → ¬ HasPending d lanes
unfolding smallest
smallest-none d [] e p = p
smallest-none d (lane ∷ lanes) e p =
    let (empty, ended) = least-none lane.head (smallest lanes) e in
    elim p [ inl (same, fails, full) ↦ full empty | inr later ↦ smallest-none d lanes ended later ]

-- Every stream without a failure or its device owed, and every device that was unread at first.
abbrev pub IsReported : List RecordSource → Unread → List Lane × Unread → Type 0
IsReported sources first state =
    All (λ (s : RecordSource). (has_failure s.items ≡ false) ⊎ IsOwed s.device state) sources
    × All (λ (u : DeviceId × NodeId). IsUnread u.0 state.1) first

IsOwed-advance_taken :
    (d : DeviceId) (key : Key) (lanes : List Lane) (u : Unread)
    → IsOwed d (lanes, u)
    → IsOwed d (advance_taken key lanes u)
IsOwed-advance_taken d key lanes u (inl i) = inl (advance_taken-keeps d key lanes u i)
IsOwed-advance_taken d key lanes u (inr p) = advance_taken-pending d key lanes u p

pub start-IsReported :
    (sources : List RecordSource) (first : Unread) → IsReported sources first (start sources first)
start-IsReported sources first = (
  start-IsOwed sources first,
  All-of_IsIn (λ (u : DeviceId × NodeId). IsUnread u.0 (start sources first).1) first
      (λ u i. start-keeps u.0 sources first (IsIn-map (λ (v : DeviceId × NodeId). v.0) u first i)),
)

pub advance_taken-IsReported :
    (sources : List RecordSource) (first : Unread) (key : Key) (lanes : List Lane) (u : Unread)
    → IsReported sources first (lanes, u)
    → IsReported sources first (advance_taken key lanes u)
advance_taken-IsReported sources first key lanes u (owed, kept) = (
  All-weaken (λ (s : RecordSource). (has_failure s.items ≡ false) ⊎ IsOwed s.device (lanes, u))
      (λ (s : RecordSource).
        (has_failure s.items ≡ false) ⊎ IsOwed s.device (advance_taken key lanes u))
      sources (λ s. or_else (IsOwed-advance_taken s.device key lanes u)) owed,
  All-weaken (λ (v : DeviceId × NodeId). IsUnread v.0 u)
      (λ (v : DeviceId × NodeId). IsUnread v.0 (advance_taken key lanes u).1) first
      (λ v. advance_taken-keeps v.0 key lanes u) kept,
)

-- Every stream is without a failure or its device unread, and so is every device unread at first.
abbrev pub IsNamed : List RecordSource → Unread → Unread → Type 0
IsNamed sources first unread =
    All (λ (s : RecordSource). (has_failure s.items ≡ false) ⊎ IsUnread s.device unread) sources
    × All (λ (u : DeviceId × NodeId). IsUnread u.0 unread) first

unread_of_owed :
    (d : DeviceId) (lanes : List Lane) (u : Unread)
    → smallest lanes ≡ none
    → IsOwed d (lanes, u)
    → IsUnread d u
unread_of_owed d lanes u e (inl i) = i
unread_of_owed d lanes u e (inr p) = absurd (smallest-none d lanes e p)

pub IsReported-end :
    (sources : List RecordSource) (first : Unread) (lanes : List Lane) (u : Unread)
    → smallest lanes ≡ none
    → IsReported sources first (lanes, u)
    → IsNamed sources first u
IsReported-end sources first lanes u e (owed, kept) = (
  All-weaken (λ (s : RecordSource). (has_failure s.items ≡ false) ⊎ IsOwed s.device (lanes, u))
      (λ (s : RecordSource). (has_failure s.items ≡ false) ⊎ IsUnread s.device u) sources
      (λ s. or_else (unread_of_owed s.device lanes u e)) owed,
  kept,
)

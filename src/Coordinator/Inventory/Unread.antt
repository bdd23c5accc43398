-- ===== src/Coordinator/Inventory/Unread.antt =====
-- A device whose stream fails ends up among the unread devices.

use distributed_jbod.Common.{
  false, ◌≡◌, ◌≢◌, ◌⊎◌, refl, Bool, true, none, List, [], ◌∷◌, map, ltb, ◌==◌, ==_iff, Bool-cases,
  inl, inr,
}
use distributed_jbod.Common.Seen.{IsIn}
use distributed_jbod.Cluster.{DeviceId, NodeId}
use distributed_jbod.Coordinator.{any}
use distributed_jbod.Coordinator.Streams.{
  RecordSource, Lane, Key, matches_key, StreamItem, yielded, failed,
}
use distributed_jbod.Coordinator.Inventory.{
  Unread, insert_unread, after_next, advance, advance_taken, start,
}

abbrev pub devices_of_unread : Unread → List DeviceId
devices_of_unread unread = map (λ (u : DeviceId × NodeId). u.0) unread

abbrev pub IsUnread : DeviceId → Unread → Type 0
IsUnread d unread = IsIn d (devices_of_unread unread)

-- The stream yields a failure at some point.
abbrev pub is_failed : StreamItem → Bool
is_failed (yielded item) = false
is_failed (failed failure) = true

abbrev pub has_failure : List StreamItem → Bool
has_failure items = any is_failed items

insert_unread-IsUnread : (d : DeviceId) (n : NodeId) (u : Unread) → IsUnread d (insert_unread d n u)
unfolding insert_unread
insert_unread-IsUnread d n [] = inl refl
insert_unread-IsUnread d n ((e, other) ∷ u) = elim (Bool-cases (d == e)) [
  | inl same ↦ rw same (inl refl)
  | inr other_one ↦ elim (Bool-cases (ltb d e)) [
    | inl before ↦ rw (other_one, before) (inl refl)
    | inr after ↦ rw (other_one, after) (inr (insert_unread-IsUnread d n u))
  ]
]

insert_unread-keeps :
    (d e : DeviceId) (n : NodeId) (u : Unread) → IsUnread d u → IsUnread d (insert_unread e n u)
unfolding insert_unread
insert_unread-keeps d e n [] i = absurd i
insert_unread-keeps d e n ((f, other) ∷ u) i = elim (Bool-cases (e == f)) [
  | inl same ↦ rw same (replaced ((==_iff e f).0 same) i)
  | inr other_one ↦ elim (Bool-cases (ltb e f)) [
    | inl before ↦ rw (other_one, before) (inr i)
    | inr after ↦ rw (other_one, after) (passed i (insert_unread-keeps d e n u))
  ]
]
  where
    replaced : e ≡ f → IsUnread d ((f, other) ∷ u) → IsUnread d ((e, n) ∷ u)
    replaced same (inl here) = inl (cc)
    replaced same (inr there) = inr there

    passed :
        IsUnread d ((f, other) ∷ u)
        → (IsUnread d u → IsUnread d (insert_unread e n u))
        → IsUnread d ((f, other) ∷ insert_unread e n u)
    passed (inl here) more = inl here
    passed (inr there) more = inr (more there)

-- The lane holds a record and will yield a failure.
abbrev pub IsPending : DeviceId → Lane → Type 0
IsPending d lane =
    (lane.source.device ≡ d) × (has_failure lane.source.items ≡ true) × (lane.head ≢ none)

abbrev pub HasPending : DeviceId → List Lane → Type 0
HasPending d [] = ⊥
HasPending d (lane ∷ lanes) = IsPending d lane ⊎ HasPending d lanes

-- The device is unread or will be.
abbrev pub IsOwed : DeviceId → List Lane × Unread → Type 0
IsOwed d (lanes, unread) = IsUnread d unread ⊎ HasPending d lanes

after_next-keeps :
    (d : DeviceId) (source : RecordSource) (u : Unread) (items : List StreamItem)
    → IsUnread d u
    → IsUnread d (after_next source u items).1
after_next-keeps d source u [] i = i
after_next-keeps d source u (yielded item ∷ items) i = i
after_next-keeps d source u (failed failure ∷ items) i =
    insert_unread-keeps d source.device source.owner u i

after_next-owed :
    (source : RecordSource) (u : Unread) (items : List StreamItem)
    → has_failure items ≡ true
    → IsUnread source.device (after_next source u items).1
      ⊎ IsPending source.device (after_next source u items).0
after_next-owed source u [] e = absurd (cc)
after_next-owed source u (yielded item ∷ items) e = inr (refl, e, λ wrong. absurd (cc))
after_next-owed source u (failed failure ∷ items) e =
    inl (insert_unread-IsUnread source.device source.owner u)

advance-keeps :
    (d : DeviceId) (lane : Lane) (u : Unread) → IsUnread d u → IsUnread d (advance lane u).1
unfolding advance
advance-keeps d lane u i = after_next-keeps d lane.source u lane.source.items i

pub advance-owed :
    (lane : Lane) (u : Unread)
    → has_failure lane.source.items ≡ true
    → IsUnread lane.source.device (advance lane u).1
      ⊎ IsPending lane.source.device (advance lane u).0
unfolding advance
advance-owed lane u e = after_next-owed lane.source u lane.source.items e

-- Unread devices stay unread.
pub advance_taken-keeps :
    (d : DeviceId) (key : Key) (lanes : List Lane) (u : Unread)
    → IsUnread d u
    → IsUnread d (advance_taken key lanes u).1
unfolding advance_taken
advance_taken-keeps d key [] u i = i
advance_taken-keeps d key (lane ∷ lanes) u i = elim (Bool-cases (matches_key key lane.head)) [
  | inl here ↦
      rw here (advance_taken-keeps d key lanes (advance lane u).1 (advance-keeps d lane u i))
  | inr other ↦ rw other (advance_taken-keeps d key lanes u i)
]

pub start-keeps :
    (d : DeviceId) (sources : List RecordSource) (u : Unread)
    → IsUnread d u
    → IsUnread d (start sources u).1
unfolding start
start-keeps d [] u i = i
start-keeps d (source ∷ sources) u i =
    let lane : Lane = record { source = source; head = none } in
    start-keeps d sources (advance lane u).1 (advance-keeps d lane u i)

-- ===== src/Coordinator/Inventory/Sizes.antt =====
-- How much is left of the streams, and that a round takes something of it.

use distributed_jbod.Common.{
  ◌+◌, ◌≤◌, none, List, [], ◌∷◌, length, length-append, arith, Bool-cases, inl, inr,
}
use distributed_jbod.Coordinator.Streams.{
  RecordSource, Lane, Key, matches_key, taken_head, taken, StreamItem, yielded, failed,
}
use distributed_jbod.Coordinator.Streams.Heads.{
  lane_size, remaining, stream_size, taken_head-some, taken_head-none,
}
use distributed_jbod.Coordinator.Inventory.{Unread, after_next, advance, advance_taken, start}

after_next-size :
    (source : RecordSource) (unread : Unread) (items : List StreamItem)
    → lane_size (after_next (record source { items = items }) unread items).0 ≤ length items
after_next-size source unread [] = omega arith
after_next-size source unread (yielded item ∷ items) = omega arith
after_next-size source unread (failed failure ∷ items) = omega arith

advance-size :
    (lane : Lane) (unread : Unread) → lane_size (advance lane unread).0 ≤ length lane.source.items
unfolding advance
advance-size lane unread = after_next-size lane.source unread lane.source.items

-- What is taken is no longer left.
pub advance_taken-size :
    (key : Key) (lanes : List Lane) (unread : Unread)
    → remaining (advance_taken key lanes unread).0 + length (taken key lanes) ≤ remaining lanes
unfolding advance_taken taken
advance_taken-size key [] unread = omega arith
advance_taken-size key (lane ∷ lanes) unread =
    let counted = length-append (taken_head key lane.head) (taken key lanes) in
    elim (Bool-cases (matches_key key lane.head)) [
      | inl here ↦
          let (one, there) = taken_head-some key lane.head here in
          let moved = advance-size lane unread in
          let rest = advance_taken-size key lanes (advance lane unread).1 in rw here (omega arith)
      | inr other ↦
          let nothing = taken_head-none key lane.head other in
          let rest = advance_taken-size key lanes unread in rw other (omega arith)
    ]

pub start-size :
    (sources : List RecordSource) (unread : Unread)
    → remaining (start sources unread).0 ≤ stream_size sources
unfolding start
start-size [] unread = omega arith
start-size (source ∷ sources) unread =
    let lane : Lane = record { source = source; head = none } in
    let first = advance-size lane unread in
    let rest = start-size sources (advance lane unread).1 in omega arith

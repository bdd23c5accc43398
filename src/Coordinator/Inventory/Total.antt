-- ===== src/Coordinator/Inventory/Total.antt =====
-- The merge ends: every round takes a record from a stream, and what is left of the streams shrinks.

use distributed_jbod.Common.{
  ℕ, zero, suc, ◌+◌, ◌<◌, ◌≡◌, refl, ◌∙◌, ap, Option, none, some, List, [], ◌∷◌, ◌++◌, map, ok,
  ◌>>=◌, length, ltb, arith,
}
use distributed_jbod.Cluster.{DeviceId, NodeId}
use distributed_jbod.Record.{MetadataRecord}
use distributed_jbod.Coordinator.Groups.{
  classify_group, ObjectState, whole, degraded_parity, degraded_data, unreadable, inconsistent,
}
use distributed_jbod.Coordinator.{LocatedRecord}
use distributed_jbod.Coordinator.Streams.{RecordSource, Key, smallest, taken, presence_of}
use distributed_jbod.Coordinator.Streams.Heads.{remaining, stream_size, smallest-taken, taken_group}
use distributed_jbod.Coordinator.Inventory.{
  Unread, InventoryCounts, no_counts, note, InventoryEvent, summary, Merge, start, judged_round,
  merge_round, merge_loop, finish_inventory, merge_inventory,
}
use distributed_jbod.Coordinator.Inventory.Sizes.{advance_taken-size, start-size}
use distributed_jbod.Coordinator.Inventory.Reports.{
  IsReported, IsNamed, start-IsReported, advance_taken-IsReported, IsReported-end,
}
use distributed_jbod.Coordinator.Groups.Total.{classify_group-total}

-- The counts by state add up to the count of versions.
abbrev pub IsSummed : InventoryCounts → Type 0
IsSummed c =
    c.versions_checked
    ≡ c.n_whole + c.n_degraded_parity + c.n_degraded_data + c.n_unreadable + c.n_inconsistent

note-IsSummed : (state : ObjectState) (c : InventoryCounts) → IsSummed c → IsSummed (note state c)
unfolding note
note-IsSummed whole c s = omega arith
note-IsSummed degraded_parity c s = omega arith
note-IsSummed degraded_data c s = omega arith
note-IsSummed unreadable c s = omega arith
note-IsSummed inconsistent c s = omega arith

module _ (known : List DeviceId) (asked : Option ObjectState) (sources : List RecordSource)
    (first : Unread) where
  -- What holds of the merge at every round.
  abbrev IsGood : Merge → Type 0
  IsGood m = IsSummed m.counts × IsReported sources first (m.lanes, m.unread)

  judged_round-IsGood :
      (key : Key) (m : Merge) (judged : ObjectState × MetadataRecord × ℕ)
      → IsGood m
      → IsGood (judged_round asked key m judged)
  unfolding judged_round
  judged_round-IsGood key m judged (summed, reported) = (
    note-IsSummed judged.0 m.counts summed,
    advance_taken-IsReported sources first key m.lanes m.unread reported,
  )

  merge_round-total :
      (key : Key) (m : Merge)
      → smallest m.lanes ≡ some key
      → (next : Merge) × (merge_round known asked key m ≡ ok next)
        × (remaining next.lanes < remaining m.lanes)
        × (IsGood m → IsGood next)
  unfolding merge_round judged_round
  merge_round-total key m e =
      let items = taken key m.lanes in
      let some_item = smallest-taken key m.lanes e in
      let present = presence_of [] items in
      let devices = map (λ (u : DeviceId × NodeId). u.0) m.unread in
      let (c, copies, group, one) = taken_group key m.lanes e in
      let ((state, r, out), judged) = classify_group-total c copies present devices known one in
      let classified =
        ap (λ (g : List LocatedRecord). classify_group g present devices known) group ∙ judged in
      let less = advance_taken-size key m.lanes m.unread in
      (
        judged_round asked key m (state, r, out),
        ap (λ answer. answer >>= λ judged. ok (judged_round asked key m judged)) classified,
        omega arith,
        judged_round-IsGood key m (state, r, out),
      )

  merge_loop-end :
      (fuel : ℕ) (m : Merge)
      → smallest m.lanes ≡ none
      → merge_loop known asked (suc fuel) m ≡ some (ok m)
  unfolding merge_loop
  merge_loop-end fuel m e = rw (merge_loop, e) refl

  merge_loop-step :
      (fuel : ℕ) (key : Key) (m next : Merge)
      → smallest m.lanes ≡ some key
      → merge_round known asked key m ≡ ok next
      → merge_loop known asked (suc fuel) m ≡ merge_loop known asked fuel next
  unfolding merge_loop
  merge_loop-step fuel key m next e round = rw (merge_loop, e, round) refl

  -- With enough fuel the loop ends without a failure, at counts that add up and with no record left.
  merge_loop-total :
      (fuel : ℕ) (m : Merge)
      → remaining m.lanes < fuel
      → IsGood m
      → (last : Merge) × (merge_loop known asked fuel m ≡ some (ok last))
        × (smallest last.lanes ≡ none)
        × IsGood last
  merge_loop-total zero m enough s = absurd (omega arith)
  merge_loop-total (suc fuel) m enough s =
      outcome (smallest m.lanes) refl (λ next few good. merge_loop-total fuel next few good)
    where
      outcome :
          (at : Option Key)
          → smallest m.lanes ≡ at
          → ((next : Merge)
              → remaining next.lanes < fuel
              → IsGood next
              → (last : Merge) × (merge_loop known asked fuel next ≡ some (ok last))
                × (smallest last.lanes ≡ none)
                × IsGood last)
          → (last : Merge) × (merge_loop known asked (suc fuel) m ≡ some (ok last))
            × (smallest last.lanes ≡ none)
            × IsGood last
      outcome none e again = (m, merge_loop-end fuel m e, e, s)
      outcome (some key) e again =
          let (next, round, shrinks, keeps) = merge_round-total key m e in
          let (last, ends, finished, good) = again next (omega arith) (keeps s) in
          (last, merge_loop-step fuel key m next e round ∙ ends, finished, good)

-- The merge of the record streams of an inventory ends: with more fuel than the streams hold results, it
-- neither fails nor panics. Its last event is the summary of the versions that it counted, whose counts by
-- state add up to their number. The summary names as unread every device that was unread at first and
-- every device whose stream holds a failure, and says complete exactly when it names fewer devices than
-- the limit.
pub merge_inventory_total :
    (fuel : ℕ) (sources : List RecordSource) (unread : Unread) (limit : ℕ)
    (asked : Option ObjectState)
    → stream_size sources < fuel
    → (events : List InventoryEvent) × (counts : InventoryCounts) × (last_unread : Unread)
      × (merge_inventory fuel sources unread limit asked
          ≡ some (ok (events ++ summary counts last_unread (ltb (length last_unread) limit) ∷ [])))
      × IsSummed counts
      × IsNamed sources unread last_unread
unfolding merge_inventory
merge_inventory_total fuel sources unread limit asked enough =
    let known = map (λ (s : RecordSource). s.device) sources in
    let at_start : Merge = record {
      lanes = (start sources unread).0;
      unread = (start sources unread).1;
      counts = no_counts;
      events = [];
    } in
    let size = start-size sources unread in
    let (last, ends, done, good) =
      merge_loop-total known asked sources unread fuel at_start (omega arith)
        (refl, start-IsReported sources unread) in
    (
      last.events,
      last.counts,
      last.unread,
      ap (finish_inventory limit) ends,
      good.0,
      IsReported-end sources unread last.lanes last.unread done good.1,
    )

-- ===== src/Coordinator/Inventory/Runs.antt =====
-- A concrete inventory: two devices, one of whose streams fails after its first record.
use distributed_jbod.Common.{
  refl, ◌≡◌, true, some, List, [], ◌∷◌, ◌++◌, ok, length, replicate, ltb, arith,
}
use distributed_jbod.Coordinator.Groups.{whole}
use distributed_jbod.Record.{index_on}
use distributed_jbod.Record.Equality.{record_eq}
use distributed_jbod.Coordinator.Samples.{streamed_from}
use distributed_jbod.Coordinator.{close, max_of, latest_of}
use distributed_jbod.Common.{bytes_eq}
use distributed_jbod.Coordinator.Copies.{
  bytes_ltb, push_copy, group_copies, check_named, check_current, check_all, missing_copy,
  missing_copies, vouching_copies, trust_version, trust_entries, trusted_versions, accept_version,
  accept_versions, versions_of_excluding,
}
use distributed_jbod.Coordinator.Groups.{
  object_state, lost_devices, is_out, shards_out, classify_versions, classify_group,
}
use distributed_jbod.Coordinator.Streams.{
  smallest, taken, presence_of, key_ltb, RecordSource, yielded, failed,
}
use distributed_jbod.Coordinator.Inventory.{
  merge_loop, merge_round, judged_round, start, advance, advance_taken, round_events, note,
  insert_unread, Unread, InventoryCounts, InventoryEvent, object, summary, summary, merge_inventory,
}
use distributed_jbod.Coordinator.Inventory.Total.{IsSummed, merge_inventory_total}
use distributed_jbod.Coordinator.Inventory.Reports.{IsNamed}

abbrev sources : List RecordSource
sources =
    record { owner = 1; device = 5; items = yielded (streamed_from 5) ∷ [] }
    ∷ record { owner = 2; device = 6; items = yielded (streamed_from 6) ∷ failed close ∷ [] }
    ∷ []

merge_inventory_total_example :
    (events : List InventoryEvent) × (counts : InventoryCounts) × (last_unread : Unread)
    × (merge_inventory 4 sources [] 2 (some whole)
        ≡ some (ok (events ++ summary counts last_unread (ltb (length last_unread) 2) ∷ [])))
    × IsSummed counts
    × IsNamed sources [] last_unread
merge_inventory_total_example = merge_inventory_total 4 sources [] 2 (some whole) (omega arith)

-- Both copies are at hand when the second stream fails, so the version is whole.
inventoried :
    merge_inventory 4 sources [] 2 (some whole)
    ≡ some (
        ok (
          object (b'k' ∷ []) (replicate 16 1) whole 2 2
          ∷ summary
              (record {
                versions_checked = 1;
                n_whole = 1;
                n_degraded_parity = 0;
                n_degraded_data = 0;
                n_unreadable = 0;
                n_inconsistent = 0;
              })
              ((6, 2) ∷ [])
              true
          ∷ []))
unfolding merge_inventory merge_loop merge_round judged_round start advance smallest taken
    presence_of advance_taken round_events note insert_unread key_ltb bytes_ltb classify_group
    classify_versions object_state lost_devices is_out shards_out latest_of versions_of_excluding
    trusted_versions group_copies push_copy trust_entries trust_version check_all check_named
    check_current max_of record_eq index_on missing_copies missing_copy vouching_copies
    accept_versions accept_version bytes_eq
inventoried = refl

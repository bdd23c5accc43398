-- ===== src/Coordinator/Inventory.antt =====
-- `merge_inventory` of coordinator.rs: the record streams of all devices are merged by key hash and version,
-- and each version is classified and counted. The receiver of the events
-- keeps reading. The counts are unbounded.
pub mod Sizes
pub mod Unread
pub mod Reports
pub mod Total
mod Runs
use distributed_jbod.Common.{
  ℕ, zero, suc, ◌+◌, ◌-◌, ◌%◌, ◌^◌, Bool, true, false, not, ◌&&◌, Option, none, some, List, [], ◌∷◌,
  ◌++◌, map, ok, err, panic, ◌>>=◌, length, ltb, ◌==◌, if◌then◌else◌, bytes_eq,
}
use distributed_jbod.Common.Find.{filter}
use distributed_jbod.ShardFile.{KeyHash, VersionId}
use distributed_jbod.Cluster.{DeviceId, NodeId}
use distributed_jbod.Record.{Bytes, MetadataRecord}
use distributed_jbod.Coordinator.{LocatedRecord, Answer}
use distributed_jbod.Coordinator.Copies.{bytes_ltb}
use distributed_jbod.Coordinator.Streams.{
  StreamedRecord, StreamItem, yielded, failed, RecordSource, Lane, Key, smallest, matches_key,
  taken, group_of, presence_of,
}
use distributed_jbod.Coordinator.Groups.{
  ObjectState, whole, degraded_parity, degraded_data, unreadable, inconsistent, Presence,
  classify_group,
}

abbrev pub Unread : Type 0
Unread = List (DeviceId × NodeId)

pub record InventoryCounts : Type 0 where
  pub versions_checked : ℕ
  pub n_whole : ℕ
  pub n_degraded_parity : ℕ
  pub n_degraded_data : ℕ
  pub n_unreadable : ℕ
  pub n_inconsistent : ℕ

abbrev pub no_counts : InventoryCounts
no_counts = record {
  versions_checked = 0;
  n_whole = 0;
  n_degraded_parity = 0;
  n_degraded_data = 0;
  n_unreadable = 0;
  n_inconsistent = 0;
}

unfoldable pub note : ObjectState → InventoryCounts → InventoryCounts
note whole c = record c { versions_checked = c.versions_checked + 1; n_whole = c.n_whole + 1 }
note degraded_parity c = record c {
  versions_checked = c.versions_checked + 1;
  n_degraded_parity = c.n_degraded_parity + 1;
}
note degraded_data c = record c {
  versions_checked = c.versions_checked + 1;
  n_degraded_data = c.n_degraded_data + 1;
}
note unreadable c = record c {
  versions_checked = c.versions_checked + 1;
  n_unreadable = c.n_unreadable + 1;
}
note inconsistent c = record c {
  versions_checked = c.versions_checked + 1;
  n_inconsistent = c.n_inconsistent + 1;
}

pub data InventoryEvent : Type 0 where
  object : Bytes → VersionId → ObjectState → (available total : ℕ) → InventoryEvent
  progress : (versions_checked : ℕ) → InventoryEvent
  summary : InventoryCounts → Unread → (complete : Bool) → InventoryEvent

abbrev pub progress_every_versions : ℕ
progress_every_versions = 10_000

-- What the loop changes.
pub record Merge : Type 0 where
  pub lanes : List Lane
  pub unread : Unread
  pub counts : InventoryCounts
  pub events : List InventoryEvent

-- `unread.insert(device, node)`, on the entries in the order of their devices.
unfoldable pub insert_unread : DeviceId → NodeId → Unread → Unread
insert_unread d node [] = (d, node) ∷ []
insert_unread d node ((e, other) ∷ unread) =
    if d == e
    then (d, node) ∷ unread
    else if ltb d e
    then (d, node) ∷ (e, other) ∷ unread
    else (e, other) ∷ insert_unread d node unread

-- `sources[index].next()`, and what becomes of the head and of the unread devices.
abbrev pub after_next : RecordSource → Unread → List StreamItem → Lane × Unread
after_next source unread [] = (record { source = source; head = none }, unread)
after_next source unread (yielded item ∷ items) =
    (record { source = record source { items = items }; head = some item }, unread)
after_next source unread (failed failure ∷ items) = (
  record { source = record source { items = items }; head = none },
  insert_unread source.device source.owner unread,
)

unfoldable pub advance : Lane → Unread → Lane × Unread
advance lane unread = after_next lane.source unread lane.source.items

-- The sources whose head was taken move on.
unfoldable pub advance_taken : Key → List Lane → Unread → List Lane × Unread
advance_taken key [] unread = ([], unread)
advance_taken key (lane ∷ lanes) unread =
    if matches_key key lane.head
    then (let (moved, more) = advance lane unread in
        let (rest, last) = advance_taken key lanes more in (moved ∷ rest, last))
    else (let (rest, last) = advance_taken key lanes unread in (lane ∷ rest, last))

unfoldable pub start : List RecordSource → Unread → List Lane × Unread
start [] unread = ([], unread)
start (source ∷ sources) unread =
    let (lane, more) = advance (record { source = source; head = none }) unread in
    let (lanes, last) = start sources more in (lane ∷ lanes, last)

-- The derived equality of states.
abbrev pub same_state : ObjectState → ObjectState → Bool
same_state whole whole = true
same_state degraded_parity degraded_parity = true
same_state degraded_data degraded_data = true
same_state unreadable unreadable = true
same_state inconsistent inconsistent = true
same_state _ _ = false

abbrev pub is_asked : Option ObjectState → ObjectState → Bool
is_asked none state = false
is_asked (some asked) state = same_state asked state

unfoldable pub round_events :
    Option ObjectState → ObjectState × MetadataRecord × ℕ → ℕ → List InventoryEvent
round_events asked (state, r, out) checked =
    let total = (r.k + r.m) % 2 ^ 8 in
    (if is_asked asked state then object r.key r.version state (total - out) total ∷ [] else [])
    ++ (if checked % progress_every_versions == 0 then progress checked ∷ [] else [])

-- The rest of the body, once the group is judged.
unfoldable pub judged_round :
    Option ObjectState → Key → Merge → ObjectState × MetadataRecord × ℕ → Merge
judged_round asked key m judged =
    let counts = note judged.0 m.counts in
    let moved = advance_taken key m.lanes m.unread in
    record {
      lanes = moved.0;
      unread = moved.1;
      counts = counts;
      events = m.events ++ round_events asked judged counts.versions_checked;
    }

module _ (known : List DeviceId) (asked : Option ObjectState) where
  -- The body of the loop, for the smallest key at a head.
  unfoldable pub merge_round : Key → Merge → Answer Merge
  merge_round key m = do
    let items = taken key m.lanes
    judged ←
        classify_group (group_of items) (presence_of [] items)
          (map (λ (u : DeviceId × NodeId). u.0) m.unread) known
    ok (judged_round asked key m judged)

  -- The loop, on fuel; `none` means that it ran out.
  unfoldable pub merge_loop : ℕ → Merge → Option (Answer Merge)
  merge_loop zero m = none
  merge_loop (suc fuel) m = elim (smallest m.lanes) [
    | none ↦ some (ok m)
    | some key ↦ elim (merge_round key m) [
      | ok next ↦ merge_loop fuel next
      | err failure ↦ some (err failure)
      | panic ↦ some panic
    ]
  ]

abbrev pub finish_inventory : ℕ → Option (Answer Merge) → Option (Answer (List InventoryEvent))
finish_inventory limit none = none
finish_inventory limit (some panic) = some panic
finish_inventory limit (some (err failure)) = some (err failure)
finish_inventory limit (some (ok m)) =
    some (ok (m.events ++ summary m.counts m.unread (ltb (length m.unread) limit) ∷ []))

unfoldable pub merge_inventory :
    ℕ → List RecordSource → Unread → ℕ → Option ObjectState → Option (Answer (List InventoryEvent))
merge_inventory fuel sources unread limit asked =
    let known = map (λ (s : RecordSource). s.device) sources in
    let (lanes, unread_at_start) = start sources unread in
    finish_inventory limit (
      merge_loop known asked fuel
        (record { lanes = lanes; unread = unread_at_start; counts = no_counts; events = [] }))

-- ===== src/Node/Runs.antt =====
-- Concrete placements and version ids, and the theorems about them at concrete inputs.
use distributed_jbod.Common.{
  ℕ, ◌↔◌, not, ◌&&◌, ◌+◌, ◌-◌, ◌^◌, ◌<◌, ◌≡◌, refl, Bool, true, false, none, List, [], ◌∷◌, ok, err,
  length, replicate, arith,
}
use distributed_jbod.Common.Digits.{value_from}
use distributed_jbod.Common.Selections.{IsSelection, filter-IsSelection}
use distributed_jbod.Erasure.{Scheme}
use distributed_jbod.Cluster.{DeviceState}
use distributed_jbod.Naming.{from_be_bytes}
use distributed_jbod.Naming.RoundTrip.{AreBytes}
use distributed_jbod.Node.Placement.{
  DeviceStatus, insufficient_devices, is_active, is_eligible, insert, sort, place,
}
use distributed_jbod.Node.Placement.Choice.{
  IsBest, IsEligible, IsUnavailable, is_eligible_iff, IsUnavailable-iff, place-IsBest,
  place-insufficient,
}
use distributed_jbod.Node.Versions.{advance, next, new_generator}
use distributed_jbod.Node.Versions.Order.{IsState, next_increases}

abbrev disk : ℕ → DeviceState → Bool → ℕ → DeviceStatus
disk id state available free = record {
  device = id;
  node = 1;
  state = state;
  available = available;
  label = none;
  node_label = none;
  total_bytes = 1000;
  free_bytes = free;
}

abbrev disks : List DeviceStatus
disks =
    disk 1 DeviceState.active true 500
    ∷ disk 2 DeviceState.draining true 900
    ∷ disk 3 DeviceState.active true 700
    ∷ disk 4 DeviceState.active false 0
    ∷ disk 5 DeviceState.active true 500
    ∷ disk 6 DeviceState.active true 20
    ∷ []

abbrev two_of_one : Scheme
two_of_one = record { data_shards = 1; parity_shards = 1 }

abbrev three_of_one : Scheme
three_of_one = record { data_shards = 3; parity_shards = 1 }

placed :
    place disks two_of_one 100
    ≡ ok (disk 3 DeviceState.active true 700 ∷ disk 1 DeviceState.active true 500 ∷ [])
unfolding place sort insert
placed = refl

-- The devices with room for 100 bytes, and the one that cannot be read.
abbrev with_room : List DeviceStatus
with_room =
    disk 1 DeviceState.active true 500
    ∷ disk 3 DeviceState.active true 700
    ∷ disk 5 DeviceState.active true 500
    ∷ []

abbrev unread : List DeviceStatus
unread = disk 4 DeviceState.active false 0 ∷ []

with_room-IsSelection : IsSelection (IsEligible 100) disks with_room
with_room-IsSelection =
    filter-IsSelection (IsEligible 100) (is_eligible 100) (is_eligible_iff 100) disks

unread-IsSelection : IsSelection IsUnavailable disks unread
unread-IsSelection =
    filter-IsSelection IsUnavailable (λ d. is_active d.state && not d.available) IsUnavailable-iff
      disks

place-IsBest_example :
    (chosen : List DeviceStatus) × (place disks two_of_one 100 ≡ ok chosen)
    × IsBest with_room 2 chosen
place-IsBest_example =
    place-IsBest disks with_room two_of_one 100 with_room-IsSelection (omega arith) (omega arith)

place-insufficient_example :
    (place disks three_of_one 100 ≡ err (insufficient_devices 3 100 4 (4 ∷ []))) ↔ (
      (length with_room < 4)
      × (insufficient_devices 3 100 4 (4 ∷ []) ≡ insufficient_devices 3 100 4 (4 ∷ [])))
place-insufficient_example =
    place-insufficient disks with_room three_of_one 100 with_room-IsSelection unread
      (insufficient_devices 3 100 4 (4 ∷ [])) unread-IsSelection

fresh : IsState new_generator
fresh = record { ms = omega arith; random = omega arith }

drawn : AreBytes 10 (replicate 10 7)
drawn = record { size = refl; all_bytes = omega arith }

room : (next new_generator 5 (replicate 10 7)).1.last_random + 1 < 2 ^ 80
unfolding advance value_from
room = omega arith

next_increases_example :
    let first = next new_generator 5 (replicate 10 7) in
    let second = next first.1 4 (replicate 10 7) in
    (from_be_bytes first.0 < from_be_bytes second.0) × IsState second.1
next_increases_example =
    next_increases new_generator 5 4 (replicate 10 7) (replicate 10 7) fresh drawn drawn room

-- A random part of all ones is followed by 0 in the same millisecond.
wraps : (advance (record { last_ms = 5; last_random = 2 ^ 80 - 1 }) 5 []).last_random ≡ 0
unfolding advance
wraps = refl

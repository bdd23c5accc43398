-- ===== src/Coordinator/Scrub/CrossCheck.antt =====
-- `merge_sources` of coordinator.rs: a scrub merges the record streams of all devices and checks each version
-- from its copies. A device that cannot be read is unread from then on; any other failure stops the merge.
-- The receiver of the events keeps reading.
pub mod Findings
pub mod Accounts
pub mod Shrinks
pub mod Smooth
pub mod Total
pub mod Ends
pub mod Complete
mod Runs
use distributed_jbod.Common.{
  ℕ, zero, suc, ◌+◌, ◌%◌, Bool, true, false, Option, none, some, List, [], ◌∷◌, ◌++◌, map, Outcome,
  ok, err, panic, ◌>>=◌, ltb, ◌==◌, if◌then◌else◌, bytes_eq,
}
use distributed_jbod.ShardFile.{KeyHash, VersionId}
use distributed_jbod.Cluster.{DeviceId, NodeId}
use distributed_jbod.Record.{Bytes}
use distributed_jbod.Coordinator.{
  LocatedRecord, ErrorCode, device_unavailable, node_unreachable, connection_ended, ErrorDetail,
  Failure, error, close, Answer, latest_of,
}
use distributed_jbod.Coordinator.Copies.{bytes_ltb}
use distributed_jbod.Coordinator.Groups.{
  ClusterFinding, copies_inconsistent, shard_missing, shard_lost, stale_found, ShardCount,
  check_group,
}
use distributed_jbod.Coordinator.Streams.{
  StreamItem, yielded, failed, RecordSource, Lane, Key, smallest, matches_key, taken, group_of,
  presence_of,
}
use distributed_jbod.Coordinator.Inventory.{progress_every_versions}
use distributed_jbod.Coordinator.Scrub.{
  Exposure, no_exposure, note_exposure, ExposureEvent, exposure_event, Tally, no_tally,
  tally_version,
}

pub record Unreachable : Type 0 where
  pub node : NodeId
  pub detail : ErrorDetail

abbrev pub unwrap_or : Option NodeId → NodeId → NodeId
unwrap_or none owner = owner
unwrap_or (some node) owner = node

abbrev pub from_failure : NodeId → Failure → Unreachable
from_failure owner (error detail) = record { node = unwrap_or detail.node owner; detail = detail }
from_failure owner close = record {
  node = owner;
  detail = record {
    code = node_unreachable;
    message = connection_ended;
    node = none;
    device = none;
    key = none;
    version = none;
  };
}

-- `Failure::Error(detail) if detail.code == ErrorCode::DeviceUnavailable`.
abbrev pub is_unavailable_code : ErrorCode → Bool
is_unavailable_code device_unavailable = true
is_unavailable_code _ = false

abbrev pub is_device_unavailable : Failure → Bool
is_device_unavailable (error detail) = is_unavailable_code detail.code
is_device_unavailable close = false

pub data ScrubEvent : Type 0 where
  cluster_finding : ClusterFinding → ScrubEvent
  cross_check_progress : (versions_checked : ℕ) → KeyHash → ScrubEvent
  cross_check_stopped : Unreachable → (versions_checked : ℕ) → ScrubEvent
  cross_check_exposure : ExposureEvent → ScrubEvent

pub record CrossCheckOutcome : Type 0 where
  pub findings : ℕ
  pub damaged_keys : List Bytes
  pub versions_checked : ℕ
  pub stopped_after : Option ℕ
  pub exposure : Exposure
  pub tally : Tally

abbrev pub no_outcome : CrossCheckOutcome
no_outcome = record {
  findings = 0;
  damaged_keys = [];
  versions_checked = 0;
  stopped_after = none;
  exposure = no_exposure;
  tally = no_tally;
}

-- What the loop changes.
pub record Check : Type 0 where
  pub lanes : List Lane
  pub unread : List DeviceId
  pub outcome : CrossCheckOutcome
  pub events : List ScrubEvent

-- `insert` of a `BTreeSet`, the list of its members in their order.
unfoldable pub insert_sorted : {A : Type 0} → (same before : A → A → Bool) → A → List A → List A
insert_sorted same before a [] = a ∷ []
insert_sorted same before a (b ∷ bs) =
    if same a b
    then b ∷ bs
    else if before a b
    then a ∷ b ∷ bs
    else b ∷ insert_sorted same before a bs

abbrev pub finding_key : ClusterFinding → Bytes
finding_key (copies_inconsistent key version message) = key
finding_key (shard_missing key version device index) = key
finding_key (shard_lost key version device index) = key
finding_key (stale_found key version device revision current) = key

-- `sources[index].next()`: with the failure that ends the merge, the devices that are unread by then.
abbrev pub Broken : Type 0
Broken = Unreachable × List DeviceId

abbrev pub after_check :
    RecordSource → List DeviceId → List StreamItem → Outcome Broken (Lane × List DeviceId)
after_check source unread [] = ok (record { source = source; head = none }, unread)
after_check source unread (yielded item ∷ items) =
    ok (record { source = record source { items = items }; head = some item }, unread)
after_check source unread (failed failure ∷ items) =
    if is_device_unavailable failure
    then ok (
      record { source = record source { items = items }; head = none },
      insert_sorted ◌==◌ ltb source.device unread,
    )
    else err (from_failure source.owner failure, unread)

unfoldable pub advance_check : Lane → List DeviceId → Outcome Broken (Lane × List DeviceId)
advance_check lane unread = after_check lane.source unread lane.source.items

-- The sources whose head was taken move on, up to a failure.
unfoldable pub advance_checks :
    Key → List Lane → List DeviceId → Outcome Broken (List Lane × List DeviceId)
advance_checks key [] unread = ok ([], unread)
advance_checks key (lane ∷ lanes) unread = do
  moved ← if matches_key key lane.head then advance_check lane unread else ok (lane, unread)
  rest ← advance_checks key lanes moved.1
  ok (moved.0 ∷ rest.0, rest.1)

unfoldable pub start_checks :
    List RecordSource → List DeviceId → Outcome Broken (List Lane × List DeviceId)
start_checks [] unread = ok ([], unread)
start_checks (source ∷ sources) unread = do
  moved ← advance_check (record { source = source; head = none }) unread
  rest ← start_checks sources moved.1
  ok (moved.0 ∷ rest.0, rest.1)

unfoldable pub stop : Unreachable → Check → Check
stop unreachable m = record m {
  outcome = record m.outcome { stopped_after = some m.outcome.versions_checked };
  events = m.events ++ cross_check_stopped unreachable m.outcome.versions_checked ∷ [];
}

abbrev pub events_of_exposure : Option ExposureEvent → List ScrubEvent
events_of_exposure none = []
events_of_exposure (some event) = cross_check_exposure event ∷ []

unfoldable pub send_exposure : Check → Check
send_exposure m = record m {
  events =
      m.events
      ++ events_of_exposure (exposure_event m.unread m.outcome.versions_checked m.outcome.exposure);
}

abbrev pub note_current : List LocatedRecord → List DeviceId → Exposure → Exposure
note_current [] unread e = e
note_current (c ∷ copies) unread e = note_exposure (latest_of c copies).found unread e

abbrev pub tally_group : List LocatedRecord → Option ShardCount → Tally → Tally
tally_group group none t = t
tally_group [] (some shards) t = t
tally_group (c ∷ copies) (some shards) t = tally_version c.found.key shards t

-- The loop over the findings.
unfoldable pub send_findings : List ClusterFinding → Check → Check
send_findings [] m = m
send_findings (finding ∷ findings) m = send_findings findings (record m {
  outcome = record m.outcome {
    findings = m.outcome.findings + 1;
    damaged_keys = insert_sorted bytes_eq bytes_ltb (finding_key finding) m.outcome.damaged_keys;
  };
  events = m.events ++ cluster_finding finding ∷ [];
})

unfoldable pub count_version : Key → Check → Check
count_version key m =
    let checked = m.outcome.versions_checked + 1 in
    record m {
      outcome = record m.outcome { versions_checked = checked };
      events =
          m.events
          ++ (if checked % progress_every_versions == 0
              then cross_check_progress checked key.0 ∷ []
              else []);
    }

-- What a version's check adds, before the sources move on.
unfoldable pub settle_group :
    Key → List LocatedRecord → List ClusterFinding × Option ShardCount → Check → Check
settle_group key group answer m = count_version key (
    send_findings answer.0 (record m {
      outcome = record m.outcome {
        exposure = note_current group m.unread m.outcome.exposure;
        tally = tally_group group answer.1 m.outcome.tally;
      };
    }))

-- Whether the loop goes on.
pub data Round : Type 0 where
  going : Check → Round
  halted : Check → Round

abbrev pub move_on : Check → Outcome Broken (List Lane × List DeviceId) → Answer Round
move_on m (ok (lanes, unread)) = ok (going (record m { lanes = lanes; unread = unread }))
move_on m (err (unreachable, unread)) =
    ok (halted (send_exposure (stop unreachable (record m { unread = unread }))))
move_on m panic = panic

module _ (known : List DeviceId) (damaged : List (VersionId × ℕ)) where
  -- The body of the loop, for the smallest key at a head.
  unfoldable pub check_round : Key → Check → Answer Round
  check_round key m = do
    let items = taken key m.lanes
    answer ← check_group (group_of items) (presence_of [] items) m.unread known damaged
    move_on (settle_group key (group_of items) answer m) (advance_checks key m.lanes m.unread)

  -- The loop, on fuel; `none` means that it ran out.
  unfoldable pub check_loop : ℕ → Check → Option (Answer Check)
  check_loop zero m = none
  check_loop (suc fuel) m = elim (smallest m.lanes) [
    | none ↦ some (ok (send_exposure m))
    | some key ↦ elim (check_round key m) [
      | ok (going next) ↦ check_loop fuel next
      | ok (halted last) ↦ some (ok last)
      | err failure ↦ some (err failure)
      | panic ↦ some panic
    ]
  ]

  abbrev pub check_started : ℕ → Outcome Broken (List Lane × List DeviceId) → Option (Answer Check)
  check_started fuel (ok (lanes, unread)) =
      check_loop fuel (record { lanes = lanes; unread = unread; outcome = no_outcome; events = [] })
  check_started fuel (err (unreachable, unread)) = some (
      ok (
        stop unreachable
          (record { lanes = []; unread = unread; outcome = no_outcome; events = [] })))
  check_started fuel panic = some panic

unfoldable pub merge_sources : ℕ → List RecordSource → List (VersionId × ℕ) → Option (Answer Check)
merge_sources fuel sources damaged =
    check_started (map (λ (s : RecordSource). s.device) sources) damaged fuel
      (start_checks sources [])

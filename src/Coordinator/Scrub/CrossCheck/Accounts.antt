-- ===== src/Coordinator/Scrub/CrossCheck/Accounts.antt =====
-- The accounts of a merge: its findings, and the tally of the versions by their shards.
use mathlib.Core.Path.{subst}
use distributed_jbod.Common.{
  ℕ, ◌+◌, ◌≤◌, ◌≡◌, refl, sym, Option, none, some, List, [], ◌∷◌, ◌%◌, ◌==◌, arith, Bool-cases, inl,
  inr, if◌then◌else◌,
}
use distributed_jbod.Record.{Bytes}
use distributed_jbod.Coordinator.{LocatedRecord}
use distributed_jbod.Coordinator.Groups.{ClusterFinding, ShardCount}
use distributed_jbod.Coordinator.Streams.{Key}
use distributed_jbod.Coordinator.Inventory.{progress_every_versions}
use distributed_jbod.Coordinator.Scrub.{ExposureEvent, exposure_event, Tally}
use distributed_jbod.Coordinator.Scrub.Buckets.{total, IsBacked}
use distributed_jbod.Coordinator.Scrub.Moved.{tally_version-total, tally_version-IsBacked}
use distributed_jbod.Coordinator.Scrub.CrossCheck.{
  Unreachable, cross_check_progress, Check, events_of_exposure, stop, send_exposure, tally_group,
  note_current, send_findings, count_version, settle_group,
}
use distributed_jbod.Coordinator.Scrub.CrossCheck.Findings.{
  found_in, IsFoundBy, IsFound-quiet, send_findings-IsFoundBy,
}

-- What neither findings nor events change.
record IsFramed (m next : Check) : Type 0 where
  lanes : next.lanes ≡ m.lanes
  unread : next.unread ≡ m.unread
  checked : next.outcome.versions_checked ≡ m.outcome.versions_checked
  stopped : next.outcome.stopped_after ≡ m.outcome.stopped_after
  tally : next.outcome.tally ≡ m.outcome.tally

send_findings-IsFramed :
    (findings : List ClusterFinding) (m : Check) → IsFramed m (send_findings findings m)
unfolding send_findings
send_findings-IsFramed [] m = record {
  lanes = refl;
  unread = refl;
  checked = refl;
  stopped = refl;
  tally = refl;
}
send_findings-IsFramed (f ∷ findings) m =
    let rest = send_findings-IsFramed findings _ in
    record {
      lanes = rest.lanes;
      unread = rest.unread;
      checked = rest.checked;
      stopped = rest.stopped;
      tally = rest.tally;
    }

pub settle_group-running :
    (k : Key) (group : List LocatedRecord) (answer : List ClusterFinding × Option ShardCount)
    (m : Check)
    → (settle_group k group answer m).outcome.stopped_after ≡ m.outcome.stopped_after
unfolding settle_group count_version
settle_group-running k group answer m = (send_findings-IsFramed answer.0 _).stopped

-- At most one version more, and the tally stays backed.
abbrev pub IsTallied : ℕ → Tally → Type 0
IsTallied checked t = (total t.availability ≤ checked) × IsBacked t

tally_group-IsTallied :
    (group : List LocatedRecord) (shards : Option ShardCount) (checked : ℕ) (t : Tally)
    → IsTallied checked t
    → IsTallied (checked + 1) (tally_group group shards t)
tally_group-IsTallied group none checked t (few, backed) = (omega arith, backed)
tally_group-IsTallied [] (some shards) checked t (few, backed) = (omega arith, backed)
tally_group-IsTallied (c ∷ copies) (some shards) checked t (few, backed) =
    let one = tally_version-total c.found.key shards t in
    (omega arith, tally_version-IsBacked c.found.key shards t backed)

module _ (key : Bytes) where
  -- What holds of a merge at every round.
  pub record IsAccounted (m : Check) : Type 0 where
    pub found : IsFoundBy key m
    pub tallied : IsTallied m.outcome.versions_checked m.outcome.tally

  quiet_progress :
      (checked : ℕ) (k : Key)
      → found_in (
          if checked % progress_every_versions == 0
          then cross_check_progress checked k.0 ∷ []
          else [])
        ≡ []
  quiet_progress checked k = elim (Bool-cases (checked % progress_every_versions == 0)) [
    | inl here ↦ rw here refl
    | inr other ↦ rw other refl
  ]

  pub settle_group-IsAccounted :
      (k : Key) (group : List LocatedRecord) (answer : List ClusterFinding × Option ShardCount)
      (m : Check)
      → IsAccounted m
      → IsAccounted (settle_group k group answer m)
  unfolding settle_group count_version
  settle_group-IsAccounted k group answer m h =
      let noted : Check = record m {
        outcome = record m.outcome {
          exposure = note_current group m.unread m.outcome.exposure;
          tally = tally_group group answer.1 m.outcome.tally;
        };
      } in
      let sent = send_findings answer.0 noted in
      let framed = send_findings-IsFramed answer.0 noted in
      record {
        found =
            IsFound-quiet key sent.outcome.findings sent.outcome.damaged_keys sent.events _
              (quiet_progress (sent.outcome.versions_checked + 1) k)
              (send_findings-IsFoundBy key answer.0 noted h.found);
        tallied =
            subst (λ (c : ℕ). IsTallied (c + 1) sent.outcome.tally) (sym framed.checked)
              (subst (λ (t : Tally). IsTallied (m.outcome.versions_checked + 1) t)
                (sym framed.tally)
                (tally_group-IsTallied group answer.1 m.outcome.versions_checked m.outcome.tally
                  h.tallied));
      }

  quiet_exposure : (event : Option ExposureEvent) → found_in (events_of_exposure event) ≡ []
  quiet_exposure none = refl
  quiet_exposure (some event) = refl

  pub send_exposure-IsAccounted : (m : Check) → IsAccounted m → IsAccounted (send_exposure m)
  unfolding send_exposure
  send_exposure-IsAccounted m h = record {
    found =
        IsFound-quiet key m.outcome.findings m.outcome.damaged_keys m.events
          (events_of_exposure
            (exposure_event m.unread m.outcome.versions_checked m.outcome.exposure))
          (quiet_exposure (exposure_event m.unread m.outcome.versions_checked m.outcome.exposure))
          h.found;
    tallied = h.tallied;
  }

  pub stop-IsAccounted :
      (unreachable : Unreachable) (m : Check) → IsAccounted m → IsAccounted (stop unreachable m)
  unfolding stop
  stop-IsAccounted unreachable m h = record {
    found = IsFound-quiet key m.outcome.findings m.outcome.damaged_keys m.events _ refl h.found;
    tallied = h.tallied;
  }

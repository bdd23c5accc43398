-- ===== src/Node/Membership/Retry.antt =====
-- A directory that `open_or_initialise` has initialised, when `join` or `add-device` is run again.
use distributed_jbod.Common.{
  ℕ, ◌≡◌, refl, ◌∙◌, ap, Bool, false, Option, none, some, List, [], Outcome, ok, err, Bool-cases,
  inl, inr, if◌then◌else◌,
}
use distributed_jbod.Cluster.{DeviceId, ClusterDocument}
use distributed_jbod.Device.{IoKind, DeviceError, not_initialised, foreign_directory, Disk}
use distributed_jbod.Device.Checks.{DeviceIdentity}
use distributed_jbod.Device.Identity.{is_dir, open_device}
use distributed_jbod.Device.Identity.Open.{open_missing}
use distributed_jbod.Device.Identity.Initialise.{identity_of}
use distributed_jbod.Device.Identity.Initialise.Blank.{IsBlank}
use distributed_jbod.Device.Identity.Initialise.Fresh.{no_objects, no_identity_file}
use distributed_jbod.Device.Identity.Initialise.Opens.{initialise_lem}
use distributed_jbod.Node.Membership.{
  removed_device, as_membership, is_listed, judge_opened, open_or_initialise,
}

blank_opens_not :
    (from_json : List ℕ → Option DeviceIdentity) (expected : Option ℕ) (disk : Disk)
    → IsBlank disk.entries
    → open_device from_json expected disk ≡ (err (not_initialised []), disk)
blank_opens_not from_json expected disk blank =
    open_missing from_json expected disk blank.root (no_identity_file 0 disk blank)
    ∙ ap (λ e. answer_of (if is_dir e then foreign_directory [] else not_initialised []))
        (no_objects 0 disk blank)
  where
    answer_of : DeviceError → Outcome DeviceError DeviceIdentity × Disk
    answer_of failure = (err failure, disk)

module _ (write_all : List ℕ → Option IoKind) (to_json : DeviceIdentity → List ℕ)
    (from_json : List ℕ → Option DeviceIdentity) where
  answer_again :
      (pid : ℕ) (id : DeviceId) (created_at : ℕ) (later : ClusterDocument) (i : DeviceIdentity)
      (disk : Disk)
      → open_device from_json (some later.cluster_id) disk ≡ (ok i, disk)
      → open_or_initialise write_all pid to_json from_json id created_at later false disk
        ≡ (if is_listed later i.device_id then ok i else err (removed_device i.device_id), disk)
  unfolding open_or_initialise judge_opened
  answer_again pid id created_at later i disk opens =
      ap (judge_opened write_all pid to_json from_json id created_at later false) opens
      ∙ elim (Bool-cases (is_listed later i.device_id)) [
        | inl listed ↦ rw (judge_opened, listed) refl
        | inr absent ↦ rw (judge_opened, absent) refl
      ]

  -- A directory that was blank is initialised, and when the same is asked for again, without the flag to
  -- wipe, the device is taken as it is only if the document then lists it. If the document still does not
  -- list it, for the proposal failed or was not made, the device is refused as a removed one. The disk
  -- accepts the identity file, and its JSON is read back.
  pub open_or_initialise_again :
      (pid next_pid : ℕ) (id next_id : DeviceId) (created_at next_time : ℕ)
      (document later : ClusterDocument) (wipe_removed : Bool) (disk : Disk)
      → IsBlank disk.entries
      → write_all (to_json (identity_of id created_at document.cluster_id)) ≡ none
      → from_json (to_json (identity_of id created_at document.cluster_id))
        ≡ some (identity_of id created_at document.cluster_id)
      → later.cluster_id ≡ document.cluster_id
      → (after : Disk) × (open_or_initialise write_all pid to_json from_json id created_at document
            wipe_removed disk
          ≡ (ok (identity_of id created_at document.cluster_id), after))
        × (open_or_initialise write_all next_pid to_json from_json next_id next_time later false
              after
            ≡ (
              if is_listed later id
                  then ok (identity_of id created_at document.cluster_id)
                  else err (removed_device id),
              after,
            ))
  unfolding open_or_initialise judge_opened
  open_or_initialise_again pid next_pid id next_id created_at next_time document later wipe_removed
        disk blank accepts back same =
      let (after, runs, opens, holds) =
        initialise_lem write_all pid to_json id created_at document.cluster_id disk blank accepts
          from_json back in
      (
        after,
        ap (judge_opened write_all pid to_json from_json id created_at document wipe_removed)
              (blank_opens_not from_json (some document.cluster_id) disk blank)
            ∙ ap as_membership runs,
        answer_again next_pid next_id next_time later
            (identity_of id created_at document.cluster_id) after (rw same opens),
      )

-- ===== src/Coordinator/Scrub/CrossCheck/Runs.antt =====
-- A concrete merge: the second device cannot be read after its first record.
use distributed_jbod.Common.{◌≡◌, ◌⊎◌, refl, none, some, List, [], ◌∷◌, ok, arith, bytes_eq}
use distributed_jbod.Record.{index_on}
use distributed_jbod.Record.Equality.{record_eq}
use distributed_jbod.Coordinator.{
  Failure, error, device_unavailable, connection_ended, latest_of, max_of,
}
use distributed_jbod.Coordinator.Samples.{streamed_from}
use distributed_jbod.Coordinator.Copies.{
  bytes_ltb, push_copy, group_copies, check_named, check_current, check_all, missing_copy,
  missing_copies, vouching_copies, trust_version, trust_entries, trusted_versions, accept_version,
  accept_versions, versions_of_excluding, is_stale, stale_copies,
}
use distributed_jbod.Coordinator.Groups.{
  lost_of_group, count_shards, stale_findings, shard_findings, check_versions, check_group,
}
use distributed_jbod.Coordinator.Streams.{
  RecordSource, yielded, failed, key_ltb, smallest, taken, presence_of,
}
use distributed_jbod.Coordinator.Scrub.{
  bump, count_at, count_out, note_exposure, exposure_event, without_key, tally_version,
}
use distributed_jbod.Coordinator.Scrub.CrossCheck.{
  Check, cross_check_exposure, insert_sorted, advance_check, advance_checks, start_checks, stop,
  send_exposure, send_findings, count_version, settle_group, check_round, check_loop, merge_sources,
}
use distributed_jbod.Coordinator.Scrub.CrossCheck.Accounts.{IsAccounted}
use distributed_jbod.Coordinator.Scrub.CrossCheck.Ends.{
  IsComplete, IsStopped, devices_of_sources, merge_sources_total,
}
use distributed_jbod.Coordinator.Scrub.CrossCheck.Complete.{merge_sources-IsComplete}

abbrev gone : Failure
gone = error (record {
  code = device_unavailable;
  message = connection_ended;
  node = none;
  device = some 6;
  key = none;
  version = none;
})

abbrev sources : List RecordSource
sources =
    record { owner = 1; device = 5; items = yielded (streamed_from 5) ∷ [] }
    ∷ record { owner = 2; device = 6; items = yielded (streamed_from 6) ∷ failed gone ∷ [] }
    ∷ []

merge_sources_total_example :
    (last : Check) × (merge_sources 4 sources [] ≡ some (ok last))
    × IsAccounted (b'k' ∷ []) last
    × (IsComplete (devices_of_sources sources) last ⊎ IsStopped last)
merge_sources_total_example = merge_sources_total (b'k' ∷ []) 4 sources [] (omega arith)

merge_sources-IsComplete_example :
    (last : Check) × (merge_sources 4 sources [] ≡ some (ok last))
    × IsComplete (devices_of_sources sources) last
merge_sources-IsComplete_example =
    merge_sources-IsComplete 4 sources [] (omega arith) (refl, (refl, tt))

-- One version is checked, with both shards available and without a finding.
checked :
    merge_sources 4 sources []
    ≡ some (
        ok (record {
          lanes =
              record { source = record { owner = 1; device = 5; items = [] }; head = none }
              ∷ record { source = record { owner = 2; device = 6; items = [] }; head = none }
              ∷ [];
          unread = 6 ∷ [];
          outcome = record {
            findings = 0;
            damaged_keys = [];
            versions_checked = 1;
            stopped_after = none;
            exposure = record {
              by_device = [];
              with_shards_out = 0;
              at_the_limit = 0;
              beyond_the_limit = 0;
            };
            tally = record { availability = ((2, 2, 1), 1) ∷ []; damaged = [] };
          };
          events =
              cross_check_exposure (record {
                unread = (6, 0) ∷ [];
                versions_checked = 1;
                versions_with_shards_out = 0;
                versions_at_the_limit = 0;
                versions_unreadable = 0;
              })
              ∷ [];
        }))
unfolding merge_sources check_loop check_round settle_group count_version send_findings
    send_exposure stop start_checks advance_checks advance_check insert_sorted smallest taken
    presence_of key_ltb bytes_ltb check_group check_versions lost_of_group count_shards
    stale_findings shard_findings stale_copies is_stale versions_of_excluding trusted_versions
    group_copies push_copy trust_entries trust_version check_all check_named check_current max_of
    record_eq index_on missing_copies missing_copy vouching_copies accept_versions accept_version
    bytes_eq latest_of note_exposure count_out bump count_at exposure_event tally_version
    without_key
checked = refl

-- ===== src/Coordinator/Scrub/CrossCheck/Complete.antt =====
-- A merge that only unavailable devices interrupt reads every other stream to its end.
use mathlib.Core.Path.{subst}
use distributed_jbod.Common.{
  ℕ, ◌<◌, ◌≡◌, ◌⊎◌, refl, sym, ◌∙◌, ap, Option, none, some, List, [], ok, All, arith, inl, inr,
}
use distributed_jbod.ShardFile.{VersionId}
use distributed_jbod.Cluster.{DeviceId}
use distributed_jbod.Coordinator.{Answer}
use distributed_jbod.Coordinator.Streams.{RecordSource, Key, smallest, taken, group_of}
use distributed_jbod.Coordinator.Streams.Heads.{stream_size, smallest-taken}
use distributed_jbod.Coordinator.Scrub.CrossCheck.{
  Check, no_outcome, send_exposure, settle_group, Round, going, move_on, check_round, check_started,
  merge_sources,
}
use distributed_jbod.Coordinator.Scrub.CrossCheck.Accounts.{settle_group-running}
use distributed_jbod.Coordinator.Scrub.CrossCheck.Shrinks.{
  Ensures, IsMoved, advance_checks-IsMoved, IsStarted, start_checks-IsStarted,
}
use distributed_jbod.Coordinator.Scrub.CrossCheck.Smooth.{
  IsSmooth, IsSmoothLane, advance_checks-smooth, start_checks-smooth,
}
use distributed_jbod.Coordinator.Scrub.CrossCheck.Total.{IsRound, check_taken, check_loop-total}
use distributed_jbod.Coordinator.Scrub.CrossCheck.Ends.{
  IsComplete, IsStopped, devices_of_sources, merge_sources_total,
}

-- Nothing has stopped the merge, and nothing will.
record IsSafe (m : Check) : Type 0 where
  running : m.outcome.stopped_after ≡ none
  smooth : All IsSmoothLane m.lanes

abbrev IsUnstopped : Check → Type 0
IsUnstopped m = m.outcome.stopped_after ≡ none

finish : (m : Check) → smallest m.lanes ≡ none → IsSafe m → IsUnstopped (send_exposure m)
unfolding send_exposure
finish m e s = s.running

rounds :
    (known : List DeviceId) (damaged : List (VersionId × ℕ)) (k : Key) (m : Check)
    → smallest m.lanes ≡ some k
    → IsSafe m
    → (round : Round) × (check_round known damaged k m ≡ ok round)
      × IsRound IsSafe IsUnstopped m round
rounds known damaged k m e s =
    let (answer, checks) = check_taken known damaged k m e in
    let settled = settle_group k (group_of (taken k m.lanes)) answer m in
    let (next, moves, smooth) = advance_checks-smooth k m.lanes m.unread s.smooth in
    let moved =
      subst (Ensures (IsMoved k m.lanes m.unread)) moves
        (advance_checks-IsMoved k m.lanes m.unread) in
    let some_taken = smallest-taken k m.lanes e in
    let less = moved.shrinks in
    (
      going (record settled { lanes = next.0; unread = next.1 }),
      checks ∙ ap (move_on settled) moves,
      (
        omega arith,
        record {
          running = settle_group-running k (group_of (taken k m.lanes)) answer m ∙ s.running;
          smooth = smooth;
        },
      ),
    )

unstopped :
    (fuel : ℕ) (sources : List RecordSource) (damaged : List (VersionId × ℕ))
    → stream_size sources < fuel
    → All IsSmooth sources
    → (last : Check) × (merge_sources fuel sources damaged ≡ some (ok last)) × IsUnstopped last
unfolding merge_sources
unstopped fuel sources damaged enough smooth =
    let known = devices_of_sources sources in
    let (begun, starts, still) = start_checks-smooth sources [] smooth in
    let at_start = subst (Ensures (IsStarted sources)) starts (start_checks-IsStarted sources) in
    let small = at_start.size in
    let (last, runs, ended) =
      check_loop-total known damaged IsSafe IsUnstopped finish (rounds known damaged) fuel
        (record { lanes = begun.0; unread = begun.1; outcome = no_outcome; events = [] })
        (omega arith) (record { running = refl; smooth = still }) in
    (last, ap (check_started known damaged fuel) starts ∙ runs, ended)

-- A merge of which no stream fails but by an unavailable device is never stopped: with more fuel than the
-- streams hold results it ends, and then the stream of every device has been read to its end, unless the
-- device is unread.
pub merge_sources-IsComplete :
    (fuel : ℕ) (sources : List RecordSource) (damaged : List (VersionId × ℕ))
    → stream_size sources < fuel
    → All IsSmooth sources
    → (last : Check) × (merge_sources fuel sources damaged ≡ some (ok last))
      × IsComplete (devices_of_sources sources) last
merge_sources-IsComplete fuel sources damaged enough smooth =
    let (last, runs, accounted, ended) = merge_sources_total [] fuel sources damaged enough in
    let (other, also, running) = unstopped fuel sources damaged enough smooth in
    (last, runs, settle last other runs also running ended)
  where
    settle :
        (last other : Check)
        → merge_sources fuel sources damaged ≡ some (ok last)
        → merge_sources fuel sources damaged ≡ some (ok other)
        → IsUnstopped other
        → (IsComplete (devices_of_sources sources) last ⊎ IsStopped last)
        → IsComplete (devices_of_sources sources) last
    settle last other runs also running (inl complete) = complete
    settle last other runs also running (inr stopped) = absurd (
        let same : Path (Option (Answer Check)) (some (ok other)) (some (ok last)) =
          sym also ∙ runs in
        let equal : other ≡ last = cc in
        let wrong : Path (Option ℕ) none (some last.outcome.versions_checked) =
          sym running ∙ ap (λ (m : Check). m.outcome.stopped_after) equal ∙ stopped in
        cc)

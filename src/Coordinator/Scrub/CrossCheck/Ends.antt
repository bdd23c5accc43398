-- ===== src/Coordinator/Scrub/CrossCheck/Ends.antt =====
-- How the merge of a scrub ends, and what its outcome then says.
use distributed_jbod.Common.{
  ℕ, ◌≤◌, ◌<◌, ◌≡◌, ◌⊎◌, refl, ◌∙◌, none, some, List, [], ◌∷◌, map, Outcome, ok, err, panic, length,
  All, arith, inl, inr,
}
use distributed_jbod.Common.Seen.{IsIn}
use distributed_jbod.ShardFile.{VersionId}
use distributed_jbod.Cluster.{DeviceId}
use distributed_jbod.Record.{Bytes}
use distributed_jbod.Coordinator.Streams.{RecordSource, Lane, Key, smallest, taken, group_of}
use distributed_jbod.Coordinator.Streams.Heads.{stream_size, smallest-taken, smallest-none_heads}
use distributed_jbod.Coordinator.Scrub.CrossCheck.{
  Unreachable, Check, no_outcome, Broken, stop, send_exposure, settle_group, Round, going, move_on,
  advance_checks, start_checks, check_round, check_started, merge_sources,
}
use distributed_jbod.Coordinator.Scrub.CrossCheck.Accounts.{
  IsAccounted, settle_group-IsAccounted, settle_group-running, send_exposure-IsAccounted,
  stop-IsAccounted,
}
use distributed_jbod.Coordinator.Scrub.CrossCheck.Shrinks.{
  IsServed, device_of, Ensures, IsMoved, advance_checks-IsMoved, IsStarted, start_checks-IsStarted,
}
use distributed_jbod.Coordinator.Scrub.CrossCheck.Total.{IsRound, check_taken, check_loop-total}

-- The stream was read to its end, or its device is unread.
abbrev pub IsRead : List DeviceId → Lane → Type 0
IsRead unread lane = (lane.source.items ≡ []) ⊎ IsIn lane.source.device unread

-- The merge has read the streams of these devices, and nothing has stopped it.
pub record IsComplete (devices : List DeviceId) (m : Check) : Type 0 where
  pub running : m.outcome.stopped_after ≡ none
  pub same : map device_of m.lanes ≡ devices
  pub all_read : All (IsRead m.unread) m.lanes

-- It was stopped, after the versions that it had checked.
abbrev pub IsStopped : Check → Type 0
IsStopped m = m.outcome.stopped_after ≡ some m.outcome.versions_checked

All-IsRead :
    (unread : List DeviceId) (lanes : List Lane)
    → All (λ (l : Lane). l.head ≡ none) lanes
    → All (IsServed unread) lanes
    → All (IsRead unread) lanes
All-IsRead unread [] empty served = tt
All-IsRead unread (lane ∷ lanes) (empty, rest) (inl full, later) = absurd (full empty)
All-IsRead unread (lane ∷ lanes) (empty, rest) (inr read, later) =
    (read, All-IsRead unread lanes rest later)

module _ (key : Bytes) (devices : List DeviceId) where
  record IsGood (m : Check) : Type 0 where
    accounted : IsAccounted key m
    running : m.outcome.stopped_after ≡ none
    served : All (IsServed m.unread) m.lanes
    same : map device_of m.lanes ≡ devices

  abbrev pub IsEnd : Check → Type 0
  IsEnd m = IsAccounted key m × (IsComplete devices m ⊎ IsStopped m)

  finish : (m : Check) → smallest m.lanes ≡ none → IsGood m → IsEnd (send_exposure m)
  unfolding send_exposure
  finish m e g = (
    send_exposure-IsAccounted key m g.accounted,
    inl (record {
      running = g.running;
      same = g.same;
      all_read = All-IsRead m.unread m.lanes (smallest-none_heads m.lanes e) g.served;
    }),
  )

  -- Stopping keeps the accounts.
  stopped_end :
      (unreachable : Unreachable) (unread : List DeviceId) (m : Check)
      → IsAccounted key m
      → IsEnd (send_exposure (stop unreachable (record m { unread = unread })))
  unfolding send_exposure stop
  stopped_end unreachable unread m h =
      let moved : IsAccounted key (record m { unread = unread }) = record {
        found = h.found;
        tallied = h.tallied;
      } in
      (
        send_exposure-IsAccounted key (stop unreachable (record m { unread = unread }))
            (stop-IsAccounted key unreachable (record m { unread = unread }) moved),
        inr refl,
      )

  settle_round :
      (k : Key) (m settled : Check) (moved : Outcome Broken (List Lane × List DeviceId))
      → IsGood m
      → IsAccounted key settled
      → settled.outcome.stopped_after ≡ none
      → 1 ≤ length (taken k m.lanes)
      → Ensures (IsMoved k m.lanes m.unread) moved
      → (round : Round) × (move_on settled moved ≡ ok round) × IsRound IsGood IsEnd m round
  settle_round k m settled (ok (lanes, unread)) g accounted running some_taken moved =
      let less = moved.shrinks in
      (
        going (record settled { lanes = lanes; unread = unread }),
        refl,
        (
          omega arith,
          record {
            accounted = record { found = accounted.found; tallied = accounted.tallied };
            running = running;
            served = moved.served g.served;
            same = moved.devices ∙ g.same;
          },
        ),
      )
  settle_round k m settled (err (unreachable, unread)) g accounted running some_taken moved =
      (_, refl, stopped_end unreachable unread settled accounted)
  settle_round k m settled panic g accounted running some_taken moved = absurd moved

  rounds :
      (known : List DeviceId) (damaged : List (VersionId × ℕ)) (k : Key) (m : Check)
      → smallest m.lanes ≡ some k
      → IsGood m
      → (round : Round) × (check_round known damaged k m ≡ ok round) × IsRound IsGood IsEnd m round
  rounds known damaged k m e g =
      let (answer, checks) = check_taken known damaged k m e in
      let group = group_of (taken k m.lanes) in
      let (round, moves, outcome_of) =
        settle_round k m (settle_group k group answer m) (advance_checks k m.lanes m.unread) g
          (settle_group-IsAccounted key k group answer m g.accounted)
          (settle_group-running k group answer m ∙ g.running) (smallest-taken k m.lanes e)
          (advance_checks-IsMoved k m.lanes m.unread) in
      (round, checks ∙ moves, outcome_of)

  nothing_yet :
      (lanes : List Lane) (unread : List DeviceId)
      → IsAccounted key
          (record { lanes = lanes; unread = unread; outcome = no_outcome; events = [] })
  nothing_yet lanes unread = record {
    found = record { counted = refl; told = λ i. i; kept = λ i. i };
    tallied = (omega arith, λ b. omega arith);
  }

-- The devices that have a stream.
abbrev pub devices_of_sources : List RecordSource → List DeviceId
devices_of_sources sources = map (λ (s : RecordSource). s.device) sources

stop-IsStopped : (unreachable : Unreachable) (m : Check) → IsStopped (stop unreachable m)
unfolding stop
stop-IsStopped unreachable m = refl

-- From the started streams on.
started :
    (key : Bytes) (known : List DeviceId) (damaged : List (VersionId × ℕ)) (fuel : ℕ)
    (sources : List RecordSource) (begun : Outcome Broken (List Lane × List DeviceId))
    → stream_size sources < fuel
    → Ensures (IsStarted sources) begun
    → (last : Check) × (check_started known damaged fuel begun ≡ some (ok last))
      × IsEnd key (devices_of_sources sources) last
started key known damaged fuel sources (ok (lanes, unread)) enough begun =
    let devices = devices_of_sources sources in
    let small = begun.size in
    check_loop-total known damaged (IsGood key devices) (IsEnd key devices) (finish key devices)
      (rounds key devices known damaged) fuel
      (record { lanes = lanes; unread = unread; outcome = no_outcome; events = [] }) (omega arith)
      (record {
        accounted = nothing_yet key devices lanes unread;
        running = refl;
        served = begun.served;
        same = begun.devices;
      })
started key known damaged fuel sources (err (unreachable, unread)) enough begun = (
  _,
  refl,
  (
    stop-IsAccounted key unreachable _ (nothing_yet key (devices_of_sources sources) [] unread),
    inr (stop-IsStopped unreachable _),
  ),
)
started key known damaged fuel sources panic enough begun = absurd begun

-- The merge of the record streams of a scrub ends: with more fuel than the streams hold results, it neither
-- fails nor panics. At its end the number of findings is that of the finding events that were sent, and any
-- key is among the damaged keys exactly when one of these findings has it. The versions that are tallied by
-- their available shards are no more than those checked, and every key that a repair may move is in the
-- tally with its bucket. Either nothing has stopped the merge, and it has read the stream of every device
-- to the end unless the device is unread, or the outcome says after how many versions it stopped.
pub merge_sources_total :
    (key : Bytes) (fuel : ℕ) (sources : List RecordSource) (damaged : List (VersionId × ℕ))
    → stream_size sources < fuel
    → (last : Check) × (merge_sources fuel sources damaged ≡ some (ok last))
      × IsAccounted key last
      × (IsComplete (devices_of_sources sources) last ⊎ IsStopped last)
unfolding merge_sources
merge_sources_total key fuel sources damaged enough =
    let (last, runs, (accounted, ended)) =
      started key (devices_of_sources sources) damaged fuel sources (start_checks sources []) enough
        (start_checks-IsStarted sources) in
    (last, runs, accounted, ended)

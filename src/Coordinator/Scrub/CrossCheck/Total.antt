-- ===== src/Coordinator/Scrub/CrossCheck/Total.antt =====
-- The merge of a scrub ends, whatever the streams hold.
use distributed_jbod.Common.{
  ℕ, zero, suc, ◌<◌, ◌≡◌, refl, ◌∙◌, ap, Option, none, some, List, [], ok, ◌>>=◌, arith,
}
use distributed_jbod.ShardFile.{VersionId}
use distributed_jbod.Cluster.{DeviceId}
use distributed_jbod.Coordinator.{LocatedRecord}
use distributed_jbod.Coordinator.Groups.{ClusterFinding, ShardCount, check_group}
use distributed_jbod.Coordinator.Groups.Total.{check_group-total}
use distributed_jbod.Coordinator.Streams.{Key, smallest, taken, group_of, presence_of}
use distributed_jbod.Coordinator.Streams.Heads.{remaining, taken_group}
use distributed_jbod.Coordinator.Scrub.CrossCheck.{
  Check, send_exposure, settle_group, Round, going, halted, move_on, advance_checks, check_round,
  check_loop,
}

-- A round: something is taken, and the loop goes on with less, or ends.
abbrev pub IsRound : (Check → Type 0) → (Check → Type 0) → Check → Round → Type 0
IsRound Good End m (going next) = (remaining next.lanes < remaining m.lanes) × Good next
IsRound Good End m (halted last) = End last

module _ (known : List DeviceId) (damaged : List (VersionId × ℕ)) where
  -- What the check of the taken copies says, which is never a panic.
  pub check_taken :
      (key : Key) (m : Check)
      → smallest m.lanes ≡ some key
      → (answer : List ClusterFinding × Option ShardCount) × (check_round known damaged key m
          ≡ move_on
              (settle_group key (group_of (taken key m.lanes)) answer m)
              (advance_checks key m.lanes m.unread))
  unfolding check_round
  check_taken key m e =
      let present = presence_of [] (taken key m.lanes) in
      let (c, copies, group, one) = taken_group key m.lanes e in
      let (answer, checks) = check_group-total c copies present m.unread known damaged one in
      (
        answer,
        ap
            (λ found. found >>= λ a.
              move_on (settle_group key (group_of (taken key m.lanes)) a m)
                (advance_checks key m.lanes m.unread))
            (ap (λ (g : List LocatedRecord). check_group g present m.unread known damaged) group
              ∙ checks),
      )

  check_loop-end :
      (fuel : ℕ) (m : Check)
      → smallest m.lanes ≡ none
      → check_loop known damaged (suc fuel) m ≡ some (ok (send_exposure m))
  unfolding check_loop
  check_loop-end fuel m e = rw (check_loop, e) refl

  check_loop-going :
      (fuel : ℕ) (key : Key) (m next : Check)
      → smallest m.lanes ≡ some key
      → check_round known damaged key m ≡ ok (going next)
      → check_loop known damaged (suc fuel) m ≡ check_loop known damaged fuel next
  unfolding check_loop
  check_loop-going fuel key m next e round = rw (check_loop, e, round) refl

  check_loop-halted :
      (fuel : ℕ) (key : Key) (m last : Check)
      → smallest m.lanes ≡ some key
      → check_round known damaged key m ≡ ok (halted last)
      → check_loop known damaged (suc fuel) m ≡ some (ok last)
  unfolding check_loop
  check_loop-halted fuel key m last e round = rw (check_loop, e, round) refl

  -- With enough fuel the loop ends, and what holds at every end then holds.
  pub check_loop-total :
      (Good End : Check → Type 0)
      → ((m : Check) → smallest m.lanes ≡ none → Good m → End (send_exposure m))
      → ((key : Key) (m : Check)
          → smallest m.lanes ≡ some key
          → Good m
          → (round : Round) × (check_round known damaged key m ≡ ok round)
            × IsRound Good End m round)
      → (fuel : ℕ) (m : Check) → remaining m.lanes < fuel
      → Good m
      → (last : Check) × (check_loop known damaged fuel m ≡ some (ok last)) × End last
  check_loop-total Good End finish rounds zero m enough good = absurd (omega arith)
  check_loop-total Good End finish rounds (suc fuel) m enough good =
      outcome (smallest m.lanes) refl (check_loop-total Good End finish rounds fuel)
    where
      after :
          (key : Key) (round : Round)
          → smallest m.lanes ≡ some key
          → check_round known damaged key m ≡ ok round
          → IsRound Good End m round
          → ((next : Check)
              → remaining next.lanes < fuel
              → Good next
              → (last : Check) × (check_loop known damaged fuel next ≡ some (ok last)) × End last)
          → (last : Check) × (check_loop known damaged (suc fuel) m ≡ some (ok last)) × End last
      after key (halted last) e runs ended again =
          (last, check_loop-halted fuel key m last e runs, ended)
      after key (going next) e runs (less, still) again =
          let (last, ends, ended) = again next (omega arith) still in
          (last, check_loop-going fuel key m next e runs ∙ ends, ended)

      outcome :
          (at : Option Key)
          → smallest m.lanes ≡ at
          → ((next : Check)
              → remaining next.lanes < fuel
              → Good next
              → (last : Check) × (check_loop known damaged fuel next ≡ some (ok last)) × End last)
          → (last : Check) × (check_loop known damaged (suc fuel) m ≡ some (ok last)) × End last
      outcome none e again = (send_exposure m, check_loop-end fuel m e, finish m e good)
      outcome (some key) e again =
          let (round, runs, outcome_of) = rounds key m e good in
          after key round e runs outcome_of again

-- ===== src/Coordinator/Scrub/CrossCheck/Shrinks.antt =====
-- What a step of the streams leaves of them.

use distributed_jbod.Common.{
  ◌+◌, ◌≤◌, ◌≡◌, ◌≢◌, ◌⊎◌, refl, none, List, [], ◌∷◌, map, Outcome, ok, err, panic, ◌>>=◌, length,
  length-append, ◌==◌, ==_iff, ltb, All, All-weaken, arith, Bool-cases, inl, inr, if◌then◌else◌,
}
use distributed_jbod.Common.Seen.{IsIn}
use distributed_jbod.Cluster.{DeviceId}
use distributed_jbod.Coordinator.Streams.{
  StreamItem, yielded, failed, RecordSource, Lane, Key, matches_key, taken_head, taken,
}
use distributed_jbod.Coordinator.Streams.Heads.{
  lane_size, remaining, stream_size, taken_head-some, taken_head-none, held,
}
use distributed_jbod.Coordinator.Scrub.CrossCheck.{
  is_device_unavailable, Broken, after_check, advance_check, advance_checks, start_checks,
}
use distributed_jbod.Coordinator.Scrub.CrossCheck.Findings.{insert_sorted-new, insert_sorted-keeps}

-- The lane has a record at its head, or its stream is at its end, or its device is unread.
abbrev pub IsServed : List DeviceId → Lane → Type 0
IsServed unread lane =
    (lane.head ≢ none) ⊎ ((lane.source.items ≡ []) ⊎ IsIn lane.source.device unread)

abbrev pub device_of : Lane → DeviceId
device_of lane = lane.source.device

-- No device is forgotten.
abbrev Grows : List DeviceId → List DeviceId → Type 0
Grows unread more = (d : DeviceId) → IsIn d unread → IsIn d more

IsServed-Grows :
    (unread more : List DeviceId) (lane : Lane)
    → Grows unread more
    → IsServed unread lane
    → IsServed more lane
IsServed-Grows unread more lane grows (inl full) = inl full
IsServed-Grows unread more lane grows (inr (inl ended)) = inr (inl ended)
IsServed-Grows unread more lane grows (inr (inr there)) = inr (inr (grows device there))
  where
    open lane.source use {device}

-- A call of `next` on a source.
record IsStep (source : RecordSource) (unread : List DeviceId) (next : Lane × List DeviceId)
    : Type 0 where
  size : lane_size next.0 ≤ length source.items
  device : device_of next.0 ≡ source.device
  served : IsServed next.1 next.0
  grows : Grows unread next.1

-- Goes on with what satisfies `P`, or is broken off; it does not panic.
abbrev pub Ensures : {A : Type 0} → (A → Type 0) → Outcome Broken A → Type 0
Ensures P (ok a) = P a
Ensures P (err broken) = Unit {0}
Ensures P panic = ⊥

Ensures-bind :
    {A B : Type 0} (P : A → Type 0) (Q : B → Type 0) (m : Outcome Broken A)
    (rest : A → Outcome Broken B)
    → Ensures P m
    → ((a : A) → P a → Ensures Q (rest a))
    → Ensures Q (m >>= rest)
Ensures-bind P Q (ok a) rest p h = h a p
Ensures-bind P Q (err broken) rest p h = tt
Ensures-bind P Q panic rest p h = p

Ensures-weaken :
    {A : Type 0} (P Q : A → Type 0) (m : Outcome Broken A)
    → ((a : A) → P a → Q a)
    → Ensures P m
    → Ensures Q m
Ensures-weaken P Q (ok a) h p = h a p
Ensures-weaken P Q (err broken) h p = tt
Ensures-weaken P Q panic h p = p

after_check-IsStep :
    (source : RecordSource) (unread : List DeviceId) (items : List StreamItem)
    → Ensures
        (IsStep (record source { items = items }) unread)
        (after_check (record source { items = items }) unread items)
after_check-IsStep source unread [] = record {
  size = omega arith;
  device = refl;
  served = inr (inl refl);
  grows = λ d i. i;
}
after_check-IsStep source unread (yielded item ∷ items) = record {
  size = omega arith;
  device = refl;
  served = inl (λ wrong. absurd (cc));
  grows = λ d i. i;
}
after_check-IsStep source unread (failed failure ∷ items) =
    elim (Bool-cases (is_device_unavailable failure)) [
      | inl unavailable ↦ rw unavailable (record {
        size = omega arith;
        device = refl;
        served = inr (inr (insert_sorted-new ◌==◌ ltb ==_iff source.device unread));
        grows = λ d i. insert_sorted-keeps ◌==◌ ltb ==_iff d source.device unread i;
      })
      | inr other ↦ rw other tt
    ]

advance_check-IsStep :
    (lane : Lane) (unread : List DeviceId)
    → Ensures (IsStep lane.source unread) (advance_check lane unread)
unfolding advance_check
advance_check-IsStep lane unread = after_check-IsStep lane.source unread lane.source.items

-- What a round does to all lanes.
pub record IsMoved (key : Key) (lanes : List Lane) (unread : List DeviceId)
    (next : List Lane × List DeviceId) : Type 0 where
  pub shrinks : remaining next.0 + length (taken key lanes) ≤ remaining lanes
  pub devices : map device_of next.0 ≡ map device_of lanes
  pub served : All (IsServed unread) lanes → All (IsServed next.1) next.0
  pub grows : Grows unread next.1

-- One lane of a round: taken and moved on, or left.
record IsPassed (key : Key) (lane : Lane) (unread : List DeviceId) (next : Lane × List DeviceId)
    : Type 0 where
  size : lane_size next.0 + length (taken_head key lane.head) ≤ lane_size lane
  device : device_of next.0 ≡ device_of lane
  served : IsServed unread lane → IsServed next.1 next.0
  grows : Grows unread next.1

pass_lane :
    (key : Key) (lane : Lane) (unread : List DeviceId)
    → Ensures
        (IsPassed key lane unread)
        (if matches_key key lane.head then advance_check lane unread else ok (lane, unread))
pass_lane key lane unread = elim (Bool-cases (matches_key key lane.head)) [
  | inl here ↦
      let (one, there) = taken_head-some key lane.head here in
      rw here (
        Ensures-weaken (IsStep lane.source unread) (IsPassed key lane unread)
          (advance_check lane unread) (λ next step. passed next step one there)
          (advance_check-IsStep lane unread))
  | inr other ↦
      let nothing = taken_head-none key lane.head other in
      rw other (record { size = omega arith; device = refl; served = λ s. s; grows = λ d i. i })
]
  where
    passed :
        (next : Lane × List DeviceId)
        → IsStep lane.source unread next
        → length (taken_head key lane.head) ≡ 1
        → held lane.head ≡ 1
        → IsPassed key lane unread next
    passed next step one there =
        let small = step.size in
        record {
          size = omega arith;
          device = step.device;
          served = λ s. step.served;
          grows = step.grows;
        }

pub advance_checks-IsMoved :
    (key : Key) (lanes : List Lane) (unread : List DeviceId)
    → Ensures (IsMoved key lanes unread) (advance_checks key lanes unread)
unfolding advance_checks taken
advance_checks-IsMoved key [] unread = record {
  shrinks = omega arith;
  devices = refl;
  served = λ s. tt;
  grows = λ d i. i;
}
advance_checks-IsMoved key (lane ∷ lanes) unread =
    Ensures-bind (IsPassed key lane unread) (IsMoved key (lane ∷ lanes) unread) _ _
      (pass_lane key lane unread)
      (λ moved passed.
        Ensures-bind (IsMoved key lanes moved.1) (IsMoved key (lane ∷ lanes) unread)
          (advance_checks key lanes moved.1) (λ rest. ok (moved.0 ∷ rest.0, rest.1))
          (advance_checks-IsMoved key lanes moved.1)
          (λ rest later.
            let size = passed.size in
            let shrinks = later.shrinks in
            let counted = length-append (taken_head key lane.head) (taken key lanes) in
            record {
              shrinks = omega arith;
              devices = λ i. passed.device i ∷ later.devices i;
              served = λ s. (
                IsServed-Grows moved.1 rest.1 moved.0 later.grows (passed.served s.0),
                later.served (
                    All-weaken (IsServed unread) (IsServed moved.1) lanes
                      (λ l. IsServed-Grows unread moved.1 l passed.grows) s.1),
              );
              grows = λ d i. later.grows d (passed.grows d i);
            }))

-- What the first calls of `next` make of the sources.
pub record IsStarted (sources : List RecordSource) (next : List Lane × List DeviceId) : Type 0 where
  pub size : remaining next.0 ≤ stream_size sources
  pub devices : map device_of next.0 ≡ map (λ (s : RecordSource). s.device) sources
  pub served : All (IsServed next.1) next.0

start_checks-Grows :
    (sources : List RecordSource) (unread : List DeviceId)
    → Ensures (λ next. IsStarted sources next × Grows unread next.1) (start_checks sources unread)
unfolding start_checks
start_checks-Grows [] unread =
    (record { size = omega arith; devices = refl; served = tt }, λ d i. i)
start_checks-Grows (source ∷ sources) unread =
    let lane : Lane = record { source = source; head = none } in
    Ensures-bind (IsStep source unread)
      (λ next. IsStarted (source ∷ sources) next × Grows unread next.1) (advance_check lane unread)
      _ (advance_check-IsStep lane unread)
      (λ moved step.
        Ensures-bind (λ next. IsStarted sources next × Grows moved.1 next.1)
          (λ next. IsStarted (source ∷ sources) next × Grows unread next.1)
          (start_checks sources moved.1) (λ rest. ok (moved.0 ∷ rest.0, rest.1))
          (start_checks-Grows sources moved.1)
          (λ rest (started, grown).
            let first = step.size in
            let later = started.size in
            (
              record {
                size = omega arith;
                devices = λ i. step.device i ∷ started.devices i;
                served = (IsServed-Grows moved.1 rest.1 moved.0 grown step.served, started.served);
              },
              λ d i. grown d (step.grows d i),
            )))

pub start_checks-IsStarted :
    (sources : List RecordSource) → Ensures (IsStarted sources) (start_checks sources [])
start_checks-IsStarted sources =
    Ensures-weaken (λ next. IsStarted sources next × Grows [] next.1) (IsStarted sources)
      (start_checks sources []) (λ next p. p.0) (start_checks-Grows sources [])

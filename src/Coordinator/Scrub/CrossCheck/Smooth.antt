-- ===== src/Coordinator/Scrub/CrossCheck/Smooth.antt =====
-- Streams that no failure but an unavailable device interrupts.
use distributed_jbod.Common.{
  ◌≡◌, refl, ◌∙◌, ap, Bool, true, false, not, none, List, [], ◌∷◌, ok, ◌>>=◌, ◌==◌, ltb, All,
  Bool-cases, inl, inr, if◌then◌else◌,
}
use distributed_jbod.Cluster.{DeviceId}
use distributed_jbod.Coordinator.{any}
use distributed_jbod.Coordinator.Streams.{
  StreamItem, yielded, failed, RecordSource, Lane, Key, matches_key,
}
use distributed_jbod.Coordinator.Scrub.CrossCheck.{
  is_device_unavailable, insert_sorted, after_check, advance_check, advance_checks, start_checks,
}

abbrev pub stops : StreamItem → Bool
stops (yielded item) = false
stops (failed failure) = not (is_device_unavailable failure)

abbrev pub IsSmooth : RecordSource → Type 0
IsSmooth source = any stops source.items ≡ false

abbrev pub IsSmoothLane : Lane → Type 0
IsSmoothLane lane = IsSmooth lane.source

after_check-smooth :
    (source : RecordSource) (unread : List DeviceId) (items : List StreamItem)
    → any stops items ≡ false
    → (next : Lane × List DeviceId) × (after_check (record source { items = items }) unread items
        ≡ ok next)
      × IsSmoothLane next.0
after_check-smooth source unread [] smooth = (_, refl, smooth)
after_check-smooth source unread (yielded item ∷ items) smooth = (_, refl, smooth)
after_check-smooth source unread (failed failure ∷ items) smooth =
    elim (Bool-cases (is_device_unavailable failure)) [
      | inl unavailable ↦ (
        (
          record { source = record source { items = items }; head = none },
          insert_sorted ◌==◌ ltb source.device unread,
        ),
        rw unavailable refl,
        (rw unavailable at smooth),
      )
      | inr other ↦ absurd (let wrong : true ≡ false = rw other at smooth in cc)
    ]

advance_check-smooth :
    (lane : Lane) (unread : List DeviceId)
    → IsSmoothLane lane
    → (next : Lane × List DeviceId) × (advance_check lane unread ≡ ok next) × IsSmoothLane next.0
unfolding advance_check
advance_check-smooth lane unread smooth =
    after_check-smooth lane.source unread lane.source.items smooth

pass_smooth :
    (key : Key) (lane : Lane) (unread : List DeviceId)
    → IsSmoothLane lane
    → (next : Lane × List DeviceId) × ((if matches_key key lane.head
          then advance_check lane unread
          else ok (lane, unread))
        ≡ ok next)
      × IsSmoothLane next.0
pass_smooth key lane unread smooth = elim (Bool-cases (matches_key key lane.head)) [
  | inl here ↦
      let (next, runs, still) = advance_check-smooth lane unread smooth in
      (next, rw here runs, still)
  | inr other ↦ ((lane, unread), rw other refl, smooth)
]

pub advance_checks-smooth :
    (key : Key) (lanes : List Lane) (unread : List DeviceId)
    → All IsSmoothLane lanes
    → (next : List Lane × List DeviceId) × (advance_checks key lanes unread ≡ ok next)
      × All IsSmoothLane next.0
unfolding advance_checks
advance_checks-smooth key [] unread smooth = (([], unread), refl, tt)
advance_checks-smooth key (lane ∷ lanes) unread (first, later) =
    let (moved, runs, still) = pass_smooth key lane unread first in
    let (rest, run, smooth) = advance_checks-smooth key lanes moved.1 later in
    (
      (moved.0 ∷ rest.0, rest.1),
      ap (λ m. m >>= λ x. advance_checks key lanes x.1 >>= λ y. ok (x.0 ∷ y.0, y.1)) runs
          ∙ ap (λ m. m >>= λ y. ok (moved.0 ∷ y.0, y.1)) run,
      (still, smooth),
    )

pub start_checks-smooth :
    (sources : List RecordSource) (unread : List DeviceId)
    → All IsSmooth sources
    → (next : List Lane × List DeviceId) × (start_checks sources unread ≡ ok next)
      × All IsSmoothLane next.0
unfolding start_checks
start_checks-smooth [] unread smooth = (([], unread), refl, tt)
start_checks-smooth (source ∷ sources) unread (first, later) =
    let (moved, runs, still) =
      advance_check-smooth (record { source = source; head = none }) unread first in
    let (rest, run, smooth) = start_checks-smooth sources moved.1 later in
    (
      (moved.0 ∷ rest.0, rest.1),
      ap (λ m. m >>= λ x. start_checks sources x.1 >>= λ y. ok (x.0 ∷ y.0, y.1)) runs
          ∙ ap (λ m. m >>= λ y. ok (moved.0 ∷ y.0, y.1)) run,
      (still, smooth),
    )

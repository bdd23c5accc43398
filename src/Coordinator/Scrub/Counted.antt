-- ===== src/Coordinator/Scrub/Counted.antt =====
-- `Exposure` counts what it says: versions by how many of their shards are on unread devices, and shards
-- by device.
use mathlib.Core.Path.{subst}
use distributed_jbod.Common.{
  ℕ, ◌+◌, ◌≡◌, refl, ◌∙◌, ap, Bool, false, not, ◌&&◌, List, [], ◌∷◌, length, ltb, ◌==◌, ==_iff,
  arith, Bool-cases, inl, inr,
}
use distributed_jbod.Common.Seen.{member}
use distributed_jbod.Common.Find.{filter}
use distributed_jbod.Cluster.{DeviceId}
use distributed_jbod.Record.{ShardLocation, MetadataRecord}
use distributed_jbod.Coordinator.Scrub.{
  bump, count_at, Exposure, no_exposure, count_out, expose, note_exposure, note_exposures,
}
use distributed_jbod.Coordinator.Scrub.Counts.{one_if, bump-count_at}

-- The shards that are out, and those of them on a device.
abbrev pub out_of : List DeviceId → List ShardLocation → ℕ
out_of unread shards = length (filter (λ (s : ShardLocation). member ◌==◌ unread s.device) shards)

abbrev pub out_on : DeviceId → List DeviceId → List ShardLocation → ℕ
out_on d unread shards =
    length (filter (λ (s : ShardLocation). member ◌==◌ unread s.device && s.device == d) shards)

count_out_lem :
    (d : DeviceId) (unread : List DeviceId) (shards : List ShardLocation) (out : ℕ)
    (by_device : List (DeviceId × ℕ))
    → ((count_out unread shards (out, by_device)).0 ≡ out + out_of unread shards)
      × (count_at ◌==◌ d (count_out unread shards (out, by_device)).1
          ≡ count_at ◌==◌ d by_device + out_on d unread shards)
unfolding count_out
count_out_lem d unread [] out by_device = (omega arith, omega arith)
count_out_lem d unread (shard ∷ shards) out by_device =
    elim (Bool-cases (member ◌==◌ unread shard.device)) [
      | inl is_out ↦
          let (counted, at_d) =
            count_out_lem d unread shards (out + 1) (bump ◌==◌ shard.device by_device) in
          let more = bump-count_at ◌==◌ ==_iff shard.device d by_device in
          elim (Bool-cases (shard.device == d)) [
            | inl own ↦
                let one : one_if (shard.device == d) ≡ 1 = ap one_if own in
                rw (is_out, own) (omega arith, omega arith)
            | inr other ↦
                let one : one_if (shard.device == d) ≡ 0 = ap one_if other in
                rw (is_out, other) (omega arith, omega arith)
          ]
      | inr is_in ↦
          let (counted, at_d) = count_out_lem d unread shards out by_device in
          rw is_in (counted, at_d)
    ]

-- A version, and the devices that are unread when it is noted.
abbrev pub Noted : Type 0
Noted = MetadataRecord × List DeviceId

abbrev pub is_exposed : Noted → Bool
is_exposed v = not (out_of v.1 v.0.shards == 0)

abbrev pub is_at_limit : Noted → Bool
is_at_limit v = is_exposed v && out_of v.1 v.0.shards == v.0.m

abbrev pub is_beyond : Noted → Bool
is_beyond v = ltb v.0.m (out_of v.1 v.0.shards)

-- How many versions pass the test, and how many shards of the device are out in them.
abbrev pub versions_with : (Noted → Bool) → List Noted → ℕ
versions_with test noted = length (filter test noted)

abbrev pub shards_on : DeviceId → List Noted → ℕ
shards_on d [] = 0
shards_on d (v ∷ noted) = out_on d v.1 v.0.shards + shards_on d noted

-- One version adds one to the counts whose tests it passes.
record IsExposedBy (out m : ℕ) (e next : Exposure) : Type 0 where
  exposed : next.with_shards_out ≡ e.with_shards_out + one_if (not (out == 0))
  limit : next.at_the_limit ≡ e.at_the_limit + one_if (not (out == 0) && out == m)
  beyond : next.beyond_the_limit ≡ e.beyond_the_limit + one_if (ltb m out)

expose-IsExposedBy :
    (out m : ℕ) (by_device : List (DeviceId × ℕ)) (e : Exposure)
    → IsExposedBy out m e (expose out m by_device e)
expose-IsExposedBy out m by_device e = elim (Bool-cases (out == 0)) [
  | inl nothing ↦
      let a : one_if (not (out == 0)) ≡ 0 = rw nothing refl in
      let b : one_if (not (out == 0) && out == m) ≡ 0 = rw nothing refl in
      let within : ltb m out ≡ false = ground arith in
      let c : one_if (ltb m out) ≡ 0 = rw within refl in
      rw nothing (record { exposed = omega arith; limit = omega arith; beyond = omega arith })
  | inr something ↦
      let a : one_if (not (out == 0)) ≡ 1 = rw something refl in
      elim (Bool-cases (out == m)) [
        | inl limit ↦
            let b : one_if (not (out == 0) && out == m) ≡ 1 = rw (something, limit) refl in
            let within : ltb m out ≡ false = ground arith in
            let c : one_if (ltb m out) ≡ 0 = rw within refl in
            rw (something, limit)
              (record { exposed = omega arith; limit = omega arith; beyond = omega arith })
        | inr apart ↦
            let b : one_if (not (out == 0) && out == m) ≡ 0 = rw (something, apart) refl in
            elim (Bool-cases (ltb m out)) [
              | inl past ↦
                  let c : one_if (ltb m out) ≡ 1 = rw past refl in
                  rw (something, apart, past)
                    (record { exposed = omega arith; limit = omega arith; beyond = omega arith })
              | inr within ↦
                  let c : one_if (ltb m out) ≡ 0 = rw within refl in
                  rw (something, apart, within)
                    (record { exposed = omega arith; limit = omega arith; beyond = omega arith })
            ]
      ]
]

expose-by_device :
    (out m : ℕ) (by_device : List (DeviceId × ℕ)) (e : Exposure)
    → (expose out m by_device e).by_device ≡ by_device
expose-by_device out m by_device e = elim (Bool-cases (out == 0)) [
  | inl nothing ↦ rw nothing refl
  | inr something ↦ rw something refl
]

note_exposure-IsExposedBy :
    (r : MetadataRecord) (unread : List DeviceId) (e : Exposure)
    → IsExposedBy (out_of unread r.shards) r.m e (note_exposure r unread e)
unfolding note_exposure
note_exposure-IsExposedBy r unread e =
    let after = count_out unread r.shards (0, e.by_device) in
    let counted : after.0 ≡ out_of unread r.shards =
      let (sum, at_d) = count_out_lem 0 unread r.shards 0 e.by_device in omega arith in
    subst (λ (out : ℕ). IsExposedBy out r.m e (note_exposure r unread e)) counted
      (expose-IsExposedBy after.0 r.m after.1 e)

note_exposure-by_device :
    (d : DeviceId) (r : MetadataRecord) (unread : List DeviceId) (e : Exposure)
    → count_at ◌==◌ d (note_exposure r unread e).by_device
      ≡ count_at ◌==◌ d e.by_device + out_on d unread r.shards
unfolding note_exposure
note_exposure-by_device d r unread e =
    let after = count_out unread r.shards (0, e.by_device) in
    ap (count_at ◌==◌ d) (expose-by_device after.0 r.m after.1 e)
    ∙ (count_out_lem d unread r.shards 0 e.by_device).1

versions_with-cons :
    (test : Noted → Bool) (v : Noted) (noted : List Noted)
    → versions_with test (v ∷ noted) ≡ one_if (test v) + versions_with test noted
versions_with-cons test v noted = elim (Bool-cases (test v)) [
  | inl passed ↦ rw passed (omega arith)
  | inr failed ↦ rw failed (omega arith)
]

note_exposures-from :
    (d : DeviceId) (noted : List Noted) (e : Exposure)
    → ((note_exposures noted e).with_shards_out
        ≡ e.with_shards_out + versions_with is_exposed noted)
      × ((note_exposures noted e).at_the_limit ≡ e.at_the_limit + versions_with is_at_limit noted)
      × ((note_exposures noted e).beyond_the_limit
          ≡ e.beyond_the_limit + versions_with is_beyond noted)
      × (count_at ◌==◌ d (note_exposures noted e).by_device
          ≡ count_at ◌==◌ d e.by_device + shards_on d noted)
unfolding note_exposures
note_exposures-from d [] e = (omega arith, omega arith, omega arith, omega arith)
note_exposures-from d ((r, unread) ∷ noted) e =
    let next = note_exposure r unread e in
    let step = note_exposure-IsExposedBy r unread e in
    let first = step.exposed in
    let second = step.limit in
    let third = step.beyond in
    let fourth = note_exposure-by_device d r unread e in
    let count_1 = versions_with-cons is_exposed (r, unread) noted in
    let count_2 = versions_with-cons is_at_limit (r, unread) noted in
    let count_3 = versions_with-cons is_beyond (r, unread) noted in
    let (rest_1, rest_2, rest_3, rest_4) = note_exposures-from d noted next in
    (omega arith, omega arith, omega arith, omega arith)

-- Of any sequence of versions that a scrub notes, each with the devices unread by then, the exposure
-- counts those with a shard on an unread device, those with exactly m shards out where m is not 0, and
-- those with more than m out; and for every device the shards that were out on it.
pub note_exposures_lem :
    (d : DeviceId) (noted : List Noted)
    → ((note_exposures noted no_exposure).with_shards_out ≡ versions_with is_exposed noted)
      × ((note_exposures noted no_exposure).at_the_limit ≡ versions_with is_at_limit noted)
      × ((note_exposures noted no_exposure).beyond_the_limit ≡ versions_with is_beyond noted)
      × (count_at ◌==◌ d (note_exposures noted no_exposure).by_device ≡ shards_on d noted)
unfolding count_at
note_exposures_lem d noted =
    let (first, second, third, fourth) = note_exposures-from d noted no_exposure in
    (omega arith, omega arith, omega arith, omega arith)

-- ===== src/Coordinator/Scrub.antt =====
-- `CrossCheckOutcome` and `Exposure` of coordinator.rs: what a scrub across the nodes counts about the
-- versions that it checks. The counts are unbounded. A BTreeMap is the list of its entries in the order
-- in which they came, since nothing that is modelled here depends on their order.
pub mod Counts
pub mod Counted
pub mod CrossCheck
pub mod Buckets
pub mod Moved
mod Runs
use distributed_jbod.Common.{
  ℕ, zero, suc, ◌+◌, ◌>>=◌, Bool, true, false, not, Option, none, some, List, [], ◌∷◌, map, Outcome,
  ok, err, panic, ltb, ◌==◌, if◌then◌else◌, is_empty, ◌&&◌, bytes_eq,
}
use distributed_jbod.Common.Seen.{member}
use distributed_jbod.Common.Find.{filter}
use distributed_jbod.Cluster.{DeviceId}
use distributed_jbod.Record.{Bytes, ShardLocation, MetadataRecord}
use distributed_jbod.Coordinator.{Answer}
use distributed_jbod.Coordinator.Groups.{ShardCount}

module _ {K : Type 0} (same : K → K → Bool) where
  -- `*map.entry(k).or_default() += 1`.
  unfoldable pub bump : K → List (K × ℕ) → List (K × ℕ)
  bump k [] = (k, 1) ∷ []
  bump k ((j, n) ∷ counts) = if same j k then (j, n + 1) ∷ counts else (j, n) ∷ bump k counts

  -- `map.get(k).copied().unwrap_or(0)`.
  unfoldable pub count_at : K → List (K × ℕ) → ℕ
  count_at k [] = 0
  count_at k ((j, n) ∷ counts) = if same j k then n else count_at k counts

pub record Exposure : Type 0 where
  pub by_device : List (DeviceId × ℕ)
  pub with_shards_out : ℕ
  pub at_the_limit : ℕ
  pub beyond_the_limit : ℕ

abbrev pub no_exposure : Exposure
no_exposure = record { by_device = []; with_shards_out = 0; at_the_limit = 0; beyond_the_limit = 0 }

-- The loop over the shards: the number out, and the counts by device.
unfoldable pub count_out :
    List DeviceId → List ShardLocation → ℕ × List (DeviceId × ℕ) → ℕ × List (DeviceId × ℕ)
count_out unread [] counted = counted
count_out unread (shard ∷ shards) (out, by_device) =
    if member ◌==◌ unread shard.device
    then count_out unread shards (out + 1, bump ◌==◌ shard.device by_device)
    else count_out unread shards (out, by_device)

-- What a version with this many shards out adds.
abbrev pub expose : (out m : ℕ) → List (DeviceId × ℕ) → Exposure → Exposure
expose out m by_device e = if out == 0 then record e { by_device = by_device } else record {
  by_device = by_device;
  with_shards_out = e.with_shards_out + 1;
  at_the_limit = if out == m then e.at_the_limit + 1 else e.at_the_limit;
  beyond_the_limit =
      if out == m
      then e.beyond_the_limit
      else if ltb m out
      then e.beyond_the_limit + 1
      else e.beyond_the_limit;
}

unfoldable pub note_exposure : MetadataRecord → List DeviceId → Exposure → Exposure
note_exposure r unread e =
    let (out, by_device) = count_out unread r.shards (0, e.by_device) in expose out r.m by_device e

pub record ExposureEvent : Type 0 where
  pub unread : List (DeviceId × ℕ)
  pub versions_checked : ℕ
  pub versions_with_shards_out : ℕ
  pub versions_at_the_limit : ℕ
  pub versions_unreadable : ℕ

unfoldable pub exposure_event : List DeviceId → ℕ → Exposure → Option ExposureEvent
exposure_event unread versions_checked e =
    if is_empty unread
    then none
    else some (record {
      unread = map (λ d. (d, count_at ◌==◌ d e.by_device)) unread;
      versions_checked = versions_checked;
      versions_with_shards_out = e.with_shards_out;
      versions_at_the_limit = e.at_the_limit;
      versions_unreadable = e.beyond_the_limit;
    })

-- Shards in total and available, and k.
abbrev pub Bucket : Type 0
Bucket = ℕ × ℕ × ℕ

abbrev pub bucket_eq : Bucket → Bucket → Bool
bucket_eq (t, a, k) (u, b, l) = t == u && (a == b && k == l)

-- The part of the outcome that counts versions by their shards.
pub record Tally : Type 0 where
  pub availability : List (Bucket × ℕ)
  pub damaged : List (Bytes × Bucket)

abbrev pub no_tally : Tally
no_tally = record { availability = []; damaged = [] }

-- `remove(key)` and `get(key)`.
unfoldable pub without_key : Bytes → List (Bytes × Bucket) → List (Bytes × Bucket)
without_key key damaged = filter (λ (e : Bytes × Bucket). not (bytes_eq e.0 key)) damaged

unfoldable pub bucket_of : Bytes → List (Bytes × Bucket) → Option Bucket
bucket_of key [] = none
bucket_of key ((other, b) ∷ damaged) = if bytes_eq other key then some b else bucket_of key damaged

-- A version that the merge has checked and whose copies can be trusted.
unfoldable pub tally_version : Bytes → ShardCount → Tally → Tally
tally_version key c t =
    let bucket : Bucket = (c.total, c.available, c.k) in
    record {
      availability = bump bucket_eq bucket t.availability;
      damaged =
          if ltb c.available c.total then (key, bucket) ∷ without_key key t.damaged else t.damaged;
    }

-- `*count -= 1`, which panics at 0 where overflows are checked, and the removal at 0.
abbrev pub lowered : Bucket → ℕ → List (Bucket × ℕ) → Answer (List (Bucket × ℕ))
lowered b zero counts = panic
lowered b (suc zero) counts = ok counts
lowered b (suc (suc n)) counts = ok ((b, suc n) ∷ counts)

-- What becomes of `get_mut(&bucket)`; nothing without an entry.
unfoldable pub lower : Bucket → List (Bucket × ℕ) → Answer (List (Bucket × ℕ))
lower b [] = ok []
lower b ((c, n) ∷ counts) =
    let later = lower b counts in
    if bucket_eq c b then lowered c n counts else later >>= λ rest. ok ((c, n) ∷ rest)

unfoldable pub repaired_bucket : Bytes → Option Bucket → Tally → Answer Tally
repaired_bucket key none t = ok t
repaired_bucket key (some b) t = do
  counts ← lower b t.availability
  ok (record {
    availability = bump bucket_eq (b.0, b.0, b.2) counts;
    damaged = without_key key t.damaged;
  })

-- `note_repaired`.
unfoldable pub note_repaired : Bytes → Tally → Answer Tally
note_repaired key t = repaired_bucket key (bucket_of key t.damaged) t

-- What happens to the outcome during a scrub: a version is checked, or the repair of a key succeeds.
pub data TallyStep : Type 0 where
  checked : Bytes → ShardCount → TallyStep
  repaired : Bytes → TallyStep

abbrev pub tally_step : TallyStep → Tally → Answer Tally
tally_step (checked key c) t = ok (tally_version key c t)
tally_step (repaired key) t = note_repaired key t

unfoldable pub tally_steps : List TallyStep → Tally → Answer Tally
tally_steps [] t = ok t
tally_steps (step ∷ steps) t = tally_step step t >>= tally_steps steps

-- The versions that a scrub notes, each with the devices that are unread by then.
unfoldable pub note_exposures : List (MetadataRecord × List DeviceId) → Exposure → Exposure
note_exposures [] e = e
note_exposures ((r, unread) ∷ noted) e = note_exposures noted (note_exposure r unread e)

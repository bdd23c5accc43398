-- ===== src/Coordinator/Scrub/Runs.antt =====
-- Concrete counts of a scrub: a version with a shard out is counted, and its key is repaired.
use distributed_jbod.Common.{◌≡◌, refl, none, List, [], ◌∷◌, ok, replicate, ◌==◌, bytes_eq}
use distributed_jbod.Record.{MetadataRecord}
use distributed_jbod.Coordinator.Scrub.{
  bump, count_at, Tally, no_tally, without_key, bucket_of, tally_version, lower, repaired_bucket,
  note_repaired, TallyStep, checked, repaired, tally_steps, no_exposure, note_exposures,
}
use distributed_jbod.Coordinator.Scrub.Buckets.{total}
use distributed_jbod.Coordinator.Scrub.Moved.{versions_of_steps, tally_steps_lem}
use distributed_jbod.Coordinator.Scrub.Counted.{
  Noted, is_exposed, is_at_limit, is_beyond, versions_with, shards_on, note_exposures_lem,
}

abbrev steps : List TallyStep
steps =
    checked (b'a' ∷ []) (record { total = 3; available = 3; k = 2 })
    ∷ checked (b'b' ∷ []) (record { total = 3; available = 2; k = 2 })
    ∷ repaired (b'b' ∷ [])
    ∷ []

repaired_to_whole :
    tally_steps steps no_tally ≡ ok (record { availability = ((3, 3, 2), 2) ∷ []; damaged = [] })
unfolding tally_steps tally_version note_repaired repaired_bucket lower bump bucket_of without_key
    bytes_eq
repaired_to_whole = refl

tally_steps_lem_example :
    (last : Tally) × (tally_steps steps no_tally ≡ ok last)
    × (total last.availability ≡ versions_of_steps steps)
tally_steps_lem_example = tally_steps_lem steps

-- A version with two data shards on devices 5 and 6 and a parity shard on device 7.
abbrev spread : MetadataRecord
spread = record {
  format_version = 1;
  system = [];
  bucket = [];
  key = b'k' ∷ [];
  key_hash = replicate 32 7;
  version = replicate 16 1;
  created = 0;
  size = 10;
  object_checksum = 9;
  k = 2;
  m = 1;
  block_size = 4096;
  shards =
      record { index = 0; device = 5 }
      ∷ record { index = 1; device = 6 }
      ∷ record { index = 2; device = 7 }
      ∷ [];
  revision = 0;
  content_type = none;
  user_metadata = [];
}

-- Read, then with one device unread, then with two.
abbrev noted : List Noted
noted = (spread, []) ∷ (spread, 6 ∷ []) ∷ (spread, 6 ∷ 7 ∷ []) ∷ []

note_exposures_lem_example :
    ((note_exposures noted no_exposure).with_shards_out ≡ versions_with is_exposed noted)
    × ((note_exposures noted no_exposure).at_the_limit ≡ versions_with is_at_limit noted)
    × ((note_exposures noted no_exposure).beyond_the_limit ≡ versions_with is_beyond noted)
    × (count_at ◌==◌ 6 (note_exposures noted no_exposure).by_device ≡ shards_on 6 noted)
note_exposures_lem_example = note_exposures_lem 6 noted

-- ===== src/Record/Equality.antt =====
-- The derived equality of records.
use distributed_jbod.Common.{
  ◌≡◌, ◌↔◌, refl, Bool, true, false, ◌&&◌, Option, none, some, List, [], ◌∷◌, ◌==◌, bytes_eq,
  bytes_eq_iff, arith, ap,
}
use distributed_jbod.Record.{Bytes, ShardLocation, MetadataRecord}

abbrev pub locations_eq : List ShardLocation → List ShardLocation → Bool
locations_eq [] [] = true
locations_eq [] (t ∷ ts) = false
locations_eq (s ∷ ss) [] = false
locations_eq (s ∷ ss) (t ∷ ts) = s.index == t.index && s.device == t.device && locations_eq ss ts

abbrev pub option_eq : Option Bytes → Option Bytes → Bool
option_eq none none = true
option_eq none (some b) = false
option_eq (some a) none = false
option_eq (some a) (some b) = bytes_eq a b

abbrev pub entries_eq : List (Bytes × Bytes) → List (Bytes × Bytes) → Bool
entries_eq [] [] = true
entries_eq [] (e ∷ es) = false
entries_eq (e ∷ es) [] = false
entries_eq ((j, v) ∷ es) ((k, w) ∷ fs) = bytes_eq j k && bytes_eq v w && entries_eq es fs

abbrev placement_eq : MetadataRecord → MetadataRecord → Bool
placement_eq a b =
    a.k == b.k
    && a.m == b.m
    && a.block_size == b.block_size
    && locations_eq a.shards b.shards
    && a.revision == b.revision
    && option_eq a.content_type b.content_type
    && entries_eq a.user_metadata b.user_metadata

abbrev body_eq : MetadataRecord → MetadataRecord → Bool
body_eq a b =
    a.format_version == b.format_version
    && bytes_eq a.system b.system
    && bytes_eq a.bucket b.bucket
    && bytes_eq a.key b.key
    && bytes_eq a.key_hash b.key_hash
    && bytes_eq a.version b.version
    && a.created == b.created
    && a.size == b.size
    && a.object_checksum == b.object_checksum

-- `a == b`: every field is compared.
unfoldable pub record_eq : MetadataRecord → MetadataRecord → Bool
record_eq a b = body_eq a b && placement_eq a b

pub locations_eq-eq : (ss ts : List ShardLocation) → locations_eq ss ts ≡ true → ss ≡ ts
locations_eq-eq [] [] h = refl
locations_eq-eq [] (t ∷ ts) h = absurd (cc)
locations_eq-eq (s ∷ ss) [] h = absurd (cc)
locations_eq-eq (s ∷ ss) (t ∷ ts) h = ground (arith, locations_eq-eq ss ts)

locations_eq_refl : (ss : List ShardLocation) → locations_eq ss ss ≡ true
locations_eq_refl [] = refl
locations_eq_refl (s ∷ ss) = ground (arith, locations_eq_refl ss)

option_eq-eq : (a b : Option Bytes) → option_eq a b ≡ true → a ≡ b
option_eq-eq none none h = refl
option_eq-eq none (some b) h = absurd (cc)
option_eq-eq (some a) none h = absurd (cc)
option_eq-eq (some a) (some b) h = ap some ((bytes_eq_iff a b).0 h)

option_eq_refl : (a : Option Bytes) → option_eq a a ≡ true
option_eq_refl none = refl
option_eq_refl (some a) = (bytes_eq_iff a a).1 refl

entries_eq-eq : (es fs : List (Bytes × Bytes)) → entries_eq es fs ≡ true → es ≡ fs
entries_eq-eq [] [] h = refl
entries_eq-eq [] (f ∷ fs) h = absurd (cc)
entries_eq-eq (e ∷ es) [] h = absurd (cc)
entries_eq-eq ((j, v) ∷ es) ((k, w) ∷ fs) h =
    ground (arith, (bytes_eq_iff j k).0, (bytes_eq_iff v w).0, entries_eq-eq es fs)

entries_eq_refl : (es : List (Bytes × Bytes)) → entries_eq es es ≡ true
entries_eq_refl [] = refl
entries_eq_refl ((j, v) ∷ es) =
    ground (arith, (bytes_eq_iff j j).1 refl, (bytes_eq_iff v v).1 refl, entries_eq_refl es)

pub record_eq_iff : (a b : MetadataRecord) → (record_eq a b ≡ true) ↔ (a ≡ b)
unfolding record_eq
record_eq_iff a b = (sound, complete)
  where
    sound : record_eq a b ≡ true → a ≡ b
    sound h = ground (
      arith,
      (bytes_eq_iff a.system b.system).0,
      (bytes_eq_iff a.bucket b.bucket).0,
      (bytes_eq_iff a.key b.key).0,
      (bytes_eq_iff a.key_hash b.key_hash).0,
      (bytes_eq_iff a.version b.version).0,
      locations_eq-eq a.shards b.shards,
      option_eq-eq a.content_type b.content_type,
      entries_eq-eq a.user_metadata b.user_metadata,
    )

    complete : a ≡ b → record_eq a b ≡ true
    complete e = rw (← e) (
        ground (
          arith,
          (bytes_eq_iff a.system a.system).1 refl,
          (bytes_eq_iff a.bucket a.bucket).1 refl,
          (bytes_eq_iff a.key a.key).1 refl,
          (bytes_eq_iff a.key_hash a.key_hash).1 refl,
          (bytes_eq_iff a.version a.version).1 refl,
          locations_eq_refl a.shards,
          option_eq_refl a.content_type,
          entries_eq_refl a.user_metadata,
        ))

-- ===== src/Coordinator/Runs.antt =====
-- Concrete record copies, and the theorems about the coordinator's conclusions at them.
use distributed_jbod.Common.{
  ℕ, ◌≡◌, ◌≤◌, ◌↔◌, refl, true, false, none, some, List, [], ◌∷◌, ok, length, replicate, All, inl,
  inr, arith, bytes_eq,
}
use distributed_jbod.Common.Seen.{IsIn}
use distributed_jbod.Record.{MetadataRecord, index_on}
use distributed_jbod.Record.Equality.{record_eq}
use distributed_jbod.Coordinator.{LocatedRecord, max_of, latest_of}
use distributed_jbod.Coordinator.Copies.{
  bytes_ltb, push_copy, group_copies, check_named, check_current, check_all, missing_copy,
  missing_copies, vouching_copies, trust_version, trust_entries, trusted_versions, accept_version,
  accept_versions, versions_of_excluding, is_stale, stale_copies,
}
use distributed_jbod.Coordinator.Copies.Trust.{IsTrusted}
use distributed_jbod.Coordinator.Copies.Absent.{IsComplete}
use distributed_jbod.Coordinator.Copies.Answers.{IsAnswer}
use distributed_jbod.Coordinator.Copies.Exact.{versions_of_excluding_lem}
use distributed_jbod.Coordinator.Copies.Orders.{AreSame, versions_of_excluding_any_order}
use distributed_jbod.Coordinator.Groups.{
  ShardCount, degraded_parity, unreadable, object_state, lost_devices, is_out, shards_out,
  classify_versions, classify_group, lost_of_group, count_shards, stale_findings, shard_findings,
  check_versions, check_group,
}
use distributed_jbod.Coordinator.Groups.Classify.{IsAtHand, shards_in, classify_group_readable}
use distributed_jbod.Coordinator.Groups.Empty.{classify_group_no_files, check_group_no_files}
use distributed_jbod.Coordinator.Groups.Check.{IsClean, check_group-IsClean}

-- An object of size 0 with one data shard on device 5 and one parity shard on device 6.
abbrev nothing : MetadataRecord
nothing = record {
  format_version = 1;
  system = [];
  bucket = [];
  key = b'k' ∷ [];
  key_hash = replicate 32 7;
  version = replicate 16 1;
  created = 0;
  size = 0;
  object_checksum = 9;
  k = 1;
  m = 1;
  block_size = 4096;
  shards = record { index = 0; device = 5 } ∷ record { index = 1; device = 6 } ∷ [];
  revision = 2;
  content_type = none;
  user_metadata = [];
}

-- The revision before, and a younger version.
abbrev before : MetadataRecord
before = record nothing { revision = 1 }

abbrev younger : MetadataRecord
younger = record nothing { version = replicate 16 2; size = 10 }

abbrev on : ℕ → MetadataRecord → LocatedRecord
on d r = record { device = d; found = r }

-- Device 5 has both versions, device 6 has the younger one and an old revision of the other.
abbrev mixed : List LocatedRecord
mixed = on 5 nothing ∷ on 6 before ∷ on 5 younger ∷ on 6 younger ∷ []

versions_mixed : versions_of_excluding (b'k' ∷ []) mixed (6 ∷ []) ≡ ok (younger ∷ nothing ∷ [])
unfolding versions_of_excluding trusted_versions group_copies push_copy trust_entries trust_version
    check_all check_named check_current max_of record_eq index_on missing_copies missing_copy
    vouching_copies accept_versions accept_version bytes_eq bytes_ltb
versions_mixed = refl

versions_of_excluding_lem_example :
    (versions_of_excluding (b'k' ∷ []) mixed (6 ∷ []) ≡ ok (younger ∷ nothing ∷ []))
    ↔ IsAnswer (b'k' ∷ []) (6 ∷ []) mixed (younger ∷ nothing ∷ [])
versions_of_excluding_lem_example =
    versions_of_excluding_lem (b'k' ∷ []) (6 ∷ []) mixed (younger ∷ nothing ∷ [])

-- The same copies, one of them twice.
abbrev shuffled : List LocatedRecord
shuffled = on 6 younger ∷ on 5 nothing ∷ on 5 younger ∷ on 6 before ∷ on 5 nothing ∷ []

AreSame-shuffled : AreSame mixed shuffled
AreSame-shuffled c = (into, back)
  where
    into : IsIn c mixed → IsIn c shuffled
    into (inl e) = inr (inl e)
    into (inr (inl e)) = inr (inr (inr (inl e)))
    into (inr (inr (inl e))) = inr (inr (inl e))
    into (inr (inr (inr (inl e)))) = inl e
    into (inr (inr (inr (inr i)))) = absurd i

    back : IsIn c shuffled → IsIn c mixed
    back (inl e) = inr (inr (inr (inl e)))
    back (inr (inl e)) = inl e
    back (inr (inr (inl e))) = inr (inr (inl e))
    back (inr (inr (inr (inl e)))) = inr (inl e)
    back (inr (inr (inr (inr (inl e))))) = inl e
    back (inr (inr (inr (inr (inr i))))) = absurd i

versions_of_excluding_any_order_example :
    (versions_of_excluding (b'k' ∷ []) mixed (6 ∷ []) ≡ ok (younger ∷ nothing ∷ []))
    ↔ (versions_of_excluding (b'k' ∷ []) shuffled (6 ∷ []) ≡ ok (younger ∷ nothing ∷ []))
versions_of_excluding_any_order_example =
    versions_of_excluding_any_order (b'k' ∷ []) (6 ∷ []) mixed shuffled (younger ∷ nothing ∷ [])
      AreSame-shuffled

-- Device 6 is unread, and device 5 has the file.
judged :
    classify_group (on 5 younger ∷ []) ((5, true) ∷ []) (6 ∷ []) (5 ∷ [])
    ≡ ok (degraded_parity, younger, 1)
unfolding classify_group classify_versions latest_of object_state lost_devices is_out shards_out
    versions_of_excluding trusted_versions group_copies push_copy trust_entries trust_version
    check_all check_named check_current max_of record_eq index_on missing_copies missing_copy
    vouching_copies accept_versions accept_version bytes_eq
judged = refl

classify_group_readable_example :
    (1 ≤ length (shards_in younger (6 ∷ []) (5 ∷ []) ((5, true) ∷ [])))
    × All
        (λ s. IsIn s younger.shards × IsAtHand (on 5 younger ∷ []) ((5, true) ∷ []) younger s)
        (shards_in younger (6 ∷ []) (5 ∷ []) ((5, true) ∷ []))
classify_group_readable_example =
    classify_group_readable (on 5 younger) [] ((5, true) ∷ []) (6 ∷ []) (5 ∷ []) degraded_parity
      younger 1 tt judged (cc) (cc) refl

both : IsTrusted (b'k' ∷ []) (on 5 nothing ∷ on 6 nothing ∷ []) nothing
both = record {
  named = (refl, (refl, tt));
  agreed = (inr (refl, inl refl), (inr (refl, inr (inl refl)), tt));
  held = (on 5 nothing, inl refl, refl);
}

sent : IsComplete [] (on 5 nothing ∷ on 6 nothing ∷ []) nothing
sent =
    (inl (on 5 nothing, inl refl, refl, refl), (inl (on 6 nothing, inr (inl refl), refl, refl), tt))

classify_group_no_files_example :
    classify_group (on 5 nothing ∷ on 6 nothing ∷ []) ((5, false) ∷ (6, false) ∷ []) [] (5 ∷ 6 ∷ [])
    ≡ ok (unreadable, nothing, 2)
classify_group_no_files_example =
    classify_group_no_files (on 5 nothing) (on 6 nothing ∷ []) ((5, false) ∷ (6, false) ∷ [])
      (5 ∷ 6 ∷ []) nothing (refl, tt) both sent (refl, (refl, tt)) refl (omega arith)

check_group_no_files_example :
    check_group (on 5 nothing ∷ on 6 nothing ∷ []) ((5, false) ∷ (6, false) ∷ []) [] (5 ∷ 6 ∷ []) []
    ≡ ok ([], some (record { total = 2; available = 0; k = 1 }))
check_group_no_files_example =
    check_group_no_files (on 5 nothing) (on 6 nothing ∷ []) ((5, false) ∷ (6, false) ∷ [])
      (5 ∷ 6 ∷ []) nothing (refl, tt) both (refl, (refl, tt)) sent (refl, (refl, tt)) refl
      (omega arith) refl

-- Device 6 is unread: the scrub finds nothing, and counts one shard.
quiet :
    check_group (on 5 younger ∷ []) ((5, true) ∷ []) (6 ∷ []) (5 ∷ []) []
    ≡ ok ([], some (record { total = 2; available = 1; k = 1 }))
unfolding stale_copies is_stale check_group check_versions lost_of_group count_shards stale_findings
    shard_findings versions_of_excluding trusted_versions group_copies push_copy trust_entries
    trust_version check_all check_named check_current max_of record_eq index_on missing_copies
    missing_copy vouching_copies accept_versions accept_version bytes_eq
quiet = refl

check_group-IsClean_example :
    (r : MetadataRecord) × IsClean (on 5 younger ∷ []) ((5, true) ∷ []) (6 ∷ []) r
    × (◌≡◌ {A = ShardCount}
        (record { total = 2; available = 1; k = 1 })
        (count_shards r
          (lost_of_group (on 5 younger ∷ []) (6 ∷ []) (5 ∷ []))
          (6 ∷ [])
          ((5, true) ∷ [])
          []))
check_group-IsClean_example =
    check_group-IsClean (on 5 younger) [] ((5, true) ∷ []) (6 ∷ []) (5 ∷ []) []
      (record { total = 2; available = 1; k = 1 }) tt quiet

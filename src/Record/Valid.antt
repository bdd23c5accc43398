-- ===== src/Record/Valid.antt =====
-- `MetadataRecord::validate` against a description of the records that it should accept.
use distributed_jbod.Common.{
  ℕ, zero, suc, ◌+◌, ◌%◌, ◌^◌, ◌≤◌, ◌<◌, ◌≡◌, refl, Bool, true, false, not, ◌||◌, Option, none,
  some, List, [], ◌∷◌, ok, ◌>>=◌, ◌>>◌, fail_if, map_err, fail_if-eq-ok, >>=-eq-ok, map_err-eq-ok,
  length, get_or, replicate, ◌==◌, ◌!=◌, ==_of_eq, ==_of_pos, bytes_eq, bytes_eq→eq, bytes_eq_refl,
  is_multiple_of, All, arith, Bool-cases, inl, inr, ◌↔◌, not-false, le→ltb, ltb→le, ||_split,
}
use distributed_jbod.Common.Seen.{
  for_each, IsIn, IsUnique, IsFresh-IsUnique, IsUnique-IsFresh, NotIn-nil, NotIn-IsIn,
}
use distributed_jbod.Erasure.{Scheme, new_scheme, total_shards}
use distributed_jbod.Erasure.Bounds.{IsAllowed, new_scheme_ok, new_scheme-IsAllowed}
use distributed_jbod.ShardFile.{KeyHash}
use distributed_jbod.Record.{
  Bytes, record_format_version, system_name, max_content_type_bytes, ShardLocation, MetadataRecord,
  invalid_scheme, missing_shard_index, wrong_shard_count, wrong_system, content_type_too_long,
  unsupported_format_version, key_hash_mismatch, bad_block_size, Checked, too_long, length_of, Seen,
  note_shard, check_all_seen, check_shards, validate,
}
use distributed_jbod.Record.Shards.{
  indices_of, devices_of, Marks-none, IsInside, for_each-Noted, for_each_noted,
}

-- The shards of a record: one for each index of the scheme, on different devices.
pub record HasShards (n : ℕ) (shards : List ShardLocation) : Type 0 where
  pub count : length shards ≡ n
  pub inside : All (IsInside n) shards
  pub unique_indices : IsUnique (indices_of shards)
  pub unique_devices : IsUnique (devices_of shards)
  pub complete : (i : ℕ) → i < n → IsIn i (indices_of shards)

check_all_seen-ok :
    (index : ℕ) (seen : List Bool)
    → check_all_seen index seen ≡ ok tt
    → (j : ℕ) → j < length seen
    → get_or seen j false ≡ true
unfolding check_all_seen
check_all_seen-ok index [] e j lt = absurd (omega arith)
check_all_seen-ok index (s ∷ rest) e zero lt =
    let (seen, e1) =
      fail_if-eq-ok (not s) (missing_shard_index (index % 2 ^ 8)) (check_all_seen (index + 1) rest)
        e in
    not-false s seen
check_all_seen-ok index (s ∷ rest) e (suc j) lt =
    let (seen, e1) =
      fail_if-eq-ok (not s) (missing_shard_index (index % 2 ^ 8)) (check_all_seen (index + 1) rest)
        e in
    check_all_seen-ok (index + 1) rest e1 j (omega arith)

check_all_seen_lem :
    (index : ℕ) (seen : List Bool)
    → ((j : ℕ) → j < length seen → get_or seen j false ≡ true)
    → check_all_seen index seen ≡ ok tt
unfolding check_all_seen
check_all_seen_lem index [] h = refl
check_all_seen_lem index (s ∷ rest) h =
    rw (h 0 (omega arith)) (check_all_seen_lem (index + 1) rest (λ j lt. h (suc j) (omega arith)))

check_shards-HasShards :
    (s : Scheme) (shards : List ShardLocation)
    → check_shards s shards ≡ ok tt
    → HasShards (total_shards s) shards
unfolding check_shards
check_shards-HasShards s shards e =
    let start : Seen = record { indices = replicate (total_shards s) false; devices = [] } in
    let last : Seen → Checked (Unit {0}) = λ seen. check_all_seen 0 seen.indices in
    let (count, e1) =
      fail_if-eq-ok (length shards != total_shards s)
        (wrong_shard_count (total_shards s) (length shards))
        (for_each (note_shard s) start shards >>= last) e in
    let (next, e2, e3) = >>=-eq-ok (for_each (note_shard s) start shards) last e1 in
    let n = for_each-Noted s [] start next shards (Marks-none (total_shards s)) e2 in
    record {
      count = ground arith;
      inside = n.inside;
      unique_indices = (IsFresh-IsUnique [] (indices_of shards) n.fresh_indices).0;
      unique_devices = (IsFresh-IsUnique [] (devices_of shards) n.fresh_devices).0;
      complete = λ i lt.
          n.marks.marked i lt
            (check_all_seen-ok 0 next.indices e3 i (omega (arith, n.marks.size, lt)));
    }

check_shards_lem :
    (s : Scheme) (shards : List ShardLocation)
    → HasShards (total_shards s) shards
    → check_shards s shards ≡ ok tt
unfolding check_shards
check_shards_lem s shards v =
    let start : Seen = record { indices = replicate (total_shards s) false; devices = [] } in
    let (next, runs, marks) =
      for_each_noted s [] start shards (Marks-none (total_shards s)) v.inside
        (IsUnique-IsFresh [] (indices_of shards) v.unique_indices (NotIn-nil _))
        (IsUnique-IsFresh [] (devices_of shards) v.unique_devices (NotIn-nil _)) in
    let all_marked : (j : ℕ) → j < length next.indices → get_or next.indices j false ≡ true =
      λ j lt. elim (Bool-cases (get_or next.indices j false)) [
        | inl seen ↦ seen
        | inr unseen ↦
            let inside : j < total_shards s = omega (arith, marks.size, lt) in
            absurd (
              NotIn-IsIn j (indices_of shards) (marks.unmarked j inside unseen)
                (v.complete j inside))
      ] in
    rw (==_of_eq _ _ v.count, runs) (check_all_seen_lem 0 next.indices all_marked)

abbrev pub IsShort : Option Bytes → Type 0
IsShort none = Unit {0}
IsShort (some content_type) = length content_type ≤ max_content_type_bytes

too_long-IsShort : (o : Option Bytes) → too_long o ≡ false → IsShort o
too_long-IsShort none e = tt
too_long-IsShort (some c) e = ltb→le _ _ e

IsShort-too_long : (o : Option Bytes) → IsShort o → too_long o ≡ false
IsShort-too_long none h = refl
IsShort-too_long (some c) h = le→ltb _ _ h

module _ (hash_key : Bytes → KeyHash) where
  -- The records that a device may hold.
  pub record IsValid (r : MetadataRecord) : Type 0 where
    pub system : r.system ≡ system_name
    pub content_type : IsShort r.content_type
    pub format_version : r.format_version ≡ record_format_version
    pub key_hash : hash_key r.key ≡ r.key_hash
    pub scheme : IsAllowed r.k r.m
    pub some_block : 0 < r.block_size
    pub block_aligned : r.block_size % 4096 ≡ 0
    pub shards : HasShards (r.k + r.m) r.shards

  validate-IsValid : (r : MetadataRecord) → validate hash_key r ≡ ok tt → IsValid r
  unfolding validate
  validate-IsValid r e =
      let bad_block = r.block_size == 0 || not (is_multiple_of r.block_size 4096) in
      let blocks : Scheme → Checked (Unit {0}) =
        λ s. fail_if bad_block (bad_block_size r.block_size) >> check_shards s r.shards in
      let schemes = map_err invalid_scheme (new_scheme r.k r.m) >>= blocks in
      let hashes =
        fail_if (not (bytes_eq (hash_key r.key) r.key_hash))
          (key_hash_mismatch r.key_hash (hash_key r.key))
        >> schemes in
      let versions =
        fail_if (r.format_version != record_format_version)
          (unsupported_format_version r.format_version)
        >> hashes in
      let contents =
        fail_if (too_long r.content_type) (content_type_too_long (length_of r.content_type))
        >> versions in
      let (system, e1) =
        fail_if-eq-ok (not (bytes_eq r.system system_name)) (wrong_system r.system) contents e in
      let (short, e2) =
        fail_if-eq-ok (too_long r.content_type) (content_type_too_long (length_of r.content_type))
          versions e1 in
      let (version, e3) =
        fail_if-eq-ok (r.format_version != record_format_version)
          (unsupported_format_version r.format_version) hashes e2 in
      let (hashed, e4) =
        fail_if-eq-ok (not (bytes_eq (hash_key r.key) r.key_hash))
          (key_hash_mismatch r.key_hash (hash_key r.key)) schemes e3 in
      let (scheme, e5, e6) = >>=-eq-ok (map_err invalid_scheme (new_scheme r.k r.m)) blocks e4 in
      let (allowed, made) =
        new_scheme-IsAllowed r.k r.m scheme
          (map_err-eq-ok invalid_scheme (new_scheme r.k r.m) e5) in
      let (block, e7) =
        fail_if-eq-ok bad_block (bad_block_size r.block_size) (check_shards scheme r.shards) e6 in
      let (some_block, aligned) =
        ||_split (r.block_size == 0) (not (is_multiple_of r.block_size 4096)) block in
      record {
        system = bytes_eq→eq r.system system_name (not-false _ system);
        content_type = too_long-IsShort r.content_type short;
        format_version = ground arith;
        key_hash = bytes_eq→eq (hash_key r.key) r.key_hash (not-false _ hashed);
        scheme = allowed;
        some_block = ground arith;
        block_aligned = ground arith;
        shards = rw made at (check_shards-HasShards scheme r.shards e7);
      }

  IsValid-validate : (r : MetadataRecord) → IsValid r → validate hash_key r ≡ ok tt
  unfolding validate
  IsValid-validate r v =
      rw
        (
          v.system,
          bytes_eq_refl system_name,
          IsShort-too_long r.content_type v.content_type,
          v.format_version,
          v.key_hash,
          bytes_eq_refl r.key_hash,
          new_scheme_ok r.k r.m v.scheme,
          ==_of_pos r.block_size v.some_block,
          v.block_aligned,
        )
        (check_shards_lem (record { data_shards = r.k; parity_shards = r.m }) r.shards v.shards)

  -- `validate` accepts exactly the valid records: those of this system and format version, with a content
  -- type of at most 1024 bytes, the hash of their key, an allowed scheme, a block size that is a positive
  -- multiple of 4096, and one shard for each index of the scheme, all on different devices.
  pub record-validate_lem : (r : MetadataRecord) → (validate hash_key r ≡ ok tt) ↔ IsValid r
  record-validate_lem r = (validate-IsValid r, IsValid-validate r)

-- ===== src/Coordinator/Copies/Calm.antt =====
-- The copies of one version are answered, with records or with a failure, but never by a panic.
use mathlib.Core.Path.{subst}
use distributed_jbod.Common.{
  none, ℕ, refl, sym, Bool, true, false, not, some, List, [], ◌∷◌, map, ok, err, panic, ◌>>=◌, ◌>>◌,
  fail_if, length, ltb, ◌==◌, ==_iff, Bool-cases, inl, inr, bytes_eq,
}
use distributed_jbod.Common.Seen.{member}
use distributed_jbod.Common.Find.{filter}
use distributed_jbod.Common.Members.{filter-IsIn, first_of_IsIn, map-IsIn}
use distributed_jbod.ShardFile.{VersionId}
use distributed_jbod.Cluster.{DeviceId}
use distributed_jbod.Record.{Bytes, MetadataRecord, shard_on}
use distributed_jbod.Record.Equality.{record_eq}
use distributed_jbod.Coordinator.{
  LocatedRecord, Failure, Answer, error, records_inconsistent, copies_disagree, device_not_listed,
  is_none, names_other_key, key_mismatch,
}
use distributed_jbod.Coordinator.Copies.{
  MissingRecordCopy, TrustedVersion, check_named, check_current, check_all, is_current,
  trust_version, accept_version, accept_versions, versions_of_excluding,
}
use distributed_jbod.Coordinator.Copies.Trust.{max_of_lem, max_of-some}
use distributed_jbod.Coordinator.Copies.OneVersion.{AreOf, one_version}

-- Returns or fails, but does not panic.
abbrev pub IsCalm : {A : Type 0} → Answer A → Type 0
IsCalm (ok a) = Unit {0}
IsCalm (err e) = Unit {0}
IsCalm panic = ⊥

IsCalm-bind :
    {A B : Type 0} (m : Answer A) (rest : A → Answer B)
    → IsCalm m
    → ((a : A) → IsCalm (rest a))
    → IsCalm (m >>= rest)
IsCalm-bind (ok a) rest c h = h a
IsCalm-bind (err e) rest c h = tt
IsCalm-bind panic rest c h = c

IsCalm-fail_if : (test : Bool) (e : Failure) → IsCalm (fail_if test e)
IsCalm-fail_if true e = tt
IsCalm-fail_if false e = tt

two_checks : (a b : Bool) (e f : Failure) → IsCalm (fail_if a e >> fail_if b f)
two_checks a b e f =
    IsCalm-bind (fail_if a e) (λ u. fail_if b f) (IsCalm-fail_if a e) (λ u. IsCalm-fail_if b f)

IsCalm-check_all :
    (check : LocatedRecord → Answer (Unit {0})) (copies : List LocatedRecord)
    → ((c : LocatedRecord) → IsCalm (check c))
    → IsCalm (check_all check copies)
unfolding check_all
IsCalm-check_all check [] h = tt
IsCalm-check_all check (c ∷ copies) h =
    IsCalm-bind (check c) _ (h c) (λ u. IsCalm-check_all check copies h)

IsCalm-check_named :
    (key : Bytes) (v : VersionId) (c : LocatedRecord) → IsCalm (check_named key v c)
unfolding check_named
IsCalm-check_named key v c = IsCalm-fail_if (not (bytes_eq c.found.key key)) (
    error (record {
      code = key_mismatch;
      message = names_other_key c.found.key;
      node = none;
      device = some c.device;
      key = some key;
      version = some v;
    }))

IsCalm-check_current :
    (key : Bytes) (v : VersionId) (r : MetadataRecord) (n : ℕ) (c : LocatedRecord)
    → IsCalm (check_current key v r n c)
unfolding check_current
IsCalm-check_current key v r n c =
    two_checks (not (record_eq c.found r)) (is_none (shard_on r c.device))
      (error (record {
        code = records_inconsistent;
        message = copies_disagree n;
        node = none;
        device = some c.device;
        key = some key;
        version = some v;
      }))
      (error (record {
        code = records_inconsistent;
        message = device_not_listed;
        node = none;
        device = some c.device;
        key = some key;
        version = some v;
      }))

IsCalm-trust_version :
    (key : Bytes) (v : VersionId) (c : LocatedRecord) (copies : List LocatedRecord)
    → IsCalm (trust_version key v (c ∷ copies))
unfolding trust_version
IsCalm-trust_version key v c copies =
    let revisions = map (λ (x : LocatedRecord). x.found.revision) (c ∷ copies) in
    let (m, largest) = max_of-some c.found.revision revisions (inl refl) in
    let (at_m, bound) = max_of_lem revisions m largest in
    let (d, d_in, now) = map-IsIn (λ (x : LocatedRecord). x.found.revision) m (c ∷ copies) at_m in
    let (chosen, first) =
      first_of_IsIn d (filter (is_current m) (c ∷ copies))
        (filter-IsIn (is_current m) d (c ∷ copies) d_in ((==_iff d.found.revision m).1 now)) in
    rw (largest, first)
      (IsCalm-bind (check_all (check_named key v) (c ∷ copies)) _
        (IsCalm-check_all (check_named key v) (c ∷ copies) (IsCalm-check_named key v))
        (λ u.
          IsCalm-bind
            (check_all (check_current key v chosen.found m) (filter (is_current m) (c ∷ copies))) _
            (IsCalm-check_all (check_current key v chosen.found m)
              (filter (is_current m) (c ∷ copies)) (IsCalm-check_current key v chosen.found m))
            (λ w. tt)))

IsCalm-accept_version :
    (key : Bytes) (unread : List DeviceId) (t : TrustedVersion)
    → IsCalm (accept_version key unread t)
unfolding accept_version
IsCalm-accept_version key unread t =
    elim (Bool-cases (
      ltb (length (filter (λ (m : MissingRecordCopy). member ◌==◌ unread m.device) t.absent))
        (length t.absent))) [ inl few ↦ rw few tt | inr enough ↦ rw enough tt ]

IsCalm-accept_versions :
    (key : Bytes) (unread : List DeviceId) (t : TrustedVersion)
    → IsCalm (accept_versions key unread (t ∷ []))
unfolding accept_versions
IsCalm-accept_versions key unread t =
    IsCalm-bind (accept_version key unread t) (λ r. ok (r ∷ []))
      (IsCalm-accept_version key unread t) (λ r. tt)

pub IsCalm-versions :
    (key : Bytes) (unread : List DeviceId) (c : LocatedRecord) (copies : List LocatedRecord)
    → AreOf c.found.version copies
    → IsCalm (versions_of_excluding key (c ∷ copies) unread)
IsCalm-versions key unread c copies a = subst IsCalm (sym (one_version key unread c copies a)) (
    IsCalm-bind (trust_version key c.found.version (c ∷ copies))
      (λ t. accept_versions key unread (t ∷ [])) (IsCalm-trust_version key c.found.version c copies)
      (IsCalm-accept_versions key unread))

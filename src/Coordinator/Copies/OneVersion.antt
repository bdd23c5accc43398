-- ===== src/Coordinator/Copies/OneVersion.antt =====
-- `versions_of_excluding` on the copies of a single version, as the merges of record streams call it.
use mathlib.Core.Path.{subst}
use distributed_jbod.Common.{
  ◌≡◌, ◌↔◌, refl, sym, ◌∙◌, ap, List, [], ◌∷◌, ◌++◌, ok, err, panic, ◌>>=◌, >>=-eq-ok, All,
  bytes_eq_iff,
}
use distributed_jbod.ShardFile.{VersionId}
use distributed_jbod.Cluster.{DeviceId}
use distributed_jbod.Record.{Bytes, MetadataRecord}
use distributed_jbod.Coordinator.{LocatedRecord, Answer}
use distributed_jbod.Coordinator.Copies.{
  push_copy, group_copies, trust_version, trust_entries, trusted_versions, accept_version,
  accept_versions, versions_of_excluding,
}
use distributed_jbod.Coordinator.Copies.Trust.{
  IsTrusted, trusted_of, trust_version_sound, trust_version_complete,
}
use distributed_jbod.Coordinator.Copies.Absent.{
  IsComplete, accept_version_sound, accept_version_complete,
}
use mathlib.Core.List.{append-nil, append_assoc}

-- Every copy is of the version.
abbrev pub AreOf : VersionId → List LocatedRecord → Type 0
AreOf v copies = All (λ (c : LocatedRecord). c.found.version ≡ v) copies

group_one :
    (v : VersionId) (before copies : List LocatedRecord)
    → AreOf v copies
    → group_copies ((v, before) ∷ []) copies ≡ (v, before ++ copies) ∷ []
unfolding group_copies push_copy
group_one v before [] a = ap (λ l. (v, l) ∷ []) (sym (append-nil before))
group_one v before (c ∷ copies) (same, a) = rw ((bytes_eq_iff v c.found.version).1 (sym same)) (
    group_one v (before ++ c ∷ []) copies a
    ∙ ap (λ l. (v, l) ∷ []) (append_assoc before (c ∷ []) copies))

-- A step that cannot fail, in the middle of a chain.
bind_ok :
    {A B C : Type 0} (m : Answer A) (g : A → B) (f : B → Answer C)
    → ((m >>= λ a. ok (g a)) >>= f) ≡ (m >>= λ a. f (g a))
bind_ok (ok a) g f = refl
bind_ok (err e) g f = refl
bind_ok panic g f = refl

pub one_version :
    (key : Bytes) (unread : List DeviceId) (c : LocatedRecord) (copies : List LocatedRecord)
    → AreOf c.found.version copies
    → versions_of_excluding key (c ∷ copies) unread ≡ (
        trust_version key c.found.version (c ∷ copies) >>= λ t. accept_versions key unread (t ∷ []))
unfolding versions_of_excluding trusted_versions trust_entries group_copies push_copy
one_version key unread c copies a = rw (group_one c.found.version (c ∷ []) copies a) (
    bind_ok (trust_version key c.found.version (c ∷ copies)) (λ t. t ∷ [])
      (accept_versions key unread))

-- An answer for the copies of one version is one record.
pub one_answer :
    (key : Bytes) (unread : List DeviceId) (c : LocatedRecord) (copies : List LocatedRecord)
    (versions : List MetadataRecord)
    → AreOf c.found.version copies
    → versions_of_excluding key (c ∷ copies) unread ≡ ok versions
    → (r : MetadataRecord) × (versions ≡ r ∷ [])
      × IsTrusted key (c ∷ copies) r
      × IsComplete unread (c ∷ copies) r
unfolding accept_versions
one_answer key unread c copies versions a e =
    let (t, trust, rest) =
      >>=-eq-ok (trust_version key c.found.version (c ∷ copies)) _
        (sym (one_version key unread c copies a) ∙ e) in
    let (r, accept, last) = >>=-eq-ok (accept_version key unread t) _ rest in
    let trusted = trust_version_sound key c.found.version (c ∷ copies) t trust in
    let again = trust_version_complete key c.found.version (c ∷ copies) t.trusted trusted in
    let same : t ≡ trusted_of (c ∷ copies) t.trusted = cc in
    let (equal, complete) =
      accept_version_sound key unread (c ∷ copies) t.trusted trusted r (rw same at accept) in
    let single : versions ≡ t.trusted ∷ [] = cc in (t.trusted, single, trusted, complete)

-- The copies of one version are answered with a record exactly when it is trusted and complete.
pub versions_of_excluding_iff :
    (key : Bytes) (unread : List DeviceId) (c : LocatedRecord) (copies : List LocatedRecord)
    (r : MetadataRecord)
    → AreOf c.found.version copies
    → (versions_of_excluding key (c ∷ copies) unread ≡ ok (r ∷ []))
      ↔ (IsTrusted key (c ∷ copies) r × IsComplete unread (c ∷ copies) r)
unfolding accept_versions
versions_of_excluding_iff key unread c copies r a = (
  λ e.
      let (s, single, trusted, complete) = one_answer key unread c copies (r ∷ []) a e in
      let same : s ≡ r = cc in
      subst (λ x. IsTrusted key (c ∷ copies) x × IsComplete unread (c ∷ copies) x) same
        (trusted, complete),
  λ (trusted, complete).
      one_version key unread c copies a
      ∙ rw (
        trust_version_complete key c.found.version (c ∷ copies) r trusted,
        accept_versions,
        accept_version_complete key unread (c ∷ copies) r trusted complete,
      ),
)

-- ===== src/Coordinator/Copies/Orders.antt =====
-- The order in which the nodes' record copies arrive makes no difference to `versions_of_excluding`.
use distributed_jbod.Common.{◌≡◌, ◌↔◌, ◌⊎◌, inl, inr, List, ok, All, All-weaken, bytes_eq}
use distributed_jbod.Common.Seen.{IsIn}
use distributed_jbod.Common.Members.{All-IsIn, All-of_IsIn, IsIn-filter, filter-IsIn}
use distributed_jbod.ShardFile.{VersionId}
use distributed_jbod.Cluster.{DeviceId}
use distributed_jbod.Record.{Bytes, MetadataRecord}
use distributed_jbod.Record.Shards.{devices_of}
use distributed_jbod.Coordinator.{LocatedRecord}
use distributed_jbod.Coordinator.Copies.{versions_of_excluding}
use distributed_jbod.Coordinator.Copies.Trust.{IsTrusted, IsCopyOf}
use distributed_jbod.Coordinator.Copies.Absent.{IsComplete, HasCopy}
use distributed_jbod.Coordinator.Copies.Grouping.{of_version}
use distributed_jbod.Coordinator.Copies.Answers.{IsAnswer, IsGood}
use distributed_jbod.Coordinator.Copies.Exact.{versions_of_excluding_lem}

-- The same copies, in any order and any number of times.
abbrev pub AreSame : List LocatedRecord → List LocatedRecord → Type 0
AreSame before after = (c : LocatedRecord) → IsIn c before ↔ IsIn c after

AreSame-of_version :
    (v : VersionId) (before after : List LocatedRecord)
    → AreSame before after
    → AreSame (of_version v before) (of_version v after)
AreSame-of_version v before after same c =
    (one_way before after (λ d. (same d).0), one_way after before (λ d. (same d).1))
  where
    one_way :
        (xs ys : List LocatedRecord)
        → ((d : LocatedRecord) → IsIn d xs → IsIn d ys)
        → IsIn c (of_version v xs)
        → IsIn c (of_version v ys)
    one_way xs ys into i =
        let (c_in, version) =
          IsIn-filter (λ (d : LocatedRecord). bytes_eq d.found.version v) c xs i in
        filter-IsIn (λ (d : LocatedRecord). bytes_eq d.found.version v) c ys (into c c_in) version

All-same :
    (P : LocatedRecord → Type 0) (before after : List LocatedRecord)
    → AreSame before after
    → All P before
    → All P after
All-same P before after same a = All-of_IsIn P after (λ c i. All-IsIn P c before a ((same c).1 i))

IsTrusted-same :
    (key : Bytes) (before after : List LocatedRecord) (r : MetadataRecord)
    → AreSame before after
    → IsTrusted key before r
    → IsTrusted key after r
IsTrusted-same key before after r same a =
    let (c, there, found) = a.held in
    record {
      named = All-same _ before after same a.named;
      agreed = All-same (IsCopyOf r) before after same a.agreed;
      held = (c, (same c).0 there, found);
    }

IsComplete-same :
    (unread : List DeviceId) (before after : List LocatedRecord) (r : MetadataRecord)
    → AreSame before after
    → IsComplete unread before r
    → IsComplete unread after r
IsComplete-same unread before after r same a =
    All-weaken _ (λ d. HasCopy after r d ⊎ IsIn d unread) (devices_of r.shards)
      (λ d h. elim h [
        | inl (c, there, found, on) ↦ inl (c, (same c).0 there, found, on)
        | inr excused ↦ inr excused
      ])
      a

IsAnswer-same :
    (key : Bytes) (unread : List DeviceId) (before after : List LocatedRecord)
    (versions : List MetadataRecord)
    → AreSame before after
    → IsAnswer key unread before versions
    → IsAnswer key unread after versions
IsAnswer-same key unread before after versions same a = record {
  trusted =
      All-weaken (IsGood key unread before) (IsGood key unread after) versions
        (λ r good.
          (let of_r = AreSame-of_version r.version before after same in
            (
              IsTrusted-same key (of_version r.version before) (of_version r.version after) r of_r
                  good.0,
              IsComplete-same unread (of_version r.version before) (of_version r.version after) r
                  of_r good.1,
            )))
        a.trusted;
  covered = All-same _ before after same a.covered;
  newest_first = a.newest_first;
}

-- The order in which the copies arrive does not matter, nor does a copy that arrives twice: from the same
-- copies `versions_of_excluding` answers with the same records.
pub versions_of_excluding_any_order :
    (key : Bytes) (unread : List DeviceId) (before after : List LocatedRecord)
    (versions : List MetadataRecord)
    → AreSame before after
    → (versions_of_excluding key before unread ≡ ok versions)
      ↔ (versions_of_excluding key after unread ≡ ok versions)
versions_of_excluding_any_order key unread before after versions same = (
  λ e. (versions_of_excluding_lem key unread after versions).1 (
      IsAnswer-same key unread before after versions same
        ((versions_of_excluding_lem key unread before versions).0 e)),
  λ e. (versions_of_excluding_lem key unread before versions).1 (
      IsAnswer-same key unread after before versions (λ c. ((same c).1, (same c).0))
        ((versions_of_excluding_lem key unread after versions).0 e)),
)

-- ===== src/Coordinator/Groups/Check.antt =====
-- What a check of a version across the nodes promises when it finds nothing.
use mathlib.Core.Path.{subst}
use distributed_jbod.Common.{
  ℕ, ◌≡◌, ◌⊎◌, inl, inr, refl, sym, ◌∙◌, ap, true, false, ◌&&◌, some, List, [], ◌∷◌, ◌++◌, map, ok,
  err, panic, ltb, ltb→le, lt→ltb, ◌==◌, All, All-weaken, arith, Bool-cases, bytes_eq_iff,
}
use distributed_jbod.Common.Seen.{IsIn, IsIn-member, member, concat_map}
use distributed_jbod.Common.Members.{All-IsIn, All-of_IsIn, filter-IsIn, IsIn-append, map-IsIn}
use distributed_jbod.Cluster.{DeviceId}
use distributed_jbod.Record.{Bytes, ShardLocation, MetadataRecord}
use distributed_jbod.Record.Shards.{devices_of}
use distributed_jbod.Coordinator.{LocatedRecord, Answer, error, close}
use distributed_jbod.Coordinator.Copies.{versions_of_excluding, is_stale, stale_copies}
use distributed_jbod.Coordinator.Copies.Trust.{IsTrusted, IsCopyOf, index_on-listed}
use distributed_jbod.Coordinator.Copies.Absent.{IsComplete, HasCopy, member_eq_iff}
use distributed_jbod.Coordinator.Copies.OneVersion.{AreOf, one_answer}
use distributed_jbod.Coordinator.Groups.{
  Presence, present_on, is_false, ShardCount, lost_of_group, count_shards, stale_findings,
  shard_findings, check_versions, check_group,
}

nil_of_append : {A : Type 0} (xs ys : List A) → xs ++ ys ≡ [] → (xs ≡ []) × (ys ≡ [])
nil_of_append [] ys e = (refl, e)
nil_of_append (x ∷ xs) ys e = absurd (cc)

nil_of_concat_map :
    {A B : Type 0} (f : A → List B) (xs : List A) → concat_map f xs ≡ [] → All (λ x. f x ≡ []) xs
nil_of_concat_map f [] e = tt
nil_of_concat_map f (x ∷ xs) e =
    let (here, rest) = nil_of_append (f x) (concat_map f xs) e in
    (here, nil_of_concat_map f xs rest)

nil_of_map : {A B : Type 0} (f : A → B) (xs : List A) → map f xs ≡ [] → xs ≡ []
nil_of_map f [] e = refl
nil_of_map f (x ∷ xs) e = absurd (cc)

-- A version that a scrub has nothing to say about.
pub record IsClean (group : List LocatedRecord) (present : Presence) (unread : List DeviceId)
    (r : MetadataRecord) : Type 0 where
  pub trusted : IsTrusted r.key group r
  pub complete : IsComplete unread group r
  pub no_stale : All (λ (c : LocatedRecord). IsIn c.device (devices_of r.shards)) group
  pub files :
      (r.size ≡ 0)
      ⊎ All (λ (s : ShardLocation). is_false (present_on present s.device) ≡ false) r.shards

-- The device of a copy that is not stale is listed.
listed_of_fresh :
    (r : MetadataRecord) (c : LocatedRecord)
    → c.found.version ≡ r.version
    → IsCopyOf r c
    → is_stale r c ≡ false
    → IsIn c.device (devices_of r.shards)
unfolding is_stale
listed_of_fresh r c v (inr current) fresh = current.1
listed_of_fresh r c v (inl older) fresh =
    let same = (bytes_eq_iff c.found.version r.version).1 v in
    let less = lt→ltb c.found.revision r.revision older in
    (index_on-listed r.shards c.device).0 (rw (same, less) at fresh)

quiet_shard :
    (key : Bytes) (r : MetadataRecord) (lost : List DeviceId) (present : Presence)
    (s : ShardLocation)
    → shard_findings key r lost present s ≡ []
    → (member ◌==◌ lost s.device ≡ false)
      × ((ltb 0 r.size && is_false (present_on present s.device)) ≡ false)
unfolding shard_findings
quiet_shard key r lost present s e = ground arith

found-All :
    (r : MetadataRecord) (present : Presence)
    → All
        (λ (s : ShardLocation). (ltb 0 r.size && is_false (present_on present s.device)) ≡ false)
        r.shards
    → (r.size ≡ 0)
      ⊎ All (λ (s : ShardLocation). is_false (present_on present s.device) ≡ false) r.shards
found-All r present h = elim (Bool-cases (ltb 0 r.size)) [
  | inr empty ↦ inl (let none_left = ltb→le 0 r.size empty in omega arith)
  | inl some_bytes ↦ inr (rw some_bytes at h)
]

check_versions-clean :
    (key : Bytes) (group : List LocatedRecord) (lost unread : List DeviceId) (present : Presence)
    (damaged : List (List ℕ × ℕ)) (r : MetadataRecord) (count : ShardCount)
    → check_versions key group lost unread present damaged (ok (r ∷ [])) ≡ ok ([], some count)
    → All (λ c. is_stale r c ≡ false) group
      × All (λ s. shard_findings key r lost present s ≡ []) r.shards
unfolding check_versions stale_findings stale_copies
check_versions-clean key group lost unread present damaged r count e =
    let silent : concat_map (stale_findings key group) (r ∷ [])
          ++ concat_map (λ s. concat_map (shard_findings key s lost present) s.shards) (r ∷ [])
        ≡ [] =
      cc in
    let (stale, shards) = nil_of_append _ _ silent in
    let no_stale =
      nil_of_map _ _
        (nil_of_map _ _ (nil_of_concat_map (stale_findings key group) (r ∷ []) stale).0) in
    (
      All-of_IsIn _ group (λ c i. elim (Bool-cases (is_stale r c)) [
        | inr fresh ↦ fresh
        | inl old ↦ absurd (
            subst (λ (l : List LocatedRecord). IsIn c l) no_stale
              (filter-IsIn (is_stale r) c group i old))
      ]),
      nil_of_concat_map (shard_findings key r lost present) r.shards
          (nil_of_concat_map (λ s. concat_map (shard_findings key s lost present) s.shards) (r ∷ [])
            shards).0,
    )

check_versions-ok :
    (key : Bytes) (group : List LocatedRecord) (lost unread : List DeviceId) (present : Presence)
    (damaged : List (List ℕ × ℕ)) (answer : Answer (List MetadataRecord)) (count : ShardCount)
    → check_versions key group lost unread present damaged answer ≡ ok ([], some count)
    → (versions : List MetadataRecord) × (answer ≡ ok versions)
unfolding check_versions
check_versions-ok key group lost unread present damaged (ok versions) count e = (versions, refl)
check_versions-ok key group lost unread present damaged (err (error detail)) count e = absurd (cc)
check_versions-ok key group lost unread present damaged (err close) count e = absurd (cc)
check_versions-ok key group lost unread present damaged panic count e = absurd (cc)

check_versions-count :
    (key : Bytes) (group : List LocatedRecord) (lost unread : List DeviceId) (present : Presence)
    (damaged : List (List ℕ × ℕ)) (r : MetadataRecord) (count : ShardCount)
    → check_versions key group lost unread present damaged (ok (r ∷ [])) ≡ ok ([], some count)
    → count ≡ count_shards r lost unread present damaged
unfolding check_versions
check_versions-count key group lost unread present damaged r count e = cc

version_of_group :
    (key : Bytes) (v : List ℕ) (group : List LocatedRecord) (r : MetadataRecord)
    → AreOf v group
    → IsTrusted key group r
    → (r.version ≡ v) × (r.key ≡ key)
version_of_group key v group r a trusted =
    let (c, c_in, same) = trusted.held in
    let of_v = All-IsIn (λ (x : LocatedRecord). x.found.version ≡ v) c group a c_in in
    let named = All-IsIn (λ (x : LocatedRecord). x.found.key ≡ key) c group trusted.named c_in in
    (
      sym (ap (λ (x : MetadataRecord). x.version) same) ∙ of_v,
      sym (ap (λ (x : MetadataRecord). x.key) same) ∙ named,
    )

-- A device that is not lost sent its copy or is unread.
IsComplete-of_quiet :
    (group : List LocatedRecord) (lost unread : List DeviceId) (r : MetadataRecord)
    → All (λ (s : ShardLocation). member ◌==◌ lost s.device ≡ false) r.shards
    → IsComplete (unread ++ lost) group r
    → IsComplete unread group r
IsComplete-of_quiet group lost unread r found complete = All-of_IsIn _ (devices_of r.shards) (λ d i.
    (let (s, s_in, device) = map-IsIn (λ (x : ShardLocation). x.device) d r.shards i in
      settle d
        (subst (λ (e : DeviceId). member ◌==◌ lost e ≡ false) device
          (All-IsIn _ s r.shards found s_in))
        (All-IsIn _ d (devices_of r.shards) complete i)))
  where
    settle :
        (d : DeviceId)
        → member ◌==◌ lost d ≡ false
        → (HasCopy group r d ⊎ IsIn d (unread ++ lost))
        → HasCopy group r d ⊎ IsIn d unread
    settle d kept (inl copy) = inl copy
    settle d kept (inr i) = elim (IsIn-append d unread lost i) [
      | inl there ↦ inr there
      | inr gone ↦
          absurd (
            let wrong : true ≡ false = sym (IsIn-member ◌==◌ member_eq_iff d lost gone) ∙ kept in
            cc)
    ]

-- A scrub across the nodes that counts a version's shards and finds nothing wrong vouches for it: for the
-- copies of one version, the record that it trusts is held and agreed on, every device that the record
-- lists sent it or is unread, no copy is left on a device that is not listed, and, unless the object is
-- empty, no listed device lacks the shard's file.
pub check_group-IsClean :
    (c : LocatedRecord) (copies : List LocatedRecord) (present : Presence)
    (unread known : List DeviceId) (damaged : List (List ℕ × ℕ)) (count : ShardCount)
    → AreOf c.found.version copies
    → check_group (c ∷ copies) present unread known damaged ≡ ok ([], some count)
    → (r : MetadataRecord) × IsClean (c ∷ copies) present unread r
      × (count ≡ count_shards r (lost_of_group (c ∷ copies) unread known) unread present damaged)
unfolding check_group
check_group-IsClean c copies present unread known damaged count a e =
    let lost = lost_of_group (c ∷ copies) unread known in
    let key = c.found.key in
    let (versions, answered) =
      check_versions-ok key (c ∷ copies) lost unread present damaged
        (versions_of_excluding key (c ∷ copies) (unread ++ lost)) count e in
    let (r, single, trusted, complete) =
      one_answer key (unread ++ lost) c copies versions a answered in
    let report : check_versions key (c ∷ copies) lost unread present damaged (ok (r ∷ []))
        ≡ ok ([], some count) =
      ap (check_versions key (c ∷ copies) lost unread present damaged)
        (sym (answered ∙ ap ok single))
      ∙ e in
    let (no_stale, quiet) =
      check_versions-clean key (c ∷ copies) lost unread present damaged r count report in
    let silent = All-weaken _ _ r.shards (λ s. quiet_shard key r lost present s) quiet in
    let (version, same_key) =
      version_of_group key c.found.version (c ∷ copies) r (refl, a) trusted in
    (
      r,
      record {
        trusted = subst (λ (k : Bytes). IsTrusted k (c ∷ copies) r) (sym same_key) trusted;
        complete =
            IsComplete-of_quiet (c ∷ copies) lost unread r
              (All-weaken _ _ r.shards (λ s h. h.0) silent) complete;
        no_stale = All-of_IsIn _ (c ∷ copies) (λ x i.
            listed_of_fresh r x
              (All-IsIn (λ (y : LocatedRecord). y.found.version ≡ c.found.version) x (c ∷ copies)
                  (refl, a) i
                ∙ sym version)
              (All-IsIn (IsCopyOf r) x (c ∷ copies) trusted.agreed i)
              (All-IsIn _ x (c ∷ copies) no_stale i));
        files = found-All r present (All-weaken _ _ r.shards (λ s h. h.1) silent);
      },
      check_versions-count key (c ∷ copies) lost unread present damaged r count report,
    )

-- ===== src/Coordinator/Copies/Unique.antt =====
-- The answers of `versions_of_excluding` are fixed by what they must be: there is at most one.
use distributed_jbod.Common.{
  ◌≡◌, refl, inl, inr, sym, ◌∙◌, ap, true, false, List, [], ◌∷◌, map, bytes_eq,
}
use distributed_jbod.Common.Seen.{IsIn}
use distributed_jbod.Common.Members.{All-IsIn, IsIn-map, map-IsIn, IsIn-filter}
use distributed_jbod.ShardFile.{VersionId}
use distributed_jbod.Cluster.{DeviceId}
use distributed_jbod.Record.{Bytes, MetadataRecord}
use distributed_jbod.Coordinator.{LocatedRecord}
use distributed_jbod.Coordinator.Copies.{bytes_ltb}
use distributed_jbod.Coordinator.Copies.Trust.{IsTrusted, trusted_of, trust_version_complete}
use distributed_jbod.Coordinator.Copies.Grouping.{of_version, bytes_ltb_irrefl, bytes_ltb_trans}
use distributed_jbod.Coordinator.Copies.Answers.{IsDescending, IsAnswer, IsGood}

-- The version that the copies are of comes from one record at most.
pub trusted_unique :
    (key : Bytes) (copies : List LocatedRecord) (r s : MetadataRecord)
    → IsTrusted key copies r
    → IsTrusted key copies s
    → r ≡ s
trusted_unique key copies r s a b =
    let at_r = trust_version_complete key r.version copies r a in
    let at_s = trust_version_complete key r.version copies s b in
    let same : trusted_of copies r ≡ trusted_of copies s = cc in ap (λ t. t.trusted) same

abbrev versions_in : List MetadataRecord → List VersionId
versions_in rs = map (λ (r : MetadataRecord). r.version) rs

above_all :
    (r s : MetadataRecord) (rs : List MetadataRecord)
    → IsDescending (versions_in (r ∷ rs))
    → IsIn s rs
    → bytes_ltb s.version r.version ≡ true
above_all r s rs (below, d) i =
    All-IsIn (λ w. bytes_ltb w r.version ≡ true) s.version (versions_in rs) below
      (IsIn-map (λ (x : MetadataRecord). x.version) s rs i)

not_below_itself : (v : VersionId) → ¬ (bytes_ltb v v ≡ true)
not_below_itself v e = (let wrong : true ≡ false = sym e ∙ bytes_ltb_irrefl v in absurd (cc))

-- Of two descending lists, what one has after its head is not the head of the other.
heads_agree :
    (r s : MetadataRecord) (rs ss : List MetadataRecord)
    → IsDescending (versions_in (r ∷ rs))
    → IsDescending (versions_in (s ∷ ss))
    → IsIn r (s ∷ ss)
    → IsIn s (r ∷ rs)
    → r ≡ s
heads_agree r s rs ss d e (inl same) j = sym same
heads_agree r s rs ss d e (inr i) (inl same) = same
heads_agree r s rs ss d e (inr i) (inr j) = absurd (
    not_below_itself r.version
      (bytes_ltb_trans r.version s.version r.version (above_all s r ss e i) (above_all r s rs d j)))

in_tail :
    (r s : MetadataRecord) (rs ss : List MetadataRecord)
    → IsDescending (versions_in (r ∷ rs))
    → r ≡ s
    → (x : MetadataRecord) → IsIn x rs
    → IsIn x (s ∷ ss)
    → IsIn x ss
in_tail r s rs ss d same x i (inr j) = j
in_tail r s rs ss d same x i (inl e) =
    absurd
      (not_below_itself x.version (let joined = same ∙ e in rw (joined) at (above_all r x rs d i)))

-- Lists that descend and have the same records are the same list.
descending_unique :
    (rs ss : List MetadataRecord)
    → IsDescending (versions_in rs)
    → IsDescending (versions_in ss)
    → ((x : MetadataRecord) → IsIn x rs → IsIn x ss)
    → ((x : MetadataRecord) → IsIn x ss → IsIn x rs)
    → rs ≡ ss
descending_unique [] [] d e f g = refl
descending_unique [] (s ∷ ss) d e f g = absurd (g s (inl refl))
descending_unique (r ∷ rs) [] d e f g = absurd (f r (inl refl))
descending_unique (r ∷ rs) (s ∷ ss) d e f g =
    let same = heads_agree r s rs ss d e (f r (inl refl)) (g s (inl refl)) in
    let rest =
      descending_unique rs ss d.1 e.1 (λ x i. in_tail r s rs ss d same x i (f x (inr i)))
        (λ x i. in_tail s r ss rs e (sym same) x i (g x (inr i))) in
    rw (same, rest)

module _ (key : Bytes) (unread : List DeviceId) (located : List LocatedRecord) where
  -- What one answer holds, any other holds too.
  answer_within :
      (rs ss : List MetadataRecord)
      → IsAnswer key unread located rs
      → IsAnswer key unread located ss
      → (x : MetadataRecord) → IsIn x rs
      → IsIn x ss
  answer_within rs ss a b x i =
      let good = All-IsIn (IsGood key unread located) x rs a.trusted i in
      let (c, there, found) = good.0.held in
      let (c_in, same) =
        IsIn-filter (λ (d : LocatedRecord). bytes_eq d.found.version x.version) c located there in
      let covered = All-IsIn _ c located b.covered c_in in
      let (y, y_in, version) =
        map-IsIn (λ (r : MetadataRecord). r.version) c.found.version ss covered in
      let equal : y.version ≡ x.version = version ∙ ap (λ (r : MetadataRecord). r.version) found in
      let trusted : IsTrusted key (of_version x.version located) y =
        rw equal at (All-IsIn (IsGood key unread located) y ss b.trusted y_in).0 in
      rw (trusted_unique key (of_version x.version located) x y good.0 trusted) y_in

  pub answer_unique :
      (rs ss : List MetadataRecord)
      → IsAnswer key unread located rs
      → IsAnswer key unread located ss
      → rs ≡ ss
  answer_unique rs ss a b =
      descending_unique rs ss a.newest_first b.newest_first (answer_within rs ss a b)
        (answer_within ss rs b a)

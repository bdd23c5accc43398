-- ===== src/Node/Placement/Choice.antt =====
-- What `place` returns: enough devices or none.
use distributed_jbod.Common.{
  ℕ, suc, not, false, map, fail_if, ltb, ltb→lt, ltb→le, sym, ◌>>◌, le→leb, not-true, ◌+◌, ◌↔◌, ◌≤◌,
  ◌<◌, ◌≡◌, refl, ◌∙◌, ap, true, ◌&&◌, List, [], ◌∷◌, ◌++◌, ok, err, length, length-take, take,
  drop, take-append-drop, arith, leb, leb→le, le→ltb, Bool-cases, inl, inr, &&_split,
}
use distributed_jbod.Common.Find.{filter}
use distributed_jbod.Erasure.{Scheme}
use distributed_jbod.Cluster.{DeviceState}
use distributed_jbod.Node.Placement.{
  DeviceStatus, PlacementError, insufficient_devices, is_active, is_eligible, insert, sort,
  unavailable, place, comes_before,
}
use distributed_jbod.Node.Placement.Best.{
  IsSorted, IsDistinct, sort-IsSorted, sort-Perm, sort-IsDistinct, filter-IsDistinct,
  take-IsDistinct,
}
use mathlib.Core.List.{Perm}
use mathlib.Core.Path.{subst}
use distributed_jbod.Common.Selections.{IsSelection, IsSelection-filter}

length-insert : (d : DeviceStatus) (xs : List DeviceStatus) → length (insert d xs) ≡ suc (length xs)
unfolding insert
length-insert d [] = refl
length-insert d (x ∷ xs) = elim (Bool-cases (comes_before d x)) [
  | inl before ↦ rw before
  | inr after ↦ rw after (ap suc (length-insert d xs))
]

length-sort : (xs : List DeviceStatus) → length (sort xs) ≡ length xs
unfolding sort
length-sort [] = refl
length-sort (x ∷ xs) = length-insert x (sort xs) ∙ ap suc (length-sort xs)

-- An active device that can be read and has room for `shard_bytes`.
pub record IsEligible (shard_bytes : ℕ) (d : DeviceStatus) : Type 0 where
  pub active : d.state ≡ DeviceState.active
  pub available : d.available ≡ true
  pub room : shard_bytes ≤ d.free_bytes

-- An active device whose node cannot read it.
pub record IsUnavailable (d : DeviceStatus) : Type 0 where
  pub active : d.state ≡ DeviceState.active
  pub unread : d.available ≡ false

is_active_iff : (s : DeviceState) → (is_active s ≡ true) ↔ (s ≡ DeviceState.active)
is_active_iff DeviceState.active = (λ h. refl, λ h. refl)
is_active_iff DeviceState.draining = (λ h. absurd (cc), λ h. absurd (cc))
is_active_iff DeviceState.removed = (λ h. absurd (cc), λ h. absurd (cc))

pub is_eligible_iff :
    (shard_bytes : ℕ) (d : DeviceStatus)
    → (is_eligible shard_bytes d ≡ true) ↔ IsEligible shard_bytes d
is_eligible_iff shard_bytes d = (
  λ h.
      let (present, room) =
        &&_split (is_active d.state && d.available) (leb shard_bytes d.free_bytes) h in
      let (active, available) = &&_split (is_active d.state) d.available present in
      record {
        active = (is_active_iff d.state).0 active;
        available = available;
        room = leb→le _ _ room;
      },
  λ e. rw ((is_active_iff d.state).1 e.active, e.available) (le→leb _ _ e.room),
)

pub IsUnavailable-iff :
    (d : DeviceStatus) → ((is_active d.state && not d.available) ≡ true) ↔ IsUnavailable d
IsUnavailable-iff d = (
  λ h.
      let (active, unread) = &&_split (is_active d.state) (not d.available) h in
      record { active = (is_active_iff d.state).0 active; unread = not-true d.available unread },
  λ u. rw ((is_active_iff d.state).1 u.active, u.unread),
)

-- The best `n` of the devices that are able, in the order of their worth: they come first when all that
-- are able are put in order.
pub record IsBest (able : List DeviceStatus) (n : ℕ) (chosen : List DeviceStatus) : Type 0 where
  pub count : length chosen ≡ n
  pub distinct : IsDistinct chosen
  pub left : List DeviceStatus
  pub whole : Perm able (chosen ++ left)
  pub in_order : IsSorted (chosen ++ left)

module _ (statuses able : List DeviceStatus) (scheme : Scheme) (shard_bytes : ℕ)
    (selects : IsSelection (IsEligible shard_bytes) statuses able) where
  able_lem : filter (is_eligible shard_bytes) statuses ≡ able
  able_lem =
      IsSelection-filter (IsEligible shard_bytes) (is_eligible shard_bytes)
        (is_eligible_iff shard_bytes) selects

  sized : length (sort (filter (is_eligible shard_bytes) statuses)) ≡ length able
  sized = length-sort (filter (is_eligible shard_bytes) statuses) ∙ ap length able_lem

  -- `place` chooses the best devices. Take the statuses of different devices, and those among them that
  -- are eligible: active, available and with room for a shard. If these are k + m or more, `place` returns
  -- k + m of them, all different, in order, and such that no other comes before any of them: most free
  -- space first, and of two with as much the lower id.
  pub place-IsBest :
      IsDistinct statuses
      → scheme.data_shards + scheme.parity_shards ≤ length able
      → (chosen : List DeviceStatus) × (place statuses scheme shard_bytes ≡ ok chosen)
        × IsBest able (scheme.data_shards + scheme.parity_shards) chosen
  unfolding place
  place-IsBest distinct enough =
      let n = scheme.data_shards + scheme.parity_shards in
      (
        take n (sort able),
        rw
            (le→ltb (length (sort (filter (is_eligible shard_bytes) statuses))) n
              (omega (arith, sized)))
            (ap (λ l. ok (take n (sort l))) able_lem),
        record {
          count = length-take n (sort able) ∙ omega (arith, length-sort able);
          distinct = take-IsDistinct n (sort able) (
              sort-IsDistinct able (
                subst IsDistinct able_lem
                  (filter-IsDistinct (is_eligible shard_bytes) statuses distinct)));
          left = drop n (sort able);
          whole = rw (take-append-drop n (sort able)) (sort-Perm able);
          in_order = rw (take-append-drop n (sort able)) (sort-IsSorted able);
        },
      )

  abbrev refusal : List DeviceStatus → PlacementError
  refusal unread =
      insufficient_devices (length able) shard_bytes (scheme.data_shards + scheme.parity_shards)
        (map (λ (d : DeviceStatus). d.device) unread)

  place_lem :
      (unread : List DeviceStatus)
      → IsSelection IsUnavailable statuses unread
      → place statuses scheme shard_bytes ≡ (
          fail_if (ltb (length able) (scheme.data_shards + scheme.parity_shards)) (refusal unread)
          >> ok (take (scheme.data_shards + scheme.parity_shards) (sort able)))
  unfolding place
  place_lem unread missing =
      let named : unavailable statuses ≡ map (λ (d : DeviceStatus). d.device) unread =
        ap (map (λ (d : DeviceStatus). d.device)) (
          IsSelection-filter IsUnavailable (λ d. is_active d.state && not d.available)
            IsUnavailable-iff missing) in
      rw (place, able_lem, length-sort able, named) refl

  -- `place` refuses exactly if fewer than k + m of the devices are eligible: active, available and with
  -- room for a shard. It then says how many are, for how many bytes, and how many are needed, and names
  -- the devices that are active but not available, all of them and in the order of the statuses.
  pub place-insufficient :
      (unread : List DeviceStatus) (e : PlacementError)
      → IsSelection IsUnavailable statuses unread
      → (place statuses scheme shard_bytes ≡ err e) ↔ (
          (length able < scheme.data_shards + scheme.parity_shards)
          × (e
              ≡ insufficient_devices
                  (length able)
                  shard_bytes
                  (scheme.data_shards + scheme.parity_shards)
                  (map (λ (d : DeviceStatus). d.device) unread)))
  place-insufficient unread e missing =
      let runs = place_lem unread missing in
      let n = scheme.data_shards + scheme.parity_shards in
      elim (Bool-cases (ltb (length able) n)) [
        | inl few ↦
            let refused : place statuses scheme shard_bytes ≡ err (refusal unread) =
              rw few at runs in
            (λ h. (ltb→lt (length able) n few, cc), λ (few, same). refused ∙ ap err (sym same))
        | inr enough ↦
            let chosen : place statuses scheme shard_bytes ≡ ok (take n (sort able)) =
              rw enough at runs in
            (
              λ h. absurd (cc),
              λ (few, same). absurd (let some_left = ltb→le (length able) n enough in omega arith),
            )
      ]

-- ===== src/Record/Shards.antt =====
-- The loop of `MetadataRecord::validate` over the shards.
use distributed_jbod.Common.{
  ℕ, ◌<◌, ◌≡◌, ◌≢◌, refl, sym, ◌∙◌, ap, Bool, true, false, not, List, [], ◌∷◌, ◌++◌, map, ok, ◌>>=◌,
  ◌>>◌, fail_if, expect, fail_if-eq-ok, >>=-eq-ok, length, get_elem?, get_or, set, replicate,
  length-set, get_or-set_self, get_or-set_ne, get_elem?-eq-get_or, get_or-replicate,
  length-replicate, ltb→lt, lt→ltb, ◌==◌, ==_iff, All, arith, Bool-cases, inl, inr, not-false,
}
use distributed_jbod.Common.Seen.{
  for_each, member, member-NotIn, NotIn-member, NotIn, IsIn, IsFresh, NotIn-IsIn, IsIn-append_left,
}
use distributed_jbod.Erasure.{Scheme, total_shards, contains}
use distributed_jbod.Cluster.{DeviceId}
use distributed_jbod.Record.{
  ShardLocation, missing_shard_index, duplicate_shard_index, duplicate_device, Checked, Seen,
  note_shard,
}
use mathlib.Core.List.{append-nil, append_assoc}

abbrev pub indices_of : List ShardLocation → List ℕ
indices_of shards = map (λ (s : ShardLocation). s.index) shards

abbrev pub devices_of : List ShardLocation → List DeviceId
devices_of shards = map (λ (s : ShardLocation). s.device) shards

-- `marks` has a mark for each index of `seen` and for no other.
pub record Marks (n : ℕ) (marks : List Bool) (seen : List ℕ) : Type 0 where
  pub size : length marks ≡ n
  pub marked : (j : ℕ) → j < n → get_or marks j false ≡ true → IsIn j seen
  pub unmarked : (j : ℕ) → j < n → get_or marks j false ≡ false → NotIn j seen

IsIn-snoc : (x y : ℕ) (xs : List ℕ) → x ≡ y → IsIn x (xs ++ y ∷ [])
IsIn-snoc x y [] e = inl (sym e)
IsIn-snoc x y (z ∷ xs) e = inr (IsIn-snoc x y xs e)

NotIn-snoc : (x y : ℕ) (xs : List ℕ) → NotIn x xs → ¬ (y ≡ x) → NotIn x (xs ++ y ∷ [])
NotIn-snoc x y [] n h = (h, tt)
NotIn-snoc x y (z ∷ xs) (m, n) h = (m, NotIn-snoc x y xs n h)

pub Marks-none : (n : ℕ) → Marks n (replicate n false) []
Marks-none n = record {
  size = length-replicate {A = Bool} n false;
  marked = λ j lt e.
      absurd (let wrong : true ≡ false = sym e ∙ get_or-replicate {A = Bool} n j false in cc);
  unmarked = λ j lt e. tt;
}

Marks-set :
    (n i : ℕ) (marks : List Bool) (seen : List ℕ)
    → Marks n marks seen
    → i < n
    → Marks n (set marks i true) (seen ++ i ∷ [])
Marks-set n i marks seen m lt = record {
  size = length-set marks i true ∙ m.size;
  marked = λ j less e. elim (Bool-cases (i == j)) [
    | inl same ↦ IsIn-snoc j i seen (sym ((==_iff i j).0 same))
    | inr other ↦
        let apart : i ≢ j =
          λ p. (let wrong : true ≡ false = sym ((==_iff i j).1 p) ∙ other in cc) in
        IsIn-append_left j seen (i ∷ [])
          (m.marked j less (sym (get_or-set_ne marks i j true false apart) ∙ e))
  ];
  unmarked = λ j less e. elim (Bool-cases (i == j)) [
    | inl same ↦
        let here = (==_iff i j).0 same in
        let wrong : true ≡ false =
          sym (get_or-set_self marks i true false (omega (arith, m.size, lt)))
          ∙ ap (λ x. get_or (set marks i true) x false) here
          ∙ e in
        absurd (cc)
    | inr other ↦
        let apart : i ≢ j =
          λ p. (let wrong : true ≡ false = sym ((==_iff i j).1 p) ∙ other in cc) in
        NotIn-snoc j i seen (m.unmarked j less (sym (get_or-set_ne marks i j true false apart) ∙ e))
          apart
  ];
}

-- One round.
note_shard-ok :
    (scheme : Scheme) (seen next : Seen) (shard : ShardLocation)
    → length seen.indices ≡ total_shards scheme
    → note_shard scheme seen shard ≡ ok next
    → (shard.index < total_shards scheme)
      × (get_or seen.indices shard.index false ≡ false)
      × NotIn shard.device seen.devices
      × (next ≡ record {
        indices = set seen.indices shard.index true;
        devices = seen.devices ++ shard.device ∷ [];
      })
unfolding note_shard
note_shard-ok scheme seen next shard size e =
    let after : Seen = record {
      indices = set seen.indices shard.index true;
      devices = seen.devices ++ shard.device ∷ [];
    } in
    let done : Checked Seen = ok after in
    let device : Checked Seen =
      fail_if (member ◌==◌ seen.devices shard.device) (duplicate_device shard.device) >> done in
    let fresh : Bool → Checked Seen =
      λ was. fail_if was (duplicate_shard_index shard.index) >> device in
    let (inside, e1) =
      fail_if-eq-ok (not (contains scheme shard.index)) (missing_shard_index shard.index)
        (expect (get_elem? seen.indices shard.index) >>= fresh) e in
    let lt : shard.index < total_shards scheme = ltb→lt _ _ (not-false _ inside) in
    let found = get_elem?-eq-get_or seen.indices shard.index false (omega (arith, size, lt)) in
    let here : fresh (get_or seen.indices shard.index false) ≡ ok next = rw found at e1 in
    let (was, e2) =
      fail_if-eq-ok (get_or seen.indices shard.index false) (duplicate_shard_index shard.index)
        device here in
    let (other, e3) =
      fail_if-eq-ok (member ◌==◌ seen.devices shard.device) (duplicate_device shard.device) done
        e2 in
    (lt, was, member-NotIn ◌==◌ ==_iff shard.device seen.devices other, cc)

note_shard_lem :
    (scheme : Scheme) (seen : Seen) (shard : ShardLocation)
    → length seen.indices ≡ total_shards scheme
    → shard.index < total_shards scheme
    → get_or seen.indices shard.index false ≡ false
    → NotIn shard.device seen.devices
    → note_shard scheme seen shard
      ≡ ok (record {
        indices = set seen.indices shard.index true;
        devices = seen.devices ++ shard.device ∷ [];
      })
unfolding note_shard
note_shard_lem scheme seen shard size lt was new = rw (
  lt→ltb _ _ lt,
  get_elem?-eq-get_or seen.indices shard.index false (omega (arith, size, lt)),
  was,
  NotIn-member ◌==◌ ==_iff shard.device seen.devices new,
)

abbrev pub IsInside : ℕ → ShardLocation → Type 0
IsInside n s = s.index < n

-- What the loop over `shards` found, after the indices `before`.
pub record Noted (n : ℕ) (before : List ℕ) (seen next : Seen) (shards : List ShardLocation)
    : Type 0 where
  pub inside : All (IsInside n) shards
  pub fresh_indices : IsFresh before (indices_of shards)
  pub fresh_devices : IsFresh seen.devices (devices_of shards)
  pub marks : Marks n next.indices (before ++ indices_of shards)

pub for_each-Noted :
    (scheme : Scheme) (before : List ℕ) (seen next : Seen) (shards : List ShardLocation)
    → Marks (total_shards scheme) seen.indices before
    → for_each (note_shard scheme) seen shards ≡ ok next
    → Noted (total_shards scheme) before seen next shards
unfolding for_each
for_each-Noted scheme before seen next [] m e =
    let same : next ≡ seen = cc in
    record {
      inside = tt;
      fresh_indices = tt;
      fresh_devices = tt;
      marks = rw (append-nil before, same) m;
    }
for_each-Noted scheme before seen next (shard ∷ shards) m e =
    let (mid, first, rest) =
      >>=-eq-ok (note_shard scheme seen shard) (λ s. for_each (note_shard scheme) s shards) e in
    let (lt, was, new, same) = note_shard-ok scheme seen mid shard m.size first in
    let marks = Marks-set (total_shards scheme) shard.index seen.indices before m lt in
    let n =
      for_each-Noted scheme (before ++ shard.index ∷ []) mid next shards
        (rw (ap (λ (x : Seen). x.indices) same) marks) rest in
    record {
      inside = (lt, n.inside);
      fresh_indices = (m.unmarked shard.index lt was, n.fresh_indices);
      fresh_devices = (new, rw (ap (λ (x : Seen). x.devices) same) at (n.fresh_devices));
      marks = rw (append_assoc before (shard.index ∷ []) (indices_of shards)) at (n.marks);
    }

pub for_each_noted :
    (scheme : Scheme) (before : List ℕ) (seen : Seen) (shards : List ShardLocation)
    → Marks (total_shards scheme) seen.indices before
    → All (IsInside (total_shards scheme)) shards
    → IsFresh before (indices_of shards)
    → IsFresh seen.devices (devices_of shards)
    → (next : Seen) × (for_each (note_shard scheme) seen shards ≡ ok next)
      × Marks (total_shards scheme) next.indices (before ++ indices_of shards)
unfolding for_each
for_each_noted scheme before seen [] m inside fi fd = (seen, refl, rw (append-nil before) m)
for_each_noted scheme before seen (shard ∷ shards) m (lt, inside) (ni, fi) (nd, fd) =
    let was : get_or seen.indices shard.index false ≡ false =
      elim (Bool-cases (get_or seen.indices shard.index false)) [
        | inl was_seen ↦
            absurd (NotIn-IsIn shard.index before ni (m.marked shard.index lt was_seen))
        | inr not_seen ↦ not_seen
      ] in
    let (next, runs, marks) =
      for_each_noted scheme (before ++ shard.index ∷ [])
        (record {
          indices = set seen.indices shard.index true;
          devices = seen.devices ++ shard.device ∷ [];
        })
        shards (Marks-set (total_shards scheme) shard.index seen.indices before m lt) inside fi
        fd in
    (
      next,
      rw (note_shard_lem scheme seen shard m.size lt was nd) runs,
      rw (append_assoc before (shard.index ∷ []) (indices_of shards)) at marks,
    )

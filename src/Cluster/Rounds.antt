-- ===== src/Cluster/Rounds.antt =====
-- The rounds of the loops in `ClusterDocument::validate`.
use distributed_jbod.Common.{
  ◌≡◌, refl, sym, ◌∙◌, ap, Bool, true, false, not, Option, none, some, List, [], ◌∷◌, ◌++◌, Outcome,
  ok, ◌>>◌, fail_if, map_err, map_err-eq-ok, fail_if-eq-ok, >>=-eq-ok, is_empty, ◌==◌, ==_iff,
  if◌then◌else◌, bytes_eq, bytes_eq_iff, All, arith,
}
use distributed_jbod.Common.Seen.{
  for_each, concat_map, member, push_new, IsIn, IsFresh, IsStep, for_each_sound, for_each_complete,
  push_new-ok, push_new_lem, member-IsIn, IsIn-member,
}
use mathlib.Core.List.{append-nil}
use distributed_jbod.Cluster.Names.{
  Text, Uuid, validate_label, IsLabel, validate_label-IsLabel, validate_label_lem, IsClusterName,
  validate_cluster_name-IsClusterName, validate_cluster_name_lem,
}
use distributed_jbod.Cluster.{
  NodeId, is_removed, NodeEntry, DeviceEntry, ClusterDocumentError, duplicate_node, no_addresses,
  bad_address, duplicate_address, duplicate_device, bad_label, bad_cluster_name, duplicate_label,
  unknown_node, note_node, note_device, note_address, note_addresses, note_label, note_device_label,
  note_node_label, check_name,
}

-- What the loops keep of a node or a device.
abbrev pub kept : Bool → Text → List Text
kept true x = []
kept false x = x ∷ []

abbrev pub addresses_in_use : NodeEntry → List Text
addresses_in_use n = concat_map (kept (is_removed n.state)) n.addresses

abbrev pub label_kept : Bool → Option Text → List Text
label_kept gone none = []
label_kept gone (some label) = kept gone label

abbrev pub device_label : DeviceEntry → List Text
device_label d = label_kept false d.label

abbrev pub node_label_in_use : NodeEntry → List Text
node_label_in_use n = label_kept (is_removed n.state) n.label

abbrev pub OptionHas : (Text → Type 0) → Option Text → Type 0
OptionHas P none = Unit {0}
OptionHas P (some x) = P x

module _ (parse_uuid : Text → Option Uuid) (parse_address : Text → Outcome Text (Unit {0})) where
  abbrev pub HasAddresses : NodeEntry → Type 0
  HasAddresses n = (is_empty n.addresses ≡ false) × All (λ a. parse_address a ≡ ok tt) n.addresses

  pub note_node-IsStep :
      IsStep (λ (n : NodeEntry). Unit {0}) (λ (n : NodeEntry). n.id ∷ []) note_node
  unfolding note_node
  note_node-IsStep = record {
    sound = λ seen next n e.
        let (new, same) = push_new-ok ◌==◌ ==_iff (duplicate_node n.id) seen next n.id e in
        (tt, (new, tt), same);
    complete = λ seen n u f. push_new_lem ◌==◌ ==_iff (duplicate_node n.id) seen n.id f.0;
  }

  pub note_device-IsStep :
      (ids : List NodeId)
      → IsStep
          (λ (d : DeviceEntry). IsIn d.node ids)
          (λ (d : DeviceEntry). d.id ∷ [])
          (note_device ids)
  unfolding note_device
  note_device-IsStep ids = record {
    sound = λ seen next d e.
        let unknown = not (member ◌==◌ ids d.node) in
        let (mid, pushed, rest) =
          >>=-eq-ok (push_new ◌==◌ (duplicate_device d.id) seen d.id)
            (λ n. fail_if unknown (unknown_node d.id d.node) >> ok n) e in
        let (new, same) = push_new-ok ◌==◌ ==_iff (duplicate_device d.id) seen mid d.id pushed in
        let (known, last) = fail_if-eq-ok unknown (unknown_node d.id d.node) (ok mid) rest in
        (member-IsIn ◌==◌ ==_iff d.node ids (ground arith), (new, tt), cc);
    complete = λ seen d i f. rw (
      push_new_lem ◌==◌ ==_iff (duplicate_device d.id) seen d.id f.0,
      IsIn-member ◌==◌ ==_iff d.node ids i,
    );
  }

  -- A name that is kept unless its node was removed.
  keep_lem :
      (gone : Bool) (e : ClusterDocumentError) (seen next : List Text) (x : Text)
      → (if gone then ok seen else push_new bytes_eq e seen x) ≡ ok next
      → IsFresh seen (kept gone x) × (next ≡ seen ++ kept gone x)
  keep_lem true e seen next x h =
      (tt, (let same : next ≡ seen = cc in same) ∙ sym (append-nil seen))
  keep_lem false e seen next x h =
      let (new, same) = push_new-ok bytes_eq bytes_eq_iff e seen next x h in ((new, tt), same)

  keep_ok :
      (gone : Bool) (e : ClusterDocumentError) (seen : List Text) (x : Text)
      → IsFresh seen (kept gone x)
      → (if gone then ok seen else push_new bytes_eq e seen x) ≡ ok (seen ++ kept gone x)
  keep_ok true e seen x f = ap ok (sym (append-nil seen))
  keep_ok false e seen x f = push_new_lem bytes_eq bytes_eq_iff e seen x f.0

  note_address-IsStep :
      (n : NodeEntry)
      → IsStep
          (λ (a : Text). parse_address a ≡ ok tt)
          (kept (is_removed n.state))
          (note_address parse_address n)
  unfolding note_address
  note_address-IsStep n = record {
    sound = λ seen next a e.
        let (u, parsed, rest) =
          >>=-eq-ok (map_err (bad_address n.id a) (parse_address a))
            (λ _.
              if is_removed n.state
              then ok seen
              else push_new bytes_eq (duplicate_address a) seen a)
            e in
        let (fresh, same) = keep_lem (is_removed n.state) (duplicate_address a) seen next a rest in
        (map_err-eq-ok (bad_address n.id a) (parse_address a) parsed, fresh, same);
    complete = λ seen a p f. rw p (keep_ok (is_removed n.state) (duplicate_address a) seen a f);
  }

  pub note_addresses-IsStep : IsStep HasAddresses addresses_in_use (note_addresses parse_address)
  unfolding note_addresses
  note_addresses-IsStep = record {
    sound = λ seen next n e.
        let (some_address, rest) =
          fail_if-eq-ok (is_empty n.addresses) (no_addresses n.id)
            (for_each (note_address parse_address n) seen n.addresses) e in
        let (all, fresh, same) =
          for_each_sound _ _ (note_address parse_address n) (note_address-IsStep n) seen next
            n.addresses rest in
        ((some_address, all), fresh, same);
    complete = λ seen n p f. rw p.0 (
        for_each_complete _ _ (note_address parse_address n) (note_address-IsStep n) seen
          n.addresses p.1 f);
  }

  note_label_sound :
      (gone : Bool) (seen next : List Text) (o : Option Text)
      → note_label parse_uuid gone seen o ≡ ok next
      → OptionHas (IsLabel parse_uuid bad_label) o
        × IsFresh seen (label_kept gone o)
        × (next ≡ seen ++ label_kept gone o)
  unfolding note_label
  note_label_sound gone seen next none e =
      (tt, tt, (let same : next ≡ seen = cc in same) ∙ sym (append-nil seen))
  note_label_sound gone seen next (some label) e =
      let (u, checked, rest) =
        >>=-eq-ok (validate_label parse_uuid bad_label label)
          (λ _. if gone then ok seen else push_new bytes_eq (duplicate_label label) seen label) e in
      let (fresh, same) = keep_lem gone (duplicate_label label) seen next label rest in
      (validate_label-IsLabel parse_uuid bad_label label checked, fresh, same)

  note_label_complete :
      (gone : Bool) (seen : List Text) (o : Option Text)
      → OptionHas (IsLabel parse_uuid bad_label) o
      → IsFresh seen (label_kept gone o)
      → note_label parse_uuid gone seen o ≡ ok (seen ++ label_kept gone o)
  unfolding note_label
  note_label_complete gone seen none p f = ap ok (sym (append-nil seen))
  note_label_complete gone seen (some label) p f =
      rw (validate_label_lem parse_uuid bad_label label p)
        (keep_ok gone (duplicate_label label) seen label f)

  pub note_device_label-IsStep :
      IsStep
        (λ (d : DeviceEntry). OptionHas (IsLabel parse_uuid bad_label) d.label)
        device_label
        (note_device_label parse_uuid)
  note_device_label-IsStep = record {
    sound = λ seen next d e. note_label_sound false seen next d.label e;
    complete = λ seen d p f. note_label_complete false seen d.label p f;
  }

  pub note_node_label-IsStep :
      IsStep
        (λ (n : NodeEntry). OptionHas (IsLabel parse_uuid bad_label) n.label)
        node_label_in_use
        (note_node_label parse_uuid)
  note_node_label-IsStep = record {
    sound = λ seen next n e. note_label_sound (is_removed n.state) seen next n.label e;
    complete = λ seen n p f. note_label_complete (is_removed n.state) seen n.label p f;
  }

  pub check_name_sound :
      (name : Option Text)
      → check_name name ≡ ok tt
      → OptionHas (IsClusterName bad_cluster_name) name
  check_name_sound none e = tt
  check_name_sound (some name) e = validate_cluster_name-IsClusterName bad_cluster_name name e

  pub check_name_complete :
      (name : Option Text)
      → OptionHas (IsClusterName bad_cluster_name) name
      → check_name name ≡ ok tt
  check_name_complete none p = refl
  check_name_complete (some name) p = validate_cluster_name_lem bad_cluster_name name p

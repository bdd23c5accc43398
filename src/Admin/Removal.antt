-- ===== src/Admin/Removal.antt =====
-- Removing a node from a valid document leaves a valid document.
use distributed_jbod.Common.{
  ◌≡◌, refl, sym, ap, ap₂, true, false, Option, none, some, List, [], ◌∷◌, ◌++◌, map, Outcome, All,
  All-append, All-split, ◌==◌, Bool-cases, inl, inr, ◌⊎◌,
}
use distributed_jbod.Common.Seen.{concat_map, IsIn, IsUnique, IsUnique-append_right}
use distributed_jbod.Cluster.Names.{Text, Uuid, IsLabel}
use distributed_jbod.Cluster.{NodeId, NodeEntry, DeviceEntry, ClusterDocument, bad_label}
use distributed_jbod.Cluster.Rounds.{
  kept, addresses_in_use, label_kept, device_label, node_label_in_use, OptionHas, HasAddresses,
}
use distributed_jbod.Cluster.Valid.{IsValid}
use mathlib.Core.List.{append_assoc}
use distributed_jbod.Admin.{bury_node, bury_device, document_with_node_removed}

drop_middle : (xs ys zs : List Text) → IsUnique (xs ++ (ys ++ zs)) → IsUnique (xs ++ zs)
drop_middle [] ys zs u = IsUnique-append_right ys zs u
drop_middle (x ∷ xs) ys zs (n, u) =
    let (front, rest) = All-split (λ z. ¬ (z ≡ x)) xs (ys ++ zs) n in
    (All-append _ xs zs front (All-split (λ z. ¬ (z ≡ x)) ys zs rest).1, drop_middle xs ys zs u)

module _ {X : Type 0} (old new : X → List Text)
    (fewer : (x : X) → (new x ≡ old x) ⊎ (new x ≡ [])) where
  fewer-IsUnique :
      (front : List Text) (xs : List X)
      → IsUnique (front ++ concat_map old xs)
      → IsUnique (front ++ concat_map new xs)
  fewer-IsUnique front [] u = u
  fewer-IsUnique front (x ∷ xs) u = elim (fewer x) [
    | inl same ↦
        rw (same, sym (append_assoc front (old x) (concat_map new xs)))
          (fewer-IsUnique (front ++ old x) xs
            (rw (append_assoc front (old x) (concat_map old xs)) u))
    | inr gone ↦ rw gone (fewer-IsUnique front xs (drop_middle front (old x) (concat_map old xs) u))
  ]

concat_map-map :
    {X : Type 0} (f : X → List Text) (g : X → X) (xs : List X)
    → concat_map f (map g xs) ≡ concat_map (λ x. f (g x)) xs
concat_map-map f g [] = refl
concat_map-map f g (x ∷ xs) = ap (◌++◌ (f (g x))) (concat_map-map f g xs)

map-same :
    {X : Type 0} {A : Type 0} (f : X → A) (g : X → X)
    → ((x : X) → f (g x) ≡ f x)
    → (xs : List X) → map f (map g xs) ≡ map f xs
map-same f g h [] = refl
map-same f g h (x ∷ xs) = ap₂ ◌∷◌ (h x) (map-same f g h xs)

All-mapped :
    {X : Type 0} (P : X → Type 0) (g : X → X)
    → ((x : X) → P x → P (g x))
    → (xs : List X) → All P xs
    → All P (map g xs)
All-mapped P g h [] a = tt
All-mapped P g h (x ∷ xs) (p, a) = (h x p, All-mapped P g h xs a)

kept_all : (xs : List Text) → concat_map (kept true) xs ≡ []
kept_all [] = refl
kept_all (x ∷ xs) = kept_all xs

gone_label : (o : Option Text) → label_kept true o ≡ []
gone_label none = refl
gone_label (some l) = refl

module _ (id : NodeId) where
  bury_node-id : (n : NodeEntry) → (bury_node id n).id ≡ n.id
  bury_node-id n = elim (Bool-cases (n.id == id)) [ inl here ↦ rw here | inr other ↦ rw other ]

  bury_node_fewer :
      (n : NodeEntry)
      → (addresses_in_use (bury_node id n) ≡ addresses_in_use n)
        ⊎ (addresses_in_use (bury_node id n) ≡ [])
  bury_node_fewer n = elim (Bool-cases (n.id == id)) [
    | inl here ↦ inr (rw here (kept_all n.addresses))
    | inr other ↦ inl (rw other)
  ]

  bury_label_fewer :
      (n : NodeEntry)
      → (node_label_in_use (bury_node id n) ≡ node_label_in_use n)
        ⊎ (node_label_in_use (bury_node id n) ≡ [])
  bury_label_fewer n = elim (Bool-cases (n.id == id)) [
    | inl here ↦ inr (rw here (gone_label n.label))
    | inr other ↦ inl (rw other)
  ]

  bury_node-label : (n : NodeEntry) → (bury_node id n).label ≡ n.label
  bury_node-label n = elim (Bool-cases (n.id == id)) [ inl here ↦ rw here | inr other ↦ rw other ]

  bury_node-addresses : (n : NodeEntry) → (bury_node id n).addresses ≡ n.addresses
  bury_node-addresses n = elim (Bool-cases (n.id == id)) [
    | inl here ↦ rw here
    | inr other ↦ rw other
  ]

  bury_device-id : (e : DeviceEntry) → (bury_device id e).id ≡ e.id
  bury_device-id e = elim (Bool-cases (e.node == id)) [ inl here ↦ rw here | inr other ↦ rw other ]

  bury_device-node : (e : DeviceEntry) → (bury_device id e).node ≡ e.node
  bury_device-node e = elim (Bool-cases (e.node == id)) [
    | inl here ↦ rw here
    | inr other ↦ rw other
  ]

  bury_device-label : (e : DeviceEntry) → (bury_device id e).label ≡ e.label
  bury_device-label e = elim (Bool-cases (e.node == id)) [
    | inl here ↦ rw here
    | inr other ↦ rw other
  ]

  device_labels-same :
      (es : List DeviceEntry)
      → concat_map device_label (map (bury_device id) es) ≡ concat_map device_label es
  device_labels-same [] = refl
  device_labels-same (e ∷ es) =
      ap₂ ◌++◌ (ap (label_kept false) (bury_device-label e)) (device_labels-same es)

module _ (parse_uuid : Text → Option Uuid) (parse_address : Text → Outcome Text (Unit {0})) where
  -- Removing a node keeps a document valid: if a document is valid then so is the one in which a node and
  -- its devices are marked removed.
  pub document_with_node_removed-IsValid :
      (d : ClusterDocument) (id : NodeId)
      → IsValid parse_uuid parse_address d
      → IsValid parse_uuid parse_address (document_with_node_removed d id)
  document_with_node_removed-IsValid d id v =
      let numbers = v.numbers in
      let ids = map-same (λ (n : NodeEntry). n.id) (bury_node id) (bury_node-id id) d.nodes in
      record {
        numbers = record {
          cluster_id = numbers.cluster_id;
          scheme = numbers.scheme;
          block_aligned = numbers.block_aligned;
          block_at_least = numbers.block_at_least;
          block_at_most = numbers.block_at_most;
          headroom = numbers.headroom;
          some_key = numbers.some_key;
          key_limit = numbers.key_limit;
          some_object = numbers.some_object;
          some_metadata = numbers.some_metadata;
          metadata_limit = numbers.metadata_limit;
        };
        unique_nodes = rw ids v.unique_nodes;
        addresses =
            All-mapped (HasAddresses parse_uuid parse_address) (bury_node id)
              (λ n h. rw (bury_node-addresses id n) h) d.nodes v.addresses;
        unique_addresses = rw (concat_map-map addresses_in_use (bury_node id) d.nodes) (
            fewer-IsUnique addresses_in_use (λ n. addresses_in_use (bury_node id n))
              (bury_node_fewer id) [] d.nodes v.unique_addresses);
        unique_devices =
            rw (map-same (λ (e : DeviceEntry). e.id) (bury_device id) (bury_device-id id) d.devices)
              v.unique_devices;
        known_nodes = rw ids (
            All-mapped (λ (e : DeviceEntry). IsIn e.node (map (λ (n : NodeEntry). n.id) d.nodes))
              (bury_device id) (λ e h. rw (bury_device-node id e) h) d.devices v.known_nodes);
        device_labels =
            All-mapped (λ (e : DeviceEntry). OptionHas (IsLabel parse_uuid bad_label) e.label)
              (bury_device id) (λ e h. rw (bury_device-label id e) h) d.devices v.device_labels;
        unique_device_labels = rw (device_labels-same id d.devices) v.unique_device_labels;
        name = v.name;
        node_labels =
            All-mapped (λ (n : NodeEntry). OptionHas (IsLabel parse_uuid bad_label) n.label)
              (bury_node id) (λ n h. rw (bury_node-label id n) h) d.nodes v.node_labels;
        unique_node_labels = rw (concat_map-map node_label_in_use (bury_node id) d.nodes) (
            fewer-IsUnique node_label_in_use (λ n. node_label_in_use (bury_node id n))
              (bury_label_fewer id) [] d.nodes v.unique_node_labels);
      }

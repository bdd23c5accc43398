-- ===== src/Cluster/Lookup.antt =====
-- The lookups in a cluster document, by id, by label and by either.
use distributed_jbod.Common.{
  ℕ, ◌≡◌, refl, sym, ◌∙◌, Bool, true, false, not, ◌&&◌, Option, none, some, List, [], ◌∷◌,
  All-get_elem?, Outcome, get_elem?, ◌==◌, ==_iff, bytes_eq, bytes_eq_iff, ◌↔◌, ◌⊎◌, inl, inr,
}
use distributed_jbod.Common.Seen.{concat_map-single, IsIn}
use distributed_jbod.Common.Find.{find, filter, find-filter, find_unique}
use mathlib.Core.Option.{some-injective}
use distributed_jbod.Cluster.Names.{Text, Uuid, IsLabel}
use distributed_jbod.Cluster.{
  NodeId, DeviceId, NodeEntry, DeviceEntry, is_removed, bad_label, ClusterDocument,
}
use distributed_jbod.Cluster.Valid.{IsValid}
use distributed_jbod.Cluster.Rounds.{label_kept, OptionHas, device_label, node_label_in_use}

abbrev has_label : Text → Option Text → Bool
has_label text none = false
has_label text (some label) = bytes_eq label text

-- `ClusterDocument::node` and `device`.
unfoldable pub node : ClusterDocument → NodeId → Option NodeEntry
node d id = find (λ (n : NodeEntry). n.id == id) d.nodes

unfoldable pub device : ClusterDocument → DeviceId → Option DeviceEntry
device d id = find (λ (e : DeviceEntry). e.id == id) d.devices

abbrev pub active_nodes : ClusterDocument → List NodeEntry
active_nodes d = filter (λ (n : NodeEntry). not (is_removed n.state)) d.nodes

unfoldable pub node_by_label : ClusterDocument → Text → Option NodeEntry
node_by_label d label = find (λ (n : NodeEntry). has_label label n.label) (active_nodes d)

unfoldable pub device_by_label : ClusterDocument → Text → Option DeviceEntry
device_by_label d label = find (λ (e : DeviceEntry). has_label label e.label) d.devices

module _ (parse_uuid : Text → Option Uuid) where
  unfoldable pub node_by_name : ClusterDocument → Text → Option NodeEntry
  node_by_name d name = elim (parse_uuid name) [ some id ↦ node d id | none ↦ node_by_label d name ]

  unfoldable pub device_by_name : ClusterDocument → Text → Option DeviceEntry
  device_by_name d name = elim (parse_uuid name) [
    | some id ↦ device d id
    | none ↦ device_by_label d name
  ]

has_label_iff :
    (text : Text) (o : Option Text) → (has_label text o ≡ true) ↔ IsIn text (label_kept false o)
has_label_iff text none = (λ e. absurd (cc), λ i. absurd i)
has_label_iff text (some label) = (λ e. inl ((bytes_eq_iff label text).0 e), label_is label text)
  where
    label_is : (l t : Text) → IsIn t (l ∷ []) → bytes_eq l t ≡ true
    label_is l t (inl e) = (bytes_eq_iff l t).1 e
    label_is l t (inr i) = absurd i

id_iff : (a b : ℕ) → ((b == a) ≡ true) ↔ IsIn a (b ∷ [])
id_iff a b = (λ e. inl ((==_iff b a).0 e), id_is a b)
  where
    id_is : (x y : ℕ) → IsIn x (y ∷ []) → (y == x) ≡ true
    id_is x y (inl e) = (==_iff y x).1 e
    id_is x y (inr i) = absurd i

-- A label in use, of a node that is or is not removed.
active_label_iff :
    (text : Text) (gone : Bool) (o : Option Text)
    → ((not gone && has_label text o) ≡ true) ↔ IsIn text (label_kept gone o)
active_label_iff text false o = has_label_iff text o
active_label_iff text true none = (λ e. absurd (cc), λ i. absurd i)
active_label_iff text true (some label) = (λ e. absurd (cc), λ i. absurd i)

module _ (parse_uuid : Text → Option Uuid) (parse_address : Text → Outcome Text (Unit {0}))
    (d : ClusterDocument) (v : IsValid parse_uuid parse_address d) where
  device-listed :
      (i : ℕ) (e : DeviceEntry) → get_elem? d.devices i ≡ some e → device d e.id ≡ some e
  unfolding device
  device-listed i e h =
      find_unique (λ (x : DeviceEntry). x.id ∷ []) (λ id (x : DeviceEntry). x.id == id)
        (λ id x. id_iff id x.id) e.id e d.devices i
        (rw (concat_map-single (λ (x : DeviceEntry). x.id) d.devices) v.unique_devices) h (inl refl)

  device_by_label-listed :
      (i : ℕ) (e : DeviceEntry) (label : Text)
      → get_elem? d.devices i ≡ some e
      → e.label ≡ some label
      → device_by_label d label ≡ some e
  unfolding device_by_label
  device_by_label-listed i e label h named =
      find_unique device_label (λ text (x : DeviceEntry). has_label text x.label)
        (λ text x. has_label_iff text x.label) label e d.devices i v.unique_device_labels h
        (rw named (inl refl))

  node-listed : (i : ℕ) (n : NodeEntry) → get_elem? d.nodes i ≡ some n → node d n.id ≡ some n
  unfolding node
  node-listed i n h =
      find_unique (λ (x : NodeEntry). x.id ∷ []) (λ id (x : NodeEntry). x.id == id)
        (λ id x. id_iff id x.id) n.id n d.nodes i
        (rw (concat_map-single (λ (x : NodeEntry). x.id) d.nodes) v.unique_nodes) h (inl refl)

  node_by_label-listed :
      (i : ℕ) (n : NodeEntry) (label : Text)
      → get_elem? d.nodes i ≡ some n
      → is_removed n.state ≡ false
      → n.label ≡ some label
      → node_by_label d label ≡ some n
  unfolding node_by_label
  node_by_label-listed i n label h alive named =
      find-filter (λ (x : NodeEntry). has_label label x.label)
        (λ (x : NodeEntry). not (is_removed x.state)) d.nodes
      ∙ find_unique node_label_in_use
          (λ text (x : NodeEntry). not (is_removed x.state) && has_label text x.label)
          (λ text x. active_label_iff text (is_removed x.state) x.label) label n d.nodes i
          v.unique_node_labels h (rw (alive, named) (inl refl))

  label_no_uuid :
      (o : Option Text) (label : Text)
      → OptionHas (IsLabel parse_uuid bad_label) o
      → o ≡ some label
      → parse_uuid label ≡ none
  label_no_uuid none label p e = absurd (cc)
  label_no_uuid (some l) label p e = rw (sym (some-injective l label e)) p.no_uuid

  -- Device names are unambiguous. In a valid document `device_by_name` finds a listed device by its id
  -- and by its label: the answer is that very entry.
  pub device_by_name-listed :
      (i : ℕ) (e : DeviceEntry) (name : Text)
      → get_elem? d.devices i ≡ some e
      → (parse_uuid name ≡ some e.id) ⊎ (e.label ≡ some name)
      → device_by_name parse_uuid d name ≡ some e
  unfolding device_by_name
  device_by_name-listed i e name h (inl p) = rw (device_by_name, p) (device-listed i e h)
  device_by_name-listed i e name h (inr named) =
      rw
        (
          device_by_name,
          label_no_uuid e.label name (All-get_elem? _ d.devices i e v.device_labels h) named,
        )
        (device_by_label-listed i e name h named)

  -- Node names are unambiguous. In a valid document `node_by_name` finds a listed node by its id, also a
  -- removed one, and a node that was not removed by its label: the answer is that very entry.
  pub node_by_name-listed :
      (i : ℕ) (n : NodeEntry) (name : Text)
      → get_elem? d.nodes i ≡ some n
      → (parse_uuid name ≡ some n.id) ⊎ ((is_removed n.state ≡ false) × (n.label ≡ some name))
      → node_by_name parse_uuid d name ≡ some n
  unfolding node_by_name
  node_by_name-listed i n name h (inl p) = rw (node_by_name, p) (node-listed i n h)
  node_by_name-listed i n name h (inr (alive, named)) =
      rw
        (
          node_by_name,
          label_no_uuid n.label name (All-get_elem? _ d.nodes i n v.node_labels h) named,
        )
        (node_by_label-listed i n name h alive named)

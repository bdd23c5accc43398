-- ===== src/Cluster/Valid.antt =====
-- `ClusterDocument::validate` against a description of the documents that it should accept.
use distributed_jbod.Common.{
  ◌≡◌, ◌∙◌, Option, List, [], Outcome, ok, ◌>>=◌, ◌>>◌, >>=-eq-ok, map, All, All-of, ◌↔◌,
}
use distributed_jbod.Common.Seen.{
  for_each, concat_map, concat_map-single, IsIn, IsUnique, IsFresh, IsFresh-IsUnique,
  IsUnique-IsFresh, for_each_sound, for_each_complete, NotIn-nil,
}
use distributed_jbod.Cluster.Names.{Text, Uuid, IsLabel, IsClusterName}
use distributed_jbod.Cluster.{
  NodeId, DeviceId, NodeEntry, DeviceEntry, ClusterDocument, bad_label, bad_cluster_name, Checked,
  check_numbers, note_node, note_device, note_addresses, note_device_label, note_node_label,
  check_name, validate,
}
use distributed_jbod.Cluster.Numbers.{
  HasValidNumbers, check_numbers-HasValidNumbers, check_numbers_lem,
}
use distributed_jbod.Cluster.Rounds.{
  addresses_in_use, device_label, node_label_in_use, OptionHas, HasAddresses, note_node-IsStep,
  note_device-IsStep, note_addresses-IsStep, note_device_label-IsStep, note_node_label-IsStep,
  check_name_sound, check_name_complete,
}

module _ (parse_uuid : Text → Option Uuid) (parse_address : Text → Outcome Text (Unit {0})) where
  -- The documents that a node may hold.
  pub record IsValid (d : ClusterDocument) : Type 0 where
    pub numbers : HasValidNumbers d
    pub unique_nodes : IsUnique (map (λ (n : NodeEntry). n.id) d.nodes)
    pub addresses : All (HasAddresses parse_uuid parse_address) d.nodes
    pub unique_addresses : IsUnique (concat_map addresses_in_use d.nodes)
    pub unique_devices : IsUnique (map (λ (e : DeviceEntry). e.id) d.devices)
    pub known_nodes :
        All (λ (e : DeviceEntry). IsIn e.node (map (λ (n : NodeEntry). n.id) d.nodes)) d.devices
    pub device_labels :
        All (λ (e : DeviceEntry). OptionHas (IsLabel parse_uuid bad_label) e.label) d.devices
    pub unique_device_labels : IsUnique (concat_map device_label d.devices)
    pub name : OptionHas (IsClusterName bad_cluster_name) d.name
    pub node_labels :
        All (λ (n : NodeEntry). OptionHas (IsLabel parse_uuid bad_label) n.label) d.nodes
    pub unique_node_labels : IsUnique (concat_map node_label_in_use d.nodes)

  IsUnique-new : (xs : List Text) → IsFresh [] xs → IsUnique xs
  IsUnique-new xs f = (IsFresh-IsUnique [] xs f).0

  pub validate-IsValid :
      (d : ClusterDocument) → validate parse_uuid parse_address d ≡ ok tt → IsValid d
  unfolding validate
  validate-IsValid d e =
      let done : List Text → Checked (Unit {0}) = λ _. ok tt in
      let named : List Text → Checked (Unit {0}) =
        λ _. check_name d.name >> (for_each (note_node_label parse_uuid) [] d.nodes >>= done) in
      let labels : List DeviceId → Checked (Unit {0}) =
        λ _. for_each (note_device_label parse_uuid) [] d.devices >>= named in
      let devices : List NodeId → List Text → Checked (Unit {0}) =
        λ ids _. for_each (note_device ids) [] d.devices >>= labels in
      let addresses : List NodeId → Checked (Unit {0}) =
        λ ids. for_each (note_addresses parse_address) [] d.nodes >>= devices ids in
      let (u, e1, r1) =
        >>=-eq-ok (check_numbers d) (λ _. for_each note_node [] d.nodes >>= addresses) e in
      let (ids, e2, r2) = >>=-eq-ok (for_each note_node [] d.nodes) addresses r1 in
      let (used, e3, r3) =
        >>=-eq-ok (for_each (note_addresses parse_address) [] d.nodes) (devices ids) r2 in
      let (device_ids, e4, r4) = >>=-eq-ok (for_each (note_device ids) [] d.devices) labels r3 in
      let (ls, e5, r5) =
        >>=-eq-ok (for_each (note_device_label parse_uuid) [] d.devices) named r4 in
      let (v, e6, r6) =
        >>=-eq-ok (check_name d.name)
          (λ _. for_each (note_node_label parse_uuid) [] d.nodes >>= done) r5 in
      let (node_labels, e7, r7) =
        >>=-eq-ok (for_each (note_node_label parse_uuid) [] d.nodes) done r6 in
      let (x2, nodes_fresh, nodes_are) =
        for_each_sound _ _ note_node (note_node-IsStep parse_uuid parse_address) [] ids d.nodes
          e2 in
      let (listed, used_fresh, y3) =
        for_each_sound _ _ (note_addresses parse_address)
          (note_addresses-IsStep parse_uuid parse_address) [] used d.nodes e3 in
      let (known, devices_fresh, y4) =
        for_each_sound _ _ (note_device ids) (note_device-IsStep parse_uuid parse_address ids) []
          device_ids d.devices e4 in
      let (device_labels, labels_fresh, y5) =
        for_each_sound _ _ (note_device_label parse_uuid)
          (note_device_label-IsStep parse_uuid parse_address) [] ls d.devices e5 in
      let (names, names_fresh, y7) =
        for_each_sound _ _ (note_node_label parse_uuid)
          (note_node_label-IsStep parse_uuid parse_address) [] node_labels d.nodes e7 in
      let node_ids = concat_map-single (λ (n : NodeEntry). n.id) d.nodes in
      record {
        numbers = check_numbers-HasValidNumbers d e1;
        unique_nodes = rw node_ids at ((IsFresh-IsUnique [] _ nodes_fresh).0);
        addresses = listed;
        unique_addresses = IsUnique-new _ used_fresh;
        unique_devices =
            rw (concat_map-single (λ (x : DeviceEntry). x.id) d.devices) at
              ((IsFresh-IsUnique [] _ devices_fresh).0);
        known_nodes = rw (nodes_are ∙ node_ids) at known;
        device_labels = device_labels;
        unique_device_labels = IsUnique-new _ labels_fresh;
        name = check_name_sound parse_uuid parse_address d.name e6;
        node_labels = names;
        unique_node_labels = IsUnique-new _ names_fresh;
      }

  pub IsValid-validate :
      (d : ClusterDocument) → IsValid d → validate parse_uuid parse_address d ≡ ok tt
  unfolding validate
  IsValid-validate d v =
      let ids = concat_map-single (λ (n : NodeEntry). n.id) d.nodes in
      let device_ids = concat_map-single (λ (x : DeviceEntry). x.id) d.devices in
      rw (
        check_numbers_lem d v.numbers,
        for_each_complete _ _ note_node (note_node-IsStep parse_uuid parse_address) [] d.nodes
            (All-of _ d.nodes (λ n. tt))
            (IsUnique-IsFresh [] _ (rw ids v.unique_nodes) (NotIn-nil _)),
        for_each_complete _ _ (note_addresses parse_address)
            (note_addresses-IsStep parse_uuid parse_address) [] d.nodes v.addresses
            (IsUnique-IsFresh [] _ v.unique_addresses (NotIn-nil _)),
        ids,
        for_each_complete _ _ (note_device (map (λ (n : NodeEntry). n.id) d.nodes))
            (note_device-IsStep parse_uuid parse_address (map (λ (n : NodeEntry). n.id) d.nodes)) []
            d.devices v.known_nodes
            (IsUnique-IsFresh [] _ (rw device_ids v.unique_devices) (NotIn-nil _)),
        for_each_complete _ _ (note_device_label parse_uuid)
            (note_device_label-IsStep parse_uuid parse_address) [] d.devices v.device_labels
            (IsUnique-IsFresh [] _ v.unique_device_labels (NotIn-nil _)),
        check_name_complete parse_uuid parse_address d.name v.name,
        for_each_complete _ _ (note_node_label parse_uuid)
            (note_node_label-IsStep parse_uuid parse_address) [] d.nodes v.node_labels
            (IsUnique-IsFresh [] _ v.unique_node_labels (NotIn-nil _)),
      )

  -- `validate` accepts exactly the valid documents. Those have a cluster id that is not nil, an allowed
  -- scheme and numbers within their limits, no two nodes or devices of one id, one or more addresses for
  -- every node that all parse, no address twice among those of the active nodes, devices on nodes of the
  -- document only, usable labels that no two devices and no two active nodes share, and a usable name, if
  -- any.
  pub document-validate_lem :
      (d : ClusterDocument) → (validate parse_uuid parse_address d ≡ ok tt) ↔ IsValid d
  document-validate_lem d = (validate-IsValid d, IsValid-validate d)

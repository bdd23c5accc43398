-- ===== src/Cluster.antt =====
-- crates/djbod-core/src/cluster.rs: the cluster document that every node holds, its sanity checks and
-- the lookups in it. Parsing a UUID and an IP address with a port is `Uuid::parse_str` and the standard
-- library's `SocketAddr`: parameters.
pub mod Names
pub mod Numbers
pub mod Rounds
pub mod Valid
pub mod Lookup
mod Runs
use distributed_jbod.Common.{
  ℕ, ◌+◌, ◌*◌, ◌%◌, ◌^◌, Bool, true, false, not, ◌&&◌, ◌||◌, Option, none, some, List, [], ◌∷◌,
  ◌++◌, Outcome, ok, err, panic, ◌>>=◌, ◌>>◌, fail_if, map_err, is_empty, leb, ltb, ◌==◌,
  if◌then◌else◌, bytes_eq, map, is_multiple_of,
}
use distributed_jbod.Common.Seen.{for_each, member, push_new}
use distributed_jbod.Erasure.{Scheme, SchemeError, new_scheme}
use distributed_jbod.Cluster.Names.{Text, Uuid, BadReason, validate_label, validate_cluster_name}

abbrev pub min_block_size_bytes : ℕ
min_block_size_bytes = 64 * 1024

abbrev pub max_block_size_bytes : ℕ
max_block_size_bytes = 64 * 1024 * 1024

abbrev pub limit_max_key_bytes : ℕ
limit_max_key_bytes = 1024 * 1024

abbrev pub limit_max_user_metadata_bytes : ℕ
limit_max_user_metadata_bytes = 48 * 1024 * 1024

abbrev pub NodeId : Type 0
NodeId = Uuid

abbrev pub DeviceId : Type 0
DeviceId = Uuid

pub data NodeState : Type 0 where
  active : NodeState
  removed : NodeState

abbrev pub is_removed : NodeState → Bool
is_removed active = false
is_removed removed = true

pub record NodeEntry : Type 0 where
  pub id : NodeId
  pub addresses : List Text
  pub label : Option Text
  pub state : NodeState

pub data Transport : Type 0 where
  plain : Transport
  tls_optional : Transport
  tls : Transport

pub data DeviceState : Type 0 where
  active : DeviceState
  draining : DeviceState
  removed : DeviceState

pub record DeviceEntry : Type 0 where
  pub id : DeviceId
  pub node : NodeId
  pub state : DeviceState
  pub label : Option Text

pub data IndependenceLevel : Type 0 where
  device : IndependenceLevel

-- An `f64`. Every finite value is a whole number of times `2 ^ -1074`.
pub data F64 : Type 0 where
  nan : F64
  infinite : (negative : Bool) → F64
  finite : (negative : Bool) (units : ℕ) → F64

pub record ClusterDocument : Type 0 where
  pub version : ℕ
  pub cluster_id : Uuid
  pub name : Option Text
  pub k : ℕ
  pub m : ℕ
  pub block_size : ℕ
  pub independence_level : IndependenceLevel
  pub headroom : F64
  pub max_key_bytes : ℕ
  pub max_object_bytes : ℕ
  pub max_user_metadata_bytes : ℕ
  pub transport : Transport
  pub nodes : List NodeEntry
  pub devices : List DeviceEntry

pub data ClusterDocumentError : Type 0 where
  invalid_scheme : SchemeError → ClusterDocumentError
  bad_block_size : ℕ → ClusterDocumentError
  bad_headroom : ClusterDocumentError
  bad_key_limit : ℕ → ClusterDocumentError
  bad_object_limit : ClusterDocumentError
  bad_metadata_limit : ℕ → ClusterDocumentError
  duplicate_node : NodeId → ClusterDocumentError
  no_addresses : NodeId → ClusterDocumentError
  bad_address : (node : NodeId) (address reason : Text) → ClusterDocumentError
  duplicate_address : Text → ClusterDocumentError
  duplicate_device : DeviceId → ClusterDocumentError
  bad_label : Text → BadReason → ClusterDocumentError
  nil_cluster_id : ClusterDocumentError
  bad_cluster_name : Text → BadReason → ClusterDocumentError
  duplicate_label : Text → ClusterDocumentError
  unknown_node : (device : DeviceId) (node : NodeId) → ClusterDocumentError

-- `(0.0..=0.5).contains(&x) && !x.is_nan()`; 0.5 is `2 ^ 1073` units, and -0.0 is not less than 0.0.
abbrev pub in_half : F64 → Bool
in_half nan = false
in_half (infinite negative) = false
in_half (finite true units) = units == 0
in_half (finite false units) = leb units (2 ^ 1073)

abbrev pub Checked : Type 0 → Type 0
Checked A = Outcome ClusterDocumentError A

-- The checks on the fields that are numbers.
unfoldable pub check_numbers : ClusterDocument → Checked (Unit {0})
check_numbers d = do
  fail_if (d.cluster_id == 0) nil_cluster_id
  scheme ← map_err invalid_scheme (new_scheme d.k d.m)
  fail_if
      (not (is_multiple_of d.block_size 4096)
        || ltb d.block_size min_block_size_bytes
        || ltb max_block_size_bytes d.block_size)
      (bad_block_size d.block_size)
  fail_if (not (in_half d.headroom)) bad_headroom
  fail_if (not (leb 1 d.max_key_bytes && leb d.max_key_bytes limit_max_key_bytes))
      (bad_key_limit d.max_key_bytes)
  fail_if (d.max_object_bytes == 0) bad_object_limit
  fail_if
      (not (
        leb 1 d.max_user_metadata_bytes
        && leb d.max_user_metadata_bytes limit_max_user_metadata_bytes))
      (bad_metadata_limit d.max_user_metadata_bytes)
  ok tt

-- One round of the loop over the node ids.
unfoldable pub note_node : List NodeId → NodeEntry → Checked (List NodeId)
note_node ids n = push_new ◌==◌ (duplicate_node n.id) ids n.id

-- One round of the loop over the devices, given the ids of all nodes.
unfoldable pub note_device : List NodeId → List DeviceId → DeviceEntry → Checked (List DeviceId)
note_device node_ids ids d = do
  next ← push_new ◌==◌ (duplicate_device d.id) ids d.id
  fail_if (not (member ◌==◌ node_ids d.node)) (unknown_node d.id d.node)
  ok next

module _ (parse_address : Text → Outcome Text (Unit {0})) where
  -- One address of a node. Those of a removed node are parsed and not kept.
  unfoldable pub note_address : NodeEntry → List Text → Text → Checked (List Text)
  note_address n addresses address = do
    map_err (bad_address n.id address) (parse_address address)
    (if is_removed n.state
        then ok addresses
        else push_new bytes_eq (duplicate_address address) addresses address)

  unfoldable pub note_addresses : List Text → NodeEntry → Checked (List Text)
  note_addresses addresses n = do
    fail_if (is_empty n.addresses) (no_addresses n.id)
    for_each (note_address n) addresses n.addresses

module _ (parse_uuid : Text → Option Uuid) where
  -- A label, where it is `gone` with its removed node: it is checked and not kept.
  unfoldable pub note_label : Bool → List Text → Option Text → Checked (List Text)
  note_label gone labels none = ok labels
  note_label gone labels (some label) =
      validate_label parse_uuid bad_label label
      >> (if gone then ok labels else push_new bytes_eq (duplicate_label label) labels label)

  abbrev pub note_device_label : List Text → DeviceEntry → Checked (List Text)
  note_device_label labels d = note_label false labels d.label

  abbrev pub note_node_label : List Text → NodeEntry → Checked (List Text)
  note_node_label labels n = note_label (is_removed n.state) labels n.label

abbrev pub check_name : Option Text → Checked (Unit {0})
check_name none = ok tt
check_name (some name) = validate_cluster_name bad_cluster_name name

module _ (parse_uuid : Text → Option Uuid) (parse_address : Text → Outcome Text (Unit {0})) where
  unfoldable pub validate : ClusterDocument → Checked (Unit {0})
  validate d = do
    check_numbers d
    node_ids ← for_each note_node [] d.nodes
    addresses ← for_each (note_addresses parse_address) [] d.nodes
    device_ids ← for_each (note_device node_ids) [] d.devices
    labels ← for_each (note_device_label parse_uuid) [] d.devices
    check_name d.name
    node_labels ← for_each (note_node_label parse_uuid) [] d.nodes
    ok tt

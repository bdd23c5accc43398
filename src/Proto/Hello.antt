-- ===== src/Proto/Hello.antt =====
-- crates/djbod-proto/src/handshake.rs: the `Hello` that opens a connection, and the checks on a peer's.
use distributed_jbod.Common.{
  ℕ, ◌≡◌, refl, Bool, true, false, not, ◌&&◌, Option, none, some, Outcome, ok, err, ◌>>◌, fail_if,
  ◌==◌, ◌!=◌, arith, ◌↔◌, ◌⊎◌, inl, inr,
}
use distributed_jbod.Cluster.Names.{Text, Uuid}
use distributed_jbod.Cluster.{NodeId}

abbrev pub protocol_version : ℕ
protocol_version = 1

pub data PeerKind : Type 0 where
  node : PeerKind
  client : PeerKind

abbrev pub is_client : PeerKind → Bool
is_client node = false
is_client client = true

pub record Hello : Type 0 where
  pub protocol_version : ℕ
  pub kind : PeerKind
  pub node_id : Option NodeId
  pub cluster_id : Uuid
  pub document_version : ℕ
  pub build : Text
  pub cluster_name : Option Text

pub data HelloError : Type 0 where
  protocol_mismatch : (peer ours : ℕ) → HelloError
  cluster_mismatch : (peer ours : Uuid) → HelloError
  document_mismatch : (peer ours : ℕ) → HelloError
  node_id_missing : HelloError

-- The nil UUID of a client asks for the cluster id.
abbrev pub asks_cluster_id : Hello → Bool
asks_cluster_id h = is_client h.kind && h.cluster_id == 0

abbrev pub check_node_id : Option NodeId → Outcome HelloError (Unit {0})
check_node_id none = err node_id_missing
check_node_id (some id) = ok tt

-- The checks on nodes only.
abbrev pub check_kind : PeerKind → Hello → ℕ → Outcome HelloError (Unit {0})
check_kind client h our_document_version = ok tt
check_kind node h our_document_version = do
  check_node_id h.node_id
  fail_if (h.document_version != our_document_version)
      (document_mismatch h.document_version our_document_version)
  ok tt

unfoldable pub check_against : Hello → Uuid → ℕ → Outcome HelloError (Unit {0})
check_against h our_cluster_id our_document_version = do
  fail_if (h.protocol_version != protocol_version)
      (protocol_mismatch h.protocol_version protocol_version)
  fail_if (h.cluster_id != our_cluster_id && not (asks_cluster_id h))
      (cluster_mismatch h.cluster_id our_cluster_id)
  check_kind h.kind h our_document_version

-- Which peers are admitted: nodes of this cluster with its document, and clients of this cluster or of
-- no cluster.
abbrev pub IsAdmitted : PeerKind → Hello → Uuid → ℕ → Type 0
IsAdmitted node h ours version =
    (h.cluster_id ≡ ours) × (¬ (h.node_id ≡ none)) × (h.document_version ≡ version)
IsAdmitted client h ours version = (h.cluster_id ≡ ours) ⊎ (h.cluster_id ≡ 0)

module _ (p c d : ℕ) (b : Text) (n : Option Text) (ours version : ℕ) where
  abbrev from_peer : PeerKind → Option NodeId → Hello
  from_peer k id = record {
    protocol_version = p;
    kind = k;
    node_id = id;
    cluster_id = c;
    document_version = d;
    build = b;
    cluster_name = n;
  }

  abbrev Admits : PeerKind → Option NodeId → Type 0
  Admits k id = (p ≡ protocol_version) × IsAdmitted k (from_peer k id) ours version

  Admits-sound :
      (k : PeerKind) (id : Option NodeId)
      → check_against (from_peer k id) ours version ≡ ok tt
      → Admits k id
  unfolding check_against
  Admits-sound node none e = absurd (ground arith)
  Admits-sound node (some i) e = (
    ground arith,
    (ground arith, λ no_id. (let wrong : some i ≡ none = no_id in cc), ground arith),
  )
  Admits-sound client id e = ground arith

  Admits-complete :
      (k : PeerKind) (id : Option NodeId)
      → Admits k id
      → check_against (from_peer k id) ours version ≡ ok tt
  unfolding check_against
  Admits-complete node none a = absurd (a.1.1 refl)
  Admits-complete node (some i) (spoken, (same_cluster, named, same_version)) = ground arith
  Admits-complete client id (spoken, inl e) = ground arith
  Admits-complete client id (spoken, inr e) = ground arith

-- `check_against` admits exactly the peers that speak the protocol version and are nodes of the cluster
-- that name their id and hold its document version, or clients that name the cluster or the nil UUID.
pub check_against-IsAdmitted :
    (h : Hello) (ours : Uuid) (version : ℕ)
    → (check_against h ours version ≡ ok tt)
      ↔ ((h.protocol_version ≡ protocol_version) × IsAdmitted h.kind h ours version)
check_against-IsAdmitted h ours version = (
  Admits-sound h.protocol_version h.cluster_id h.document_version h.build h.cluster_name ours
      version h.kind h.node_id,
  Admits-complete h.protocol_version h.cluster_id h.document_version h.build h.cluster_name ours
      version h.kind h.node_id,
)

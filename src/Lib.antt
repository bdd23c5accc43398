-- ===== src/Lib.antt =====
-- Distributed-JBOD, an erasure-coded object store over the disks of several machines: its storage core
-- and its protocol, modelled from the Rust sources.
--
-- An object is cut into stripes. A stripe of at most k * B bytes is split into k data blocks, m parity
-- blocks are computed, and every block gets a checksum (Stripe, on Erasure). Each of k + m devices keeps
-- the blocks of one shard index in a shard file with a header, a footer and a trailer (ShardFile), and a
-- copy of the version's metadata record, which says where the shards are (Record). All nodes hold one
-- cluster document, which lists nodes and devices (Cluster). Nodes and clients talk in frames after a
-- handshake (Proto). Directories and files are named by key hashes and version ids (Naming). For a new
-- version the coordinating node chooses the devices and draws a version id (Node). The administration
-- changes the cluster document by proposing a successor (Admin). A device keeps its record copies and
-- shards in files (Device); a coordinating node asks the devices for their copies and concludes which
-- versions can be trusted, read and counted (Coordinator).
--
-- Files and sources:
--   Common      what the models share: Rust's results, integers, slices, byte order, loops and searches
--   Erasure     crates/djbod-core/src/erasure.rs: Scheme, ReedSolomonCode. Children: which schemes exist
--               (Bounds), the laws asked of the library (Laws), parity (Parity), reconstruct (Layout,
--               Filled, Reconstruct) and a code that satisfies the laws (Example)
--   Stripe      crates/djbod-core/src/stripe.rs: encode_stripe, decode_stripe. Children: Encode, the
--               loops of decode_stripe (Lookup, Examine, Counting), what it returns (Decode, Genuine)
--   ShardFile   crates/djbod-core/src/shardfile.rs: Geometry, Header, Footer, Writer, Reader, and a file
--               from its creation to its reading (WholeFile)
--   Cluster     crates/djbod-core/src/cluster.rs: ClusterDocument::validate (Names, Numbers, Rounds,
--               Valid) and the lookups (Lookup)
--   Record      crates/djbod-core/src/record.rs: MetadataRecord::validate (Shards, Valid), device_for
--               and shard_on (Lookup)
--   Proto       crates/djbod-proto/src/frame.rs (Frame) and handshake.rs (Hello)
--   Naming      crates/djbod-core/src/version.rs and keyhash.rs (RoundTrip, Hex), and layout.rs (FileNames)
--   Node        crates/djbod-node/src/coordinator.rs, place (Placement), ulid.rs (Versions), and
--               membership.rs, open_or_initialise (Membership)
--   Device      crates/djbod-core/src/device.rs: a disk as a tree of directories and files (Tree) and the
--               operations on records (Store). Children of Store: the abstract view (Abstract), the steps
--               of one operation (Paths, Steps, Directories, Updates, Keys, Writes, Deletes), and the
--               refinement (Refine). The identity file: its checks (Checks), open and erase (Identity),
--               initialise and wipe_and_initialise (Identity/Initialise)
--   Coordinator crates/djbod-node/src/coordinator.rs: what is concluded from the record copies of a key
--               (Copies) and from those of one version (Groups), the heads of the record streams
--               (Streams), their merge for an inventory (Inventory), and a scrub across the nodes
--               (Scrub): what it counts (Counted, Moved) and its merge (CrossCheck).
--   Admin       crates/djbod-client/src/admin.rs, the removal of a node (Removal)
-- A module Runs holds concrete runs and the theorems applied to concrete inputs, on the data of Samples.
--
-- How the code is rendered: a function that returns Result or may panic returns an Outcome, ok, err or
-- panic; `?` and early returns are do blocks with fail_if. Integers are natural numbers with the wrap of
-- u64, u32 or u128 written out. A Vec or a slice is a list, a HashMap a list by position. A file is its
-- bytes and the position of the next write. A loop is structural recursion over what it runs through;
-- only the two merges of record streams run on fuel, and more fuel than the streams hold results is
-- enough.
-- Parts of one Rust function are helpers here. A disk is a list of entries by path, a record file holds the
-- bytes that the serializer gives, and a file that is renamed into place replaces the one before it at once;
-- the one fault of a disk is a write that fails. A record stream is the finite sequence of its results.
--
-- Parameters: the crate reed-solomon-erasure (encode_sep, reconstruct, reconstruct_data, with their
-- documented behaviour as IsReedSolomon), XXH3-64, SHA-256, Uuid::parse_str, the parser of socket
-- addresses, the answer of fallocate, the JSON forms of a record and of an identity, the clock, the random
-- bytes of a version id and the id of a new device.
--
-- Not modelled: serde's JSON forms, TLS and sockets, other faults of a disk, the shard writes and the
-- walks of a device, the drains, repairs and object transfers of the coordinator, the rest of the
-- membership and of the administration, the client's connections and the front ends.
pub mod Common
pub mod Erasure
pub mod Stripe
pub mod ShardFile
pub mod Cluster
pub mod Record
pub mod Proto
pub mod Naming
pub mod Node
pub mod Device
pub mod Coordinator
pub mod Admin

-- ===== src/Node.antt =====
-- crates/djbod-node: what a node decides without asking the others.
pub mod Placement
pub mod Versions
pub mod Membership
mod Runs

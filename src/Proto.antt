-- ===== src/Proto.antt =====
-- crates/djbod-proto: what nodes and clients say to each other. The JSON messages are serde's and are
-- not modelled.
pub mod Frame
pub mod Hello
mod Runs

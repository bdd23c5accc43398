-- ===== src/Coordinator/Samples.antt =====
-- Data of the concrete runs.
use distributed_jbod.Common.{none, [], ◌∷◌, replicate, true}
use distributed_jbod.Cluster.{DeviceId}
use distributed_jbod.Record.{MetadataRecord}
use distributed_jbod.Coordinator.Streams.{StreamedRecord}

-- An object of one byte with its data shard on device 5 and its parity shard on device 6.
abbrev pub byte_object : MetadataRecord
byte_object = record {
  format_version = 1;
  system = [];
  bucket = [];
  key = b'k' ∷ [];
  key_hash = replicate 32 7;
  version = replicate 16 1;
  created = 0;
  size = 1;
  object_checksum = 9;
  k = 1;
  m = 1;
  block_size = 4;
  shards = record { index = 0; device = 5 } ∷ record { index = 1; device = 6 } ∷ [];
  revision = 0;
  content_type = none;
  user_metadata = [];
}

abbrev pub streamed_from : (device : DeviceId) → StreamedRecord
streamed_from device = record { device = device; found = byte_object; shard_present = true }

-- ===== src/ShardFile/Runs.antt =====
-- Concrete runs of the shard file code, and its theorems at concrete inputs.
use distributed_jbod.Common.{
  ℕ, ◌+◌, ◌%◌, ◌^◌, ◌-◌, ◌*◌, ◌≡◌, refl, Option, none, some, [], ◌∷◌, ok, panic, replicate, arith,
  div_ceil,
}
use distributed_jbod.Erasure.{Block}
use distributed_jbod.Stripe.{ShardBlock}
use distributed_jbod.ShardFile.{
  ShardFileHeader, ShardFileFooter, ShardGeometry, shard_geometry, shard_file_length, IoError,
}
use distributed_jbod.ShardFile.Geometry.{InRange, IsGeometry, shard_geometry_lem}
use distributed_jbod.ShardFile.Header.RoundTrip.{IsHeader, IsU64Valued, decode-encode}
use distributed_jbod.ShardFile.Footer.RoundTrip.{length-encode_with_trailer}
use distributed_jbod.ShardFile.Writer.{
  File, ShardFileWriter, new_writer, push_block, create_with_reservation, append_block, finish,
  write_bytes, footer_of,
}
use distributed_jbod.ShardFile.Writer.Extent.{append_all}
use distributed_jbod.ShardFile.Reader.{ShardFileReader, open_file, read_block}
use distributed_jbod.ShardFile.Reader.Finished.{end_offset, footer_bytes}
use distributed_jbod.ShardFile.WholeFile.{
  WasWritten, AreInRange, open_file-finish, finish-shard_file_length,
}

abbrev sum : Block → ℕ
sum [] = 0
sum (x ∷ b) = x + sum b

abbrev sum64 : Block → ℕ
sum64 b = sum b % 2 ^ 64

sum64-IsU64Valued : IsU64Valued sum64
sum64-IsU64Valued b = omega arith

abbrev header : ShardFileHeader
header = record {
  scheme = record { data_shards = 2; parity_shards = 1 };
  shard_index = 1;
  block_length = 4;
  key_hash = replicate 32 9;
  version_id = replicate 16 8;
}

header-IsHeader : IsHeader header
header-IsHeader = record {
  scheme = record { some_data = omega arith; data_limit = omega arith; parity_limit = omega arith };
  index = omega arith;
  block_length = omega arith;
  key_hash = refl;
  version_id = refl;
}

abbrev full : ShardBlock
full = record { index = 1; bytes = 1 ∷ 2 ∷ 3 ∷ 4 ∷ []; checksum = 10 }

abbrev short : ShardBlock
short = record { index = 1; bytes = 5 ∷ 6 ∷ []; checksum = 11 }

abbrev disk : ℕ → Option IoError
disk n = none

abbrev created : ShardFileWriter
created = new_writer sum64 header []

abbrev appended : ShardFileWriter
appended = push_block sum64 (push_block sum64 created full) short

abbrev file : File
file = write_bytes appended.file (footer_bytes sum64 appended 12 77)

abbrev footer : ShardFileFooter
footer = footer_of sum64 appended 12 77

creates : create_with_reservation sum64 disk header none ≡ ok created
unfolding create_with_reservation
creates = refl

appends : append_all sum64 created (full ∷ short ∷ []) ≡ ok appended
unfolding append_all append_block
appends = refl

finishes : finish sum64 appended 12 77 ≡ ok (footer, file)
unfolding finish shard_geometry div_ceil
finishes = refl

was_written : WasWritten sum64 disk header none (full ∷ short ∷ []) 12 77 footer file
was_written = record {
  created = created;
  appended = appended;
  creates = creates;
  appends = appends;
  finishes = finishes;
}

position : file.position ≡ 4174
position = omega (
  arith,
  (decode-encode sum64 header sum64-IsU64Valued header-IsHeader).0,
  length-encode_with_trailer sum64 footer (end_offset sum64 appended),
)

in_range : AreInRange sum64 none 12 77 file
in_range = record {
  covered = omega arith;
  small = omega (arith, position);
  size_small = omega arith;
  checksum_small = omega arith;
}

open_file-finish_example :
    let reader : ShardFileReader = record {
      file = file.content;
      header = header;
      footer = footer;
    } in
    (open_file sum64 file.content ≡ ok reader) × (read_block reader 1 ≡ ok short)
open_file-finish_example =
    open_file-finish sum64 sum64-IsU64Valued header-IsHeader was_written in_range 1 short refl

stripes : InRange header.scheme header.block_length 12
stripes = record {
  some_data = omega arith;
  some_block = omega arith;
  some_bytes = omega arith;
  stripe_fits = omega arith;
  object_fits = omega arith;
}

finish-shard_file_length_example :
    shard_file_length header.scheme header.block_length 12 ≡ ok (some file.position)
finish-shard_file_length_example =
    finish-shard_file_length sum64 sum64-IsU64Valued header-IsHeader was_written in_range stripes

shard_geometry_lem_example :
    (g : ShardGeometry) × (shard_geometry header.scheme header.block_length 12 ≡ ok (some g))
    × IsGeometry header.scheme header.block_length 12 g
        (12 - (g.block_count - 1) * (header.scheme.data_shards * header.block_length))
shard_geometry_lem_example = shard_geometry_lem header.scheme header.block_length 12 stripes

-- A scheme and block length whose product wraps to 0 make the geometry divide by 0.
shard_geometry_wrapped :
    shard_geometry (record { data_shards = 32; parity_shards = 0 }) (2 ^ 59) 5 ≡ panic
unfolding shard_geometry
shard_geometry_wrapped = refl

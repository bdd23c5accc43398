-- ===== src/Naming/Runs.antt =====
-- Concrete names, and the theorems about them at concrete inputs.
use distributed_jbod.Common.{◌≡◌, refl, none, some, ◌∷◌, ok, panic, length, replicate, arith}
use distributed_jbod.ShardFile.{KeyHash, VersionId}
use distributed_jbod.Naming.{text_len, to_text, from_text, parse_hex_byte, read_hex, from_hex}
use distributed_jbod.Naming.FileNames.{
  record_file_name, shard_file_name, parse_record_file_name, parse_shard_file_name,
}
use distributed_jbod.Naming.FileNames.RoundTrip.{file_names_lem}
use distributed_jbod.Naming.RoundTrip.{from_text-to_text}

abbrev version : VersionId
version = 1 ∷ 143 ∷ 255 ∷ replicate 13 7

abbrev hash : KeyHash
hash = 186 ∷ 120 ∷ replicate 30 255

from_text-to_text_example :
    (from_text (to_text version) ≡ some version) × (length (to_text version) ≡ text_len)
from_text-to_text_example =
    from_text-to_text version (record { size = refl; all_bytes = omega arith })

-- A plus sign is read as no digit.
from_hex_plus : from_hex (b'+' ∷ b'f' ∷ replicate 62 b'0') ≡ ok (15 ∷ replicate 31 0)
unfolding from_hex read_hex parse_hex_byte
from_hex_plus = refl

-- A letter of two bytes across a pair.
from_hex_cut : from_hex (b'0' ∷ 195 ∷ 169 ∷ replicate 61 b'0') ≡ panic
unfolding from_hex read_hex parse_hex_byte
from_hex_cut = refl

file_names_lem_example :
    (parse_record_file_name (record_file_name version) ≡ some version)
    × (parse_shard_file_name (shard_file_name version 207) ≡ some (version, 207))
    × (parse_record_file_name (shard_file_name version 207) ≡ none)
    × (parse_shard_file_name (record_file_name version) ≡ none)
file_names_lem_example =
    file_names_lem version 207 (record { size = refl; all_bytes = omega arith }) (omega arith)

-- ===== src/Node/Versions.antt =====
-- crates/djbod-node/src/ulid.rs: `VersionGenerator`, the ids of new versions. What the clock says and the
-- bytes that are drawn at random are arguments.
pub mod Order
use distributed_jbod.Common.{ℕ, ◌+◌, ◌*◌, ◌%◌, ◌^◌, List, ltb, if◌then◌else◌}
use distributed_jbod.Common.Digits.{value_from}
use distributed_jbod.ShardFile.{VersionId}
use distributed_jbod.Naming.{to_be_bytes}

-- `last`: the time of the last id in milliseconds and its random part.
pub record VersionGenerator : Type 0 where
  pub last_ms : ℕ
  pub last_random : ℕ

abbrev pub new_generator : VersionGenerator
new_generator = record { last_ms = 0; last_random = 0 }

abbrev pub max_u64 : ℕ → ℕ → ℕ
max_u64 a b = if ltb a b then b else a

-- The state after `next`. The clock is cut to 48 bits and the random part to 80.
unfoldable pub advance : VersionGenerator → ℕ → List ℕ → VersionGenerator
advance g clock_ms drawn =
    let now_ms = clock_ms % 2 ^ 48 in
    record {
      last_ms = max_u64 now_ms g.last_ms;
      last_random =
          if ltb g.last_ms now_ms then value_from 256 0 drawn else (g.last_random + 1) % 2 ^ 80;
    }

-- `(ms << 80) | random` as a `u128`: the 80 bits are free.
abbrev pub number : VersionGenerator → ℕ
number g = g.last_ms * 2 ^ 80 % 2 ^ 128 + g.last_random

-- `next`: the id and the new state.
abbrev pub next : VersionGenerator → ℕ → List ℕ → VersionId × VersionGenerator
next g clock_ms drawn = let after = advance g clock_ms drawn in (to_be_bytes (number after), after)

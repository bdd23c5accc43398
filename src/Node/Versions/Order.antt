-- ===== src/Node/Versions/Order.antt =====
-- Version ids from one node sort in the order of their creation.
use distributed_jbod.Common.{
  ℕ, ◌+◌, ◌/◌, ◌%◌, ◌^◌, ◌≤◌, ◌<◌, ◌≡◌, sym, ◌∙◌, ap, List, length, arith, ltb, ltb→lt, ltb→le,
  le→ltb, Bool-cases, inl, inr,
}
use distributed_jbod.Common.Digits.{digits, value_from, value_from-digits, value_from-bound}
use distributed_jbod.Naming.{from_be_bytes}
use distributed_jbod.Naming.RoundTrip.{AreBytes}
use distributed_jbod.Node.Versions.{VersionGenerator, max_u64, advance, number, next}
use native.Mathlib.Nat.{div-eq_of_lt}

-- A time of 48 bits and a random part of 80.
pub record IsState (g : VersionGenerator) : Type 0 where
  pub ms : g.last_ms < 2 ^ 48
  pub random : g.last_random < 2 ^ 80

drawn-bound : (drawn : List ℕ) → AreBytes 10 drawn → value_from 256 0 drawn < 2 ^ 80
drawn-bound drawn a =
    let (low, high) = value_from-bound 256 0 drawn a.all_bytes in
    let wide : 256 ^ length drawn ≡ 2 ^ 80 = ap (◌^◌ 256) a.size in omega (arith, high, wide)

max_last : (a b : ℕ) → a ≤ b → max_u64 a b ≡ b
max_last a b h = ground arith

module _ (g : VersionGenerator) (clock_ms : ℕ) (drawn : List ℕ) (s : IsState g)
    (a : AreBytes 10 drawn) where
  advance-IsState : IsState (advance g clock_ms drawn)
  unfolding advance
  advance-IsState =
      let bound = drawn-bound drawn a in
      record { ms = ground (arith, s.ms); random = ground (arith, bound) }

  advance_later : g.last_random + 1 < 2 ^ 80 → number g < number (advance g clock_ms drawn)
  unfolding advance
  advance_later room =
      let bound = drawn-bound drawn a in
      let now = clock_ms % 2 ^ 48 in
      elim (Bool-cases (ltb g.last_ms now)) [
        | inl later ↦
            let lt = ltb→lt g.last_ms now later in
            rw (later, le→ltb now g.last_ms (omega arith)) (omega (arith, s.ms, s.random, lt))
        | inr same ↦
            let ge = ltb→le g.last_ms now same in
            rw (same, max_last now g.last_ms ge) (omega (arith, s.ms, room))
      ]

  id_number : from_be_bytes (next g clock_ms drawn).0 ≡ number (advance g clock_ms drawn)
  id_number =
      let n = number (advance g clock_ms drawn) in
      let after = advance-IsState in
      let start : 0 ≡ n / 256 ^ 16 =
        sym (div-eq_of_lt {n = n} {m = 256 ^ 16} (omega (arith, after.ms, after.random))) in
      ap (λ x. value_from 256 x (digits 256 16 n)) start ∙ value_from-digits 256 16 n

-- Ids sort in the order of their creation, also within a millisecond and when the clock steps back: of
-- two ids drawn one after the other from a valid state, with 10 random bytes each, the second is the
-- larger big-endian number, and the state stays valid. The random part of the first must not be all ones.
pub next_increases :
    (g : VersionGenerator) (clock_1 clock_2 : ℕ) (drawn_1 drawn_2 : List ℕ)
    → IsState g
    → AreBytes 10 drawn_1
    → AreBytes 10 drawn_2
    → (next g clock_1 drawn_1).1.last_random + 1 < 2 ^ 80
    → let first = next g clock_1 drawn_1 in
      let second = next first.1 clock_2 drawn_2 in
      (from_be_bytes first.0 < from_be_bytes second.0) × IsState second.1
next_increases g clock_1 clock_2 drawn_1 drawn_2 s a b room =
    let g_1 = advance g clock_1 drawn_1 in
    let s_1 = advance-IsState g clock_1 drawn_1 s a in
    (
      rw (id_number g clock_1 drawn_1 s a, id_number g_1 clock_2 drawn_2 s_1 b)
          (advance_later g_1 clock_2 drawn_2 s_1 b room),
      advance-IsState g_1 clock_2 drawn_2 s_1 b,
    )

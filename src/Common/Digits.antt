-- ===== src/Common/Digits.antt =====
-- Numbers by their digits, the highest one first, in a base `b`.
use Prim.Native.Nat.{ℕ, zero, suc, ◌+◌, ◌*◌, ◌/◌, ◌%◌, ◌^◌, ◌≤◌, ◌<◌}
use mathlib.Core.List.{List, [], ◌∷◌}
use mathlib.Core.Path.{◌≡◌, refl, sym, ap, ap₂, ◌∙◌}
use native.Mathlib.Omega.{arith}
use native.Mathlib.Nat.{
  div-add-mod, div-div-eq-div-mul, pow-suc, pow-zero, div-one, div-eq_of_lt-le, mul-le-mul_right,
  mul-add-mod_self_right, mod-eq_of_lt,
}
use distributed_jbod.Common.Lists.{length, All}

-- The lowest `n` digits.
unfoldable pub digits : ℕ → ℕ → ℕ → List ℕ
digits b zero v = []
digits b (suc n) v = v / b ^ n % b ∷ digits b n v

-- The number with these digits after those of `acc`.
unfoldable pub value_from : ℕ → ℕ → List ℕ → ℕ
value_from b acc [] = acc
value_from b acc (d ∷ ds) = value_from b (acc * b + d) ds

pub length-digits : (b n v : ℕ) → length (digits b n v) ≡ n
unfolding digits
length-digits b zero v = refl
length-digits b (suc n) v = ap suc (length-digits b n v)

-- One digit more.
pub shift_digit : (b n v : ℕ) → v / b ^ suc n * b + v / b ^ n % b ≡ v / b ^ n
shift_digit b n v =
    let split : v / b ^ suc n ≡ v / b ^ n / b =
      ap (λ m. v / m) (pow-suc b n) ∙ sym (div-div-eq-div-mul v (b ^ n) b) in
    ap (λ q. q * b + v / b ^ n % b) split ∙ omega (arith, div-add-mod (v / b ^ n) b)

pub value_from-bound :
    (b acc : ℕ) (ds : List ℕ)
    → All (λ d. d < b) ds
    → (acc * b ^ length ds ≤ value_from b acc ds)
      × (value_from b acc ds < acc * b ^ length ds + b ^ length ds)
unfolding value_from
value_from-bound b acc [] h =
    let one : b ^ length {A = ℕ} [] ≡ 1 = pow-zero b in rw one (omega arith, omega arith)
value_from-bound b acc (d ∷ ds) (lt, h) =
    let p = b ^ length ds in
    let (low, high) = value_from-bound b (acc * b + d) ds h in
    let power : b ^ suc (length ds) ≡ p * b = pow-suc b (length ds) in
    let room : suc d * p ≤ b * p = mul-le-mul_right p lt in
    rw power (omega (arith, low, room), omega (arith, high, room))

-- The digits of a number are the ones it was put together from.
pub digits-value_from :
    (b acc : ℕ) (ds : List ℕ)
    → 0 < b
    → All (λ d. d < b) ds
    → digits b (length ds) (value_from b acc ds) ≡ ds
unfolding digits value_from
digits-value_from b acc [] pos h = refl
digits-value_from b acc (d ∷ ds) pos (lt, h) =
    let (low, high) = value_from-bound b (acc * b + d) ds h in
    let quotient : value_from b (acc * b + d) ds / b ^ length ds ≡ acc * b + d =
      div-eq_of_lt-le (b ^ length ds) low (omega (arith, high)) in
    ap₂ ◌∷◌ (ap (λ q. q % b) quotient ∙ mul-add-mod_self_right acc b d ∙ mod-eq_of_lt lt)
      (digits-value_from b (acc * b + d) ds pos h)

-- A number is put together again from its digits.
pub value_from-digits : (b n v : ℕ) → value_from b (v / b ^ n) (digits b n v) ≡ v
unfolding digits value_from
value_from-digits b zero v = ap (λ m. v / m) (pow-zero b) ∙ div-one v
value_from-digits b (suc n) v =
    ap (λ a. value_from b a (digits b n v)) (shift_digit b n v) ∙ value_from-digits b n v

-- ===== src/Common/Results.antt =====
-- What a Rust function that returns `Result<A, E>` may do: return, fail with an error of type
-- `E`, or panic (a failed `expect`, `assert` or index).
use mathlib.Core.Path.{◌≡◌, refl}
use mathlib.Core.Bool.{Bool, true, false}
use mathlib.Core.Option.{Option, none, some}

pub data Outcome {ℓ κ} (E : Type ℓ) (A : Type κ) : Type (ℓ ⊔ κ) where
  ok : A → Outcome E A
  err : E → Outcome E A
  panic : Outcome E A

module _ {ℓ} {E : Type ℓ} where
  -- `if test { return Err(e) }`.
  abbrev pub fail_if : Bool → E → Outcome E (Unit {0})
  fail_if false e = ok tt
  fail_if true e = err e

  abbrev pub ◌>>=◌ {κ μ} : {A : Type κ} {B : Type μ} → Outcome E A → (A → Outcome E B) → Outcome E B
  panic >>= rest = panic
  err failure >>= rest = err failure
  ok value >>= rest = rest value

  -- `option.expect(…)`.
  abbrev pub expect {κ} : {A : Type κ} → Option A → Outcome E A
  expect none = panic
  expect (some a) = ok a

  -- `option.ok_or(e)?`.
  abbrev pub ok_or {κ} : {A : Type κ} → Option A → E → Outcome E A
  ok_or none e = err e
  ok_or (some a) e = ok a

  abbrev pub ◌>>◌ {μ} : {B : Type μ} → Outcome E (Unit {0}) → Outcome E B → Outcome E B
  first >> second = first >>= λ _. second

  infixl 5 ◌>>=◌ ◌>>◌

-- Inversion of a successful chain.
pub >>=-eq-ok {ℓ κ μ} :
    {E : Type ℓ} {A : Type κ} {B : Type μ} (first : Outcome E A) (rest : A → Outcome E B)
    {result : B}
    → (first >>= rest) ≡ ok result
    → (value : A) × (first ≡ ok value) × (rest value ≡ ok result)
>>=-eq-ok panic rest runs = absurd (cc)
>>=-eq-ok (err failure) rest runs = absurd (cc)
>>=-eq-ok (ok value) rest runs = (value, refl, runs)

-- Inversion of a test that was passed.
pub fail_if-eq-ok {ℓ κ} :
    {E : Type ℓ} {B : Type κ} (test : Bool) (e : E) (m : Outcome E B) {b : B}
    → (fail_if test e >> m) ≡ ok b
    → (test ≡ false) × (m ≡ ok b)
fail_if-eq-ok true e m h = absurd (cc)
fail_if-eq-ok false e m h = (refl, h)

pub fail_if-ok {ℓ} : {E : Type ℓ} (test : Bool) (e : E) → fail_if test e ≡ ok tt → test ≡ false
fail_if-ok true e h = absurd (cc)
fail_if-ok false e h = refl

pub expect-ok {ℓ κ} :
    {E : Type ℓ} {A : Type κ} (o : Option A) (a : A) → expect {E = E} o ≡ ok a → o ≡ some a
expect-ok none a h = absurd (cc)
expect-ok (some b) a h = cc

-- `result.map_err(f)`.
abbrev pub map_err {ℓ κ μ} :
    {E : Type ℓ} {F : Type κ} {A : Type μ} → (E → F) → Outcome E A → Outcome F A
map_err f (ok a) = ok a
map_err f (err e) = err (f e)
map_err f panic = panic

pub map_err-eq-ok {ℓ κ μ} :
    {E : Type ℓ} {F : Type κ} {A : Type μ} (f : E → F) (m : Outcome E A) {a : A}
    → map_err f m ≡ ok a
    → m ≡ ok a
map_err-eq-ok f (ok a) h = cc
map_err-eq-ok f (err e) h = absurd (cc)
map_err-eq-ok f panic h = absurd (cc)

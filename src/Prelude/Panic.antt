-- ===== src/Prelude/Panic.antt =====
-- What a call of the kernel's code comes to: a value, or a Rust panic (a failed assertion, an
-- `unwrap` of `None`, an index out of bounds, an arithmetic overflow, which the debug build traps).
use Prim.Native.Nat.{ℕ, ◌+◌, ◌-◌, ◌^◌}
use mathlib.Core.Path.{◌≡◌, refl}
use mathlib.Core.Logic.{◌⊎◌, inl, inr}
use mathlib.Core.Bool.{Bool, true, false}
use mathlib.Core.Option.{Option, none, some}
use native.Mathlib.Omega.{arith}
use helium_os.Prelude.Tests.{ltb, leb, if◌then◌else◌}

pub data Outcome {ℓ} (A : Type ℓ) : Type ℓ where
  ok : A → Outcome A
  panic : Outcome A

infixl 5 ◌>>=◌ ◌>>◌
abbrev pub ◌>>=◌ {ℓ κ} : {A : Type ℓ} {B : Type κ} → Outcome A → (A → Outcome B) → Outcome B
ok a >>= f = f a
panic >>= f = panic

abbrev pub ◌>>◌ {ℓ} : {B : Type ℓ} → Outcome (Unit {0}) → Outcome B → Outcome B
m >> k = m >>= λ _. k

abbrev pub assert : Bool → Outcome (Unit {0})
assert true = ok tt
assert false = panic

abbrev pub unwrap {ℓ} : {A : Type ℓ} → Option A → Outcome A
unwrap none = panic
unwrap (some a) = ok a

-- `a + b` and `a - b` on unsigned integers of `w` bits, with overflow trapped.
abbrev pub checked_add : ℕ → ℕ → ℕ → Outcome ℕ
checked_add w a b = if ltb (a + b) (2 ^ w) then ok (a + b) else panic

abbrev pub checked_sub : ℕ → ℕ → Outcome ℕ
checked_sub a b = if leb b a then ok (a - b) else panic

-- Inversion of a successful bind.
pub >>=-eq-ok {ℓ κ} :
    {A : Type ℓ} {B : Type κ} (o : Outcome A) (k : A → Outcome B) {y : B}
    → (o >>= k) ≡ ok y
    → (x : A) × (o ≡ ok x) × (k x ≡ ok y)
>>=-eq-ok panic k e = absurd (ground arith)
>>=-eq-ok (ok x) k e = (x, refl, e)

pub Outcome-cases {ℓ} : {A : Type ℓ} (m : Outcome A) → (m ≡ panic) ⊎ ((a : A) × (m ≡ ok a))
Outcome-cases (ok a) = inr (a, refl)
Outcome-cases panic = inl refl

-- What holds of the result, if there is one.
pub data Returns {ℓ κ} {A : Type ℓ} (P : A → Type κ) : Outcome A → Type (ℓ ⊔ κ) where
  returns : {a : A} → P a → Returns P (ok a)
  fails : Returns P panic

module _ {ℓ κ μ ν} {A : Type ℓ} {B : Type κ} {P : A → Type μ} {Q : B → Type ν} where
  -- The rule for a sequence: what the first part returns is what the second one goes by.
  pub after :
      {o : Outcome A} (k : A → Outcome B)
      → Returns P o
      → ((a : A) → P a → Returns Q (k a))
      → Returns Q (o >>= k)
  after k (returns p) q = q _ p
  after k fails q = fails

module _ {ℓ κ ν} {A : Type ℓ} {B : Type κ} {Q : B → Type ν} where
  -- A sequence whose first part is taken as it is.
  pub after_any :
      (o : Outcome A) (k : A → Outcome B) → ((a : A) → Returns Q (k a)) → Returns Q (o >>= k)
  after_any panic k q = fails
  after_any (ok a) k q = q a

pub Returns-ok {ℓ κ} : {A : Type ℓ} {P : A → Type κ} {a : A} → Returns P (ok a) → P a
Returns-ok (returns p) = p

-- Results that branch.
module _ {ℓ κ} {B : Type ℓ} {Q : B → Type κ} where
  pub after_option {μ} :
      {A : Type μ} (o : Option A) {n : Outcome B} {k : A → Outcome B}
      → Returns Q n
      → ((a : A) → o ≡ some a → Returns Q (k a))
      → Returns Q (elim o [ none ↦ n | some a ↦ k a ])
  after_option none p q = p
  after_option (some a) p q = q a refl

  pub after_test :
      (b : Bool) {m n : Outcome B}
      → (b ≡ true → Returns Q m)
      → (b ≡ false → Returns Q n)
      → Returns Q (if b then m else n)
  after_test true p q = p refl
  after_test false p q = q refl

pub weaken {ℓ κ ν} :
    {A : Type ℓ} {P : A → Type κ} {Q : A → Type ν} {o : Outcome A}
    → Returns P o
    → ((a : A) → P a → Q a)
    → Returns Q o
weaken (returns p) f = returns (f _ p)
weaken fails f = fails

-- ===== src/Prelude/Bits.antt =====
-- Masks on bytes as arithmetic: tables of at most 256 entries, checked by evaluation.
use Prim.Native.Nat.{
  ℕ, zero, suc, ◌+◌, ◌*◌, ◌/◌, ◌%◌, ◌≤◌, ◌<◌, max, bit_and, bit_or, bit_xor, digits, bitwise,
  bit_or-bitwise, bit_xor-bitwise, differ,
}
use mathlib.Core.Path.{◌≡◌, refl, sym, ap}
use mathlib.Core.Bool.{Bool, true, ◌&&◌}
use native.Mathlib.Omega.{arith}
use amt.Prelude.Tests.{◌==◌, ==_iff}

-- Whether a test holds of every number below a bound.
unfoldable pub all_below : ℕ → (ℕ → Bool) → Bool
all_below zero test = true
all_below (suc bound) test = all_below bound test && test bound

pub all_below_sound :
    (bound : ℕ) (test : ℕ → Bool) (v : ℕ) → v < bound → all_below bound test ≡ true → test v ≡ true
unfolding all_below
all_below_sound zero test v small passed = absurd (omega arith)
all_below_sound (suc bound) test v small passed = ground (arith, all_below_sound bound test v)

high_nibble_table : all_below 256 (λ b. bit_and b 0xf0 / 16 == b / 16) ≡ true
unfolding all_below
high_nibble_table = refl

pub high_nibble : (b : ℕ) → b < 256 → bit_and b 0xf0 / 16 ≡ b / 16
high_nibble b h = (==_iff _ _).0 (all_below_sound 256 _ b h high_nibble_table)

low_nibble_table : all_below 256 (λ b. bit_and b 0x0f == b % 16) ≡ true
unfolding all_below
low_nibble_table = refl

pub low_nibble : (b : ℕ) → b < 256 → bit_and b 0x0f ≡ b % 16
low_nibble b h = (==_iff _ _).0 (all_below_sound 256 _ b h low_nibble_table)

-- The fuel of a digit-wise operation does not matter once it covers the first operand.
module _ (z : ℕ → ℕ) (f : ℕ → ℕ → ℕ) where
  fuel_irrelevant : (n m x y : ℕ) → x ≤ m → x ≤ n → digits z f n x y ≡ digits z f m x y
  fuel_irrelevant zero zero x y small enough = refl
  fuel_irrelevant (suc n) zero zero y small enough = refl
  fuel_irrelevant zero (suc m) zero y small enough = refl
  fuel_irrelevant (suc n) (suc m) zero y small enough = refl
  fuel_irrelevant (suc n) zero (suc x) y small enough = absurd (omega arith)
  fuel_irrelevant zero (suc m) (suc x) y small enough = absurd (omega arith)
  fuel_irrelevant (suc n) (suc m) (suc x) y small enough =
      let half = fuel_irrelevant n m (suc x / 2) (y / 2) (omega arith) (omega arith) in
      ap (λ (t : ℕ). t * 2 + f (suc x % 2) (y % 2)) half

  bitwise_step :
      (x y : ℕ)
      → bitwise z f (suc x) y ≡ bitwise z f (suc x / 2) (y / 2) * 2 + f (suc x % 2) (y % 2)
  bitwise_step x y =
      ap (λ (t : ℕ). t * 2 + f (suc x % 2) (y % 2))
        (fuel_irrelevant x (suc x / 2) (suc x / 2) (y / 2) (omega arith) (omega arith))

or_step : (x y : ℕ) → bit_or x y ≡ bit_or (x / 2) (y / 2) * 2 + max (x % 2) (y % 2)
or_step zero y = rw (bit_or-bitwise 0 y, bit_or-bitwise 0 (y / 2)) (omega arith)
or_step (suc x) y =
    rw (bit_or-bitwise (suc x) y, bit_or-bitwise (suc x / 2) (y / 2))
      (bitwise_step (λ bit. bit) max x y)

zero-differ : (y : ℕ) → differ 0 y ≡ y
zero-differ y = refl

differ_self : (x : ℕ) → differ x x ≡ 0
differ_self zero = refl
differ_self (suc x) = differ_self x

differ-eq-zero : (x y : ℕ) → differ x y ≡ 0 → x ≡ y
differ-eq-zero zero y h = sym h
differ-eq-zero (suc x) zero h = absurd (omega arith)
differ-eq-zero (suc x) (suc y) h = ap suc (differ-eq-zero x y h)

xor_step : (a b : ℕ) → bit_xor a b ≡ bit_xor (a / 2) (b / 2) * 2 + differ (a % 2) (b % 2)
xor_step zero b =
    rw (bit_xor-bitwise 0 b, bit_xor-bitwise 0 (b / 2)) (omega (arith, zero-differ (b % 2)))
xor_step (suc a) b =
    rw (bit_xor-bitwise (suc a) b, bit_xor-bitwise (suc a / 2) (b / 2))
      (bitwise_step (λ y. y) differ a b)

or_vanishes : (n a b : ℕ) → a + b ≤ n → bit_or a b ≡ 0 → (a ≡ 0) × (b ≡ 0)
or_vanishes zero a b le h = omega arith
or_vanishes (suc n) zero zero le h = (refl, refl)
or_vanishes (suc n) a b le h = grind (arith, or_step a b, or_vanishes n (a / 2) (b / 2))

-- A disjunction of bits is 0 exactly where both sides are, and an exclusive or where both agree.
pub bit_or-eq-zero : (a b : ℕ) → bit_or a b ≡ 0 → (a ≡ 0) × (b ≡ 0)
bit_or-eq-zero a b h = or_vanishes (a + b) a b (omega arith) h

xor_vanishes : (n a b : ℕ) → a + b ≤ n → bit_xor a b ≡ 0 → a ≡ b
xor_vanishes zero a b le h = omega arith
xor_vanishes (suc n) zero zero le h = refl
xor_vanishes (suc n) a b le h =
    grind (arith, xor_step a b, xor_vanishes n (a / 2) (b / 2), differ-eq-zero (a % 2) (b % 2))

pub bit_xor-eq-zero : (a b : ℕ) → bit_xor a b ≡ 0 → a ≡ b
bit_xor-eq-zero a b h = xor_vanishes (a + b) a b (omega arith) h

xor_self_fuel : (n a : ℕ) → a ≤ n → bit_xor a a ≡ 0
xor_self_fuel n zero le = refl
xor_self_fuel zero (suc a) le = absurd (omega arith)
xor_self_fuel (suc n) (suc a) le = omega (
  arith,
  xor_step (suc a) (suc a),
  differ_self (suc a % 2),
  xor_self_fuel n (suc a / 2) (omega arith),
)

pub bit_xor_self : (a : ℕ) → bit_xor a a ≡ 0
bit_xor_self a = xor_self_fuel a a (omega arith)

-- ===== src/Base/Bits.antt =====
-- Masks and disjoint fields of binary numbers, as arithmetic.
use Prim.Native.Nat.{
  ℕ, zero, suc, ◌+◌, ◌-◌, ◌*◌, ◌/◌, ◌%◌, ◌^◌, ◌≤◌, ◌<◌, min, max, digits, bit_and, bit_or,
  bit_and-bitwise, bit_or-bitwise,
}
use mathlib.Core.Path.{◌≡◌, refl, ap}
use native.Mathlib.Nat.{pow-suc, one-le-pow}
use native.Mathlib.Omega.{arith}

-- More rounds than digits change nothing, whatever the operation on digits is.
digits_rounds :
    (z : ℕ → ℕ) (f : ℕ → ℕ → ℕ) (n m a b : ℕ) → a ≤ n → a ≤ m → digits z f n a b ≡ digits z f m a b
digits_rounds z f zero zero a b p q = refl
digits_rounds z f zero (suc m) zero b p q = refl
digits_rounds z f zero (suc m) (suc a) b p q = absurd (omega arith)
digits_rounds z f (suc n) zero zero b p q = refl
digits_rounds z f (suc n) zero (suc a) b p q = absurd (omega arith)
digits_rounds z f (suc n) (suc m) zero b p q = refl
digits_rounds z f (suc n) (suc m) (suc a) b p q =
    ap (λ (t : ℕ). t * 2 + f (suc a % 2) (b % 2))
      (digits_rounds z f n m (suc a / 2) (b / 2) (omega arith) (omega arith))

and_lowest : (a b : ℕ) → bit_and a b ≡ bit_and (a / 2) (b / 2) * 2 + min (a % 2) (b % 2)
and_lowest zero b = omega (arith, bit_and-bitwise 0 b, bit_and-bitwise 0 (b / 2))
and_lowest (suc a) b =
    let halves =
      digits_rounds (λ b. zero) min a (suc a / 2) (suc a / 2) (b / 2) (omega arith) (omega arith) in
    omega (arith, bit_and-bitwise (suc a) b, bit_and-bitwise (suc a / 2) (b / 2), halves)

or_lowest : (a b : ℕ) → bit_or a b ≡ bit_or (a / 2) (b / 2) * 2 + max (a % 2) (b % 2)
or_lowest zero b = omega (arith, bit_or-bitwise 0 b, bit_or-bitwise 0 (b / 2))
or_lowest (suc a) b =
    let halves =
      digits_rounds (λ b. b) max a (suc a / 2) (suc a / 2) (b / 2) (omega arith) (omega arith) in
    omega (arith, bit_or-bitwise (suc a) b, bit_or-bitwise (suc a / 2) (b / 2), halves)

and_none : (rounds a : ℕ) → a ≤ rounds → bit_and a 0 ≡ 0
and_none rounds zero h = refl
and_none zero (suc a) h = absurd (omega arith)
and_none (suc rounds) (suc a) h =
    omega (arith, and_lowest (suc a) 0, and_none rounds (suc a / 2) (omega arith))

or_none : (rounds a : ℕ) → a ≤ rounds → bit_or a 0 ≡ a
or_none rounds zero h = refl
or_none zero (suc a) h = absurd (omega arith)
or_none (suc rounds) (suc a) h =
    omega (arith, or_lowest (suc a) 0, or_none rounds (suc a / 2) (omega arith))

twice_field : (high k : ℕ) → high * 2 ^ suc k ≡ 2 * (high * 2 ^ k)
twice_field high k = omega (arith, ap (λ (t : ℕ). high * t) (pow-suc 2 k))

and_field : (k high low : ℕ) → low < 2 ^ k → bit_and (high * 2 ^ k + low) (2 ^ k - 1) ≡ low
and_field zero high low h = ground (arith, and_none (high * 1 + low) (high * 1 + low) (omega arith))
and_field (suc k) high low h =
    let half = and_field k high (low / 2) (omega (arith, pow-suc 2 k)) in
    ground (
      arith,
      and_lowest (high * 2 ^ suc k + low) (2 ^ suc k - 1),
      twice_field high k,
      pow-suc 2 k,
      half,
    )

-- The mask of the `k` lowest bits takes the remainder.
pub bit_and-mask : (k a : ℕ) → bit_and a (2 ^ k - 1) ≡ a % 2 ^ k
bit_and-mask k a = ground (arith, one-le-pow k 2, and_field k (a / 2 ^ k) (a % 2 ^ k))

-- The fields of a word do not overlap, so their disjunction is their sum.
pub bit_or-field : (k high low : ℕ) → low < 2 ^ k → bit_or (high * 2 ^ k) low ≡ high * 2 ^ k + low
bit_or-field zero high low h = ground (arith, or_none high high (omega arith))
bit_or-field (suc k) high low h =
    let half = bit_or-field k high (low / 2) (omega (arith, pow-suc 2 k)) in
    ground (arith, or_lowest (high * 2 ^ suc k) low, twice_field high k, pow-suc 2 k, half)

-- a number with a bit set is not 0
pub le-bit_or : (rounds a b : ℕ) → a ≤ rounds → b ≤ bit_or a b
le-bit_or rounds zero b h = omega (arith, bit_or-bitwise 0 b)
le-bit_or zero (suc a) b h = absurd (omega arith)
le-bit_or (suc rounds) (suc a) b h =
    omega (arith, or_lowest (suc a) b, le-bit_or rounds (suc a / 2) (b / 2) (omega arith))

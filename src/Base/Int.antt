-- ===== src/Base/Int.antt =====
-- Signed integers over the native numbers, under the library's names (its ℤ stands on another ℕ):
-- the values of C's `int`, and their conversion to `uint64_t`.
use Prim.Native.Nat.{ℕ, suc, ◌-◌, ◌^◌, ◌%◌, ◌<◌}
use mathlib.Core.Bool.{Bool, true, false}
use libibtl.Base.Tests.{◌==◌, ltb, if◌then◌else◌}
use mathlib.Core.Path.{◌≡◌}
use mathlib.Core.Logic.{◌↔◌}
use native.Mathlib.Omega.{arith}

-- `negsuc n` is -(n + 1).
pub data ℤ : Type 0 where
  pos : ℕ → ℤ
  negsuc : ℕ → ℤ

-- the C constant -1
abbrev pub minus_one : ℤ
minus_one = negsuc 0

abbrev pub eq_ℤ : ℤ → ℤ → Bool
eq_ℤ (pos a) (pos b) = a == b
eq_ℤ (negsuc a) (negsuc b) = a == b
eq_ℤ _ _ = false

-- The conversion of an `int` to `uint64_t`: a negative value wraps around.
abbrev pub to_u64 : ℤ → ℕ
to_u64 (pos n) = n
to_u64 (negsuc n) = 2 ^ 64 - suc n

-- The conversion of a `uint64_t` to `int`: the low 32 bits, read with a sign.
abbrev pub to_int : ℕ → ℤ
to_int n = let w = n % 2 ^ 32 in if ltb w (2 ^ 31) then pos w else negsuc (2 ^ 32 - w - 1)

-- the values of an `int`
abbrev pub IsInt : ℤ → Type 0
IsInt (pos n) = n < 2 ^ 31
IsInt (negsuc n) = n < 2 ^ 31

-- an `int` survives the way through 64 bits
pub to_int-to_u64 : (a : ℤ) → IsInt a → to_int (to_u64 a) ≡ a
to_int-to_u64 (pos n) h = ground arith
to_int-to_u64 (negsuc n) h =
    let w : (2 ^ 64 - suc n) % 2 ^ 32 ≡ 2 ^ 32 - suc n = omega arith in rw w (ground arith)

pub eq_ℤ_iff : (a b : ℤ) → (eq_ℤ a b ≡ true) ↔ (a ≡ b)
eq_ℤ_iff (pos a) (pos b) = ground arith
eq_ℤ_iff (pos a) (negsuc b) = ground arith
eq_ℤ_iff (negsuc a) (pos b) = ground arith
eq_ℤ_iff (negsuc a) (negsuc b) = ground arith

-- ===== src/Prelude/Int.antt =====
-- Signed integers over the native numbers, and the conversions between the widths of C.
use Prim.Native.Nat.{ℕ, suc, ◌-◌, ◌^◌, ◌%◌}
use mathlib.Core.Path.{◌≡◌}
use mathlib.Core.Logic.{◌↔◌}
use mathlib.Core.Bool.{Bool, true, false}
use native.Mathlib.Omega.{arith}
use pagealignfs.Prelude.Tests.{ltb, ◌==◌, if◌then◌else◌}

-- `negsuc n` is -(n + 1).
pub data ℤ : Type 0 where
  pos : ℕ → ℤ
  negsuc : ℕ → ℤ

abbrev pub minus_one : ℤ
minus_one = negsuc 0

-- a == b
abbrev pub eqb_ℤ : ℤ → ℤ → Bool
eqb_ℤ (pos a) (pos b) = a == b
eqb_ℤ (negsuc a) (negsuc b) = a == b
eqb_ℤ _ _ = false

-- a < b
abbrev pub ltb_ℤ : ℤ → ℤ → Bool
ltb_ℤ (pos a) (pos b) = ltb a b
ltb_ℤ (pos a) (negsuc b) = false
ltb_ℤ (negsuc a) (pos b) = true
ltb_ℤ (negsuc a) (negsuc b) = ltb b a

abbrev pub int_max : ℤ
int_max = pos (2 ^ 31 - 1)

abbrev pub int_min : ℤ
int_min = negsuc (2 ^ 31 - 1)

-- a number that an int holds
abbrev pub IsInt : ℤ → Type 0
IsInt n = (ltb_ℤ int_max n ≡ false) × (ltb_ℤ n int_min ≡ false)

-- a < 0
abbrev pub is_negative : ℤ → Bool
is_negative (pos n) = false
is_negative (negsuc n) = true

-- -a, as a number that is not negative where `a` is not positive.
abbrev pub negate : ℤ → ℤ
negate (pos n) = if n == 0 then pos 0 else negsuc (n - 1)
negate (negsuc n) = pos (suc n)

-- static_cast<uint64_t>(a)
abbrev pub to_u64 : ℤ → ℕ
to_u64 (pos n) = n % 2 ^ 64
to_u64 (negsuc n) = 2 ^ 64 - 1 - n % 2 ^ 64

-- static_cast<int32_t>(n)
abbrev pub wrap_i32 : ℕ → ℤ
wrap_i32 n = if ltb n (2 ^ 31) then pos n else negsuc (2 ^ 32 - 1 - n)

abbrev pub to_i32 : ℕ → ℤ
to_i32 n = wrap_i32 (n % 2 ^ 32)

-- A descriptor that is stored in the 64 bits of `fh` is read back.
pub to_i32-to_u64 : (n : ℤ) → IsInt n → to_i32 (to_u64 n) ≡ n
to_i32-to_u64 (pos n) h = ground arith
to_i32-to_u64 (negsuc n) h = ground arith

pub eqb_ℤ_iff : (a b : ℤ) → (eqb_ℤ a b ≡ true) ↔ (a ≡ b)
eqb_ℤ_iff a b = ground arith

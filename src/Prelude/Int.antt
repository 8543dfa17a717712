-- ===== src/Prelude/Int.antt =====
-- Signed machine integers, as integers over the native numbers.
use Prim.Native.Nat.{ℕ, zero, suc, ◌<◌, ◌^◌, ◌-◌}
use mathlib.Core.Path.{◌≡◌, ap}
use mathlib.Core.Bool.{Bool, true, false}
use native.Mathlib.Omega.{arith}
use trale.Prelude.Tests.{◌==◌}

-- `negsuc n` is -(n + 1).
pub data ℤ : Type 0 where
  pos : ℕ → ℤ
  negsuc : ℕ → ℤ

abbrev pub is_negative : ℤ → Bool
is_negative (pos n) = false
is_negative (negsuc n) = true

-- The values of `i32`.
abbrev pub IsI32 : ℤ → Type 0
IsI32 (pos n) = n < 2 ^ 31
IsI32 (negsuc n) = n < 2 ^ 31

-- `x as usize` for an `i32`, and `x as u64` for an `i64`: the sign is extended.
abbrev pub as_usize : ℤ → ℕ
as_usize (pos n) = n
as_usize (negsuc n) = 2 ^ 64 - suc n

abbrev pub is_minus_one : ℤ → Bool
is_minus_one (negsuc zero) = true
is_minus_one _ = false

-- equality of file descriptors
abbrev pub same_fd : ℤ → ℤ → Bool
same_fd (pos a) (pos b) = a == b
same_fd (negsuc a) (negsuc b) = a == b
same_fd _ _ = false

pub same_fd-eq : (a b : ℤ) → same_fd a b ≡ true → a ≡ b
same_fd-eq (pos a) (pos b) h = ap pos (ground arith)
same_fd-eq (negsuc a) (negsuc b) h = ap negsuc (ground arith)
same_fd-eq (pos a) (negsuc b) h = absurd (cc)
same_fd-eq (negsuc a) (pos b) h = absurd (cc)

pub same_fd_refl : (a : ℤ) → same_fd a a ≡ true
same_fd_refl (pos a) = ground arith
same_fd_refl (negsuc a) = ground arith

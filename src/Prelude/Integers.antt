-- ===== src/Prelude/Integers.antt =====
-- Integers over the native numbers, with the product and the comparison that the models use.
use Prim.Native.Nat.{ℕ, zero, suc, ◌*◌}
use mathlib.Core.Path.{◌≡◌, refl}
use mathlib.Core.Bool.{Bool, true, false}
use native.Mathlib.Omega.{arith}
use perfect_match_qms.Prelude.Tests.{leb}

pub data ℤ : Type 0 where
  pos negsuc : ℕ → ℤ

abbrev neg : ℕ → ℤ
neg zero = pos 0
neg (suc n) = negsuc n

infixl 7 ◌*ℤ◌
abbrev pub ◌*ℤ◌ : ℤ → ℤ → ℤ
pos a *ℤ pos b = pos (a * b)
pos a *ℤ negsuc b = neg (a * suc b)
negsuc a *ℤ pos b = neg (suc a * b)
negsuc a *ℤ negsuc b = pos (suc a * suc b)

abbrev pub lebℤ : ℤ → ℤ → Bool
lebℤ (pos a) (pos b) = leb a b
lebℤ (pos a) (negsuc b) = false
lebℤ (negsuc a) (pos b) = true
lebℤ (negsuc a) (negsuc b) = leb b a

pub lebℤ_trans : (a b c : ℤ) → lebℤ a b ≡ true → lebℤ b c ≡ true → lebℤ a c ≡ true
lebℤ_trans (pos a) (pos b) (pos c) h k = ground arith
lebℤ_trans (pos a) (pos b) (negsuc c) h k = cc
lebℤ_trans (pos a) (negsuc b) c h k = cc
lebℤ_trans (negsuc a) b (pos c) h k = refl
lebℤ_trans (negsuc a) (pos b) (negsuc c) h k = cc
lebℤ_trans (negsuc a) (negsuc b) (negsuc c) h k = ground arith

-- ===== src/Base/Score.antt =====
-- Signed integers over the native numbers. A score, a float64 of the program that is not NaN, is
-- read as the integer whose sign and magnitude are those of its bit pattern: this keeps the order
-- of the floats, and the program only compares scores.
use Prim.Native.Nat.{ℕ, suc, ◌+◌, ◌-◌, ◌^◌, ◌≤◌, ◌<◌}
use mathlib.Core.Path.{◌≡◌}
use mathlib.Core.Logic.{◌↔◌, ◌⊎◌}
use mathlib.Core.Bool.{Bool, true}
use native.Mathlib.Decide.{ℕ_discrete}
use native.Mathlib.Omega.{arith}
use er_pi_middleware25_artif.Base.Tests.{ltb, leb, ◌==◌, if◌then◌else◌}

-- `negsuc n` is -(n + 1).
pub data ℤ : Type 0 where
  pos : ℕ → ℤ
  negsuc : ℕ → ℤ

abbrev pub pos_part : ℤ → ℕ
pos_part (pos n) = n
pos_part (negsuc n) = 0

abbrev pub neg_part : ℤ → ℕ
neg_part (pos n) = 0
neg_part (negsuc n) = suc n

infix 50 ◌≤ℤ◌ ◌<ℤ◌
abbrev pub ◌≤ℤ◌ : ℤ → ℤ → Type 0
a ≤ℤ b = pos_part a + neg_part b ≤ pos_part b + neg_part a

abbrev pub ◌<ℤ◌ : ℤ → ℤ → Type 0
a <ℤ b = pos_part a + neg_part b < pos_part b + neg_part a

abbrev pub ltb_ℤ : ℤ → ℤ → Bool
ltb_ℤ a b = ltb (pos_part a + neg_part b) (pos_part b + neg_part a)

-- a - b, as an integer.
abbrev pub sub_ℕ : ℕ → ℕ → ℤ
sub_ℕ a b = if leb b a then pos (a - b) else negsuc (b - a - 1)

infixl 65 ◌+ℤ◌
abbrev pub ◌+ℤ◌ : ℤ → ℤ → ℤ
a +ℤ b = sub_ℕ (pos_part a + pos_part b) (neg_part a + neg_part b)

-- a + b of the type int, which wraps around at 64 bits.
abbrev pub wrap_int : ℤ → ℤ
wrap_int z =
    if ltb_ℤ (pos (2 ^ 63 - 1)) z
    then z +ℤ negsuc (2 ^ 64 - 1)
    else if ltb_ℤ z (negsuc (2 ^ 63 - 1))
    then z +ℤ pos (2 ^ 64)
    else z

abbrev pub add_int : ℤ → ℤ → ℤ
add_int a b = wrap_int (a +ℤ b)

abbrev pub eqb_ℤ : ℤ → ℤ → Bool
eqb_ℤ a b = pos_part a + neg_part b == pos_part b + neg_part a

pub ltb_ℤ_iff : (a b : ℤ) → (ltb_ℤ a b ≡ true) ↔ (a <ℤ b)
ltb_ℤ_iff a b = ground arith

pub eq_of_le_le : (a b : ℤ) → a ≤ℤ b → b ≤ℤ a → a ≡ b
eq_of_le_le (pos a) (pos b) h k = ground arith
eq_of_le_le (pos a) (negsuc b) h k = absurd (omega arith)
eq_of_le_le (negsuc a) (pos b) h k = absurd (omega arith)
eq_of_le_le (negsuc a) (negsuc b) h k = ground arith

pub ℤ-discrete : Discrete ℤ
ℤ-discrete = hlevel ℕ_discrete

pub ≤ℤ_total : (a b : ℤ) → (a ≤ℤ b) ⊎ (b ≤ℤ a)
≤ℤ_total a b = omega arith

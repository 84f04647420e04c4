-- ===== src/Pool/Hashes/Words.antt =====
-- The bit operations that roshi/pool/hashes.go uses, at variables.
use Prim.Native.Nat.{
  bit_and, bit_or, bit_xor, digits, differ, bit_or-bitwise, bit_xor-bitwise, bit_and-bitwise,
}
use er_pi_middleware25_artif.Base.{
  ℕ, zero, suc, ◌+◌, ◌*◌, ◌/◌, ◌%◌, ◌^◌, ◌≤◌, ◌<◌, min, max, ◌≡◌, refl, ◌∙◌, arith,
}

-- An operation on binary digits has no more digits than its arguments.
digits-lt :
    (f : ℕ → ℕ → ℕ)
    → ((x y : ℕ) → x < 2 → y < 2 → f x y < 2)
    → (k n a b : ℕ) → a < 2 ^ k
    → b < 2 ^ k
    → digits (λ b. b) f n a b < 2 ^ k
digits-lt f h k zero a b p q = q
digits-lt f h k (suc n) zero b p q = q
digits-lt f h zero (suc n) (suc a) b p q = absurd (omega arith)
digits-lt f h (suc k) (suc n) (suc a) b p q = omega (
  arith,
  digits-lt f h k n (suc a / 2) (b / 2) (omega arith) (omega arith),
  h (suc a % 2) (b % 2) (omega arith) (omega arith),
)

pub differ_cases : (x y : ℕ) → x < 2 → y < 2 → differ x y < 2
differ_cases zero y p q = q
differ_cases (suc x) zero p q = p
differ_cases (suc zero) (suc zero) p q = omega arith
differ_cases (suc (suc x)) (suc y) p q = absurd (omega arith)
differ_cases (suc zero) (suc (suc y)) p q = absurd (omega arith)

pub bit_xor-lt : (k a b : ℕ) → a < 2 ^ k → b < 2 ^ k → bit_xor a b < 2 ^ k
bit_xor-lt k a b p q = rw (bit_xor-bitwise a b) (digits-lt differ differ_cases k a a b p q)

pub bit_or-lt : (k a b : ℕ) → a < 2 ^ k → b < 2 ^ k → bit_or a b < 2 ^ k
bit_or-lt k a b p q = rw (bit_or-bitwise a b) (digits-lt max (λ x y p q. omega arith) k a a b p q)

double : (x k : ℕ) → x * 2 ^ suc k ≡ 2 * (x * 2 ^ k)
double x k = grind arith

differ-zero : (t y : ℕ) → y ≡ 0 → differ t y ≡ t
differ-zero zero y e = e
differ-zero (suc t) zero e = refl
differ-zero (suc t) (suc y) e = absurd (omega arith)

zero-differ : (t y : ℕ) → t ≡ 0 → differ t y ≡ y
zero-differ zero y e = refl
zero-differ (suc t) y e = absurd (omega arith)

-- Exclusive or of a number with k zeros at its end and one of k digits.
digits-disjoint :
    (k n a x y : ℕ) → a ≡ x * 2 ^ k → a ≤ n → y < 2 ^ k → digits (λ b. b) differ n a y ≡ a + y
digits-disjoint k zero zero x y e p q = omega arith
digits-disjoint k zero (suc a) x y e p q = absurd (omega arith)
digits-disjoint k (suc n) zero x y e p q = omega arith
digits-disjoint zero (suc n) (suc a) x y e p q = omega (
  arith,
  digits-disjoint zero n (suc a / 2) (suc a / 2) (y / 2) (omega arith) (omega arith) (omega arith),
  differ-zero (suc a % 2) (y % 2) (omega arith),
)
digits-disjoint (suc k) (suc n) (suc a) x y e p q =
    let even = e ∙ double x k in
    omega (
      arith,
      double x k,
      digits-disjoint k n (suc a / 2) x (y / 2) (omega (arith, even)) (omega arith) (omega arith),
      zero-differ (suc a % 2) (y % 2) (omega (arith, even)),
    )

pub bit_xor-disjoint : (k x y : ℕ) → y < 2 ^ k → bit_xor (x * 2 ^ k) y ≡ x * 2 ^ k + y
bit_xor-disjoint k x y q =
    bit_xor-bitwise (x * 2 ^ k) y
    ∙ digits-disjoint k (x * 2 ^ k) (x * 2 ^ k) x y refl (omega arith) q

-- Masks of no bits, one bit and two bits.
and_mask0 : (n a : ℕ) → digits (λ b. 0) min n a 0 ≡ 0
and_mask0 zero a = refl
and_mask0 (suc n) zero = refl
and_mask0 (suc n) (suc a) = omega (arith, and_mask0 n (suc a / 2))

and_mask1 : (n a : ℕ) → a ≤ n → digits (λ b. 0) min n a 1 ≡ a % 2
and_mask1 zero a h = omega arith
and_mask1 (suc n) zero h = refl
and_mask1 (suc n) (suc a) h = omega (arith, and_mask0 n (suc a / 2))

and_mask3 : (n a : ℕ) → a ≤ n → digits (λ b. 0) min n a 3 ≡ a % 4
and_mask3 zero a h = omega arith
and_mask3 (suc n) zero h = refl
and_mask3 (suc n) (suc a) h = omega (arith, and_mask1 n (suc a / 2) (omega arith))

pub bit_and-three : (n : ℕ) → bit_and n 3 ≡ n % 4
bit_and-three n = bit_and-bitwise n 3 ∙ and_mask3 n n (omega arith)

-- ===== src/Server/Percentage.antt =====
-- evaluateScalarPercentage of roshi-server/main.go, which reads the write quorum: "P%" of the
-- clusters, or a number of them.
use er_pi_middleware25_artif.Base.{
  ℕ, zero, suc, ◌≤◌, ◌<◌, ◌≡◌, arith, [], ◌∷◌, Option, none, some, ℤ, pos, negsuc, ◌≤ℤ◌, ltb, leb,
  ◌==◌, ◌||◌, ◌&&◌, Bool, if◌then◌else◌,
}
use er_pi_middleware25_artif.Common.{Bytes}
use er_pi_middleware25_artif.Common.Digits.{parse_int64}

-- The spaces of ASCII; strings.TrimSpace also trims the other white space of Unicode.
abbrev pub is_space : ℕ → Bool
is_space c = (leb 9 c && leb c 13) || c == b' '

unfoldable pub trim_left : Bytes → Bytes
trim_left [] = []
trim_left (c ∷ cs) = let rest = trim_left cs in if is_space c then rest else c ∷ cs

-- Without the spaces at its end.
unfoldable pub trim_right : Bytes → Bytes
trim_right [] = []
trim_right (c ∷ cs) = elim (trim_right cs) [
  | [] ↦ if is_space c then [] else c ∷ []
  | d ∷ ds ↦ c ∷ d ∷ ds
]

-- s[:len(s)-1] if s ends in "%".
unfoldable pub before_percent : Bytes → Option Bytes
before_percent [] = none
before_percent (c ∷ []) = if c == b'%' then some [] else none
before_percent (c ∷ d ∷ cs) = elim (before_percent (d ∷ cs)) [ none ↦ none | some s ↦ some (c ∷ s) ]

-- The errors, by the message's kind.
pub data Evaluated : Type 0 where
  value : ℕ → Evaluated
  bad_total bad_percentage bad_scalar out_of_range : Evaluated

abbrev pub within : ℕ → ℤ → Evaluated
within n (pos v) = if v == 0 || ltb n v then out_of_range else value v
within n (negsuc v) = out_of_range

abbrev pub scalar : ℕ → Option ℤ → Evaluated
scalar n none = bad_scalar
scalar n (some v) = within n v

-- `ceil_of p n` is int(math.Ceil((float64(p) / 100.0) * float64(n))).
module _ (ceil_of : ℕ → ℕ → ℤ) where
  abbrev pub percentage : ℕ → Option ℤ → Evaluated
  percentage n none = bad_percentage
  percentage n (some (negsuc p)) = bad_percentage
  percentage n (some (pos p)) =
      if p == 0 || ltb 100 p then bad_percentage else within n (ceil_of p n)

  abbrev pub evaluate : ℕ → Bytes → Evaluated
  evaluate n s = elim (before_percent s) [
    | some p ↦ percentage n (parse_int64 p)
    | none ↦ scalar n (parse_int64 s)
  ]

  unfoldable pub evaluate_scalar_percentage : Bytes → ℤ → Evaluated
  unfolding trim_left trim_right before_percent
  evaluate_scalar_percentage s (negsuc n) = bad_total
  evaluate_scalar_percentage s (pos zero) = bad_total
  evaluate_scalar_percentage s (pos (suc n)) = evaluate (suc n) (trim_right (trim_left s))

within_range : (n v : ℕ) (z : ℤ) → within n z ≡ value v → (0 < v) × (v ≤ n)
within_range n v (pos w) h = ground arith
within_range n v (negsuc w) h = ground arith

module _ (ceil_of : ℕ → ℕ → ℤ) where
  percentage_range : (n v : ℕ) (o : Option ℤ) → percentage ceil_of n o ≡ value v → (0 < v) × (v ≤ n)
  percentage_range n v none h = absurd (ground arith)
  percentage_range n v (some (negsuc p)) h = absurd (ground arith)
  percentage_range n v (some (pos p)) h = ground (arith, within_range n v (ceil_of p n))

  scalar_range : (n v : ℕ) (o : Option ℤ) → scalar n o ≡ value v → (0 < v) × (v ≤ n)
  scalar_range n v none h = absurd (ground arith)
  scalar_range n v (some z) h = within_range n v z h

  evaluate_range : (n v : ℕ) (s : Bytes) → evaluate ceil_of n s ≡ value v → (0 < v) × (v ≤ n)
  evaluate_range n v s h = ground (arith, percentage_range n v, scalar_range n v (parse_int64 s))

  -- An accepted write quorum is at least one and at most the number of clusters, whatever the
  -- rounding of the percentage gives.
  pub evaluate_scalar_percentage_range :
      (s : Bytes) (n : ℤ) (v : ℕ)
      → evaluate_scalar_percentage ceil_of s n ≡ value v
      → (0 < v) × (pos v ≤ℤ n)
  unfolding evaluate_scalar_percentage
  evaluate_scalar_percentage_range s (negsuc n) v h = absurd (ground arith)
  evaluate_scalar_percentage_range s (pos zero) v h = absurd (ground arith)
  evaluate_scalar_percentage_range s (pos (suc n)) v h =
      let r = evaluate_range (suc n) v (trim_right (trim_left s)) h in ground arith

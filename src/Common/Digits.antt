-- ===== src/Common/Digits.antt =====
-- The decimal numbers of the strconv package, as common/cursor.go, farm/parse_farm_string.go and
-- roshi-server/main.go read and print them.
use native.Mathlib.Omega.{pow_step}
use er_pi_middleware25_artif.Base.{
  ℕ, zero, suc, ◌+◌, ◌-◌, ◌*◌, ◌/◌, ◌%◌, ◌^◌, ◌<◌, ◌≡◌, ◌≢◌, subst, refl, ap, ◌∙◌, arith, ltb, leb,
  ◌==◌, ◌&&◌, [], ◌∷◌, ◌++◌, Option, none, some, Bool, true, false, if◌then◌else◌, ℤ, pos, negsuc,
  dec_lt, All, Bool-cases, inl, inr,
}
use er_pi_middleware25_artif.Common.{Bytes}

abbrev pub is_digit : ℕ → Bool
is_digit c = leb b'0' c && leb c b'9'

-- The digits, after the value `n` of those that are read.
unfoldable pub parse_digits : Bytes → ℕ → Option ℕ
parse_digits [] n = some n
parse_digits (c ∷ cs) n =
    let rest = parse_digits cs (n * 10 + (c - b'0')) in if is_digit c then rest else none

abbrev pub below : ℕ → Option ℕ → Option ℕ
below bound none = none
below bound (some n) = if ltb n bound then some n else none

-- strconv.ParseUint(s, 10, bits)
unfoldable pub parse_uint : ℕ → Bytes → Option ℕ
unfolding parse_digits
parse_uint bits [] = none
parse_uint bits (c ∷ cs) = below (2 ^ bits) (parse_digits (c ∷ cs) 0)

abbrev pub negated : Option ℕ → Option ℤ
negated none = none
negated (some zero) = some (pos 0)
negated (some (suc n)) = some (negsuc n)

abbrev pub positive : Option ℕ → Option ℤ
positive none = none
positive (some n) = some (pos n)

abbrev pub digits_after : Bytes → Option ℕ
digits_after [] = none
digits_after (c ∷ cs) = parse_digits (c ∷ cs) 0

-- strconv.ParseInt(s, 10, 64)
unfoldable pub parse_int64 : Bytes → Option ℤ
unfolding parse_digits
parse_int64 [] = none
parse_int64 (c ∷ cs) =
    if c == b'-'
    then negated (below (2 ^ 63 + 1) (digits_after cs))
    else if c == b'+'
    then positive (below (2 ^ 63) (digits_after cs))
    else positive (below (2 ^ 63) (digits_after (c ∷ cs)))

-- The decimal digits of a number, at most as many as the fuel.
unfoldable pub digits_of : ℕ → ℕ → Bytes
digits_of zero n = []
digits_of (suc fuel) n =
    let rest = digits_of fuel (n / 10) in
    if ltb n 10 then (b'0' + n) ∷ [] else rest ++ (b'0' + n % 10) ∷ []

-- fmt's %d of a uint64: below 2^64 there are at most 20 digits.
unfoldable pub print_uint64 : ℕ → Bytes
unfolding digits_of
print_uint64 n = digits_of 20 n

abbrev and_digit : ℕ → Option ℕ → Option ℕ
and_digit d none = none
and_digit d (some n) = some (n * 10 + d)

parse_digits-append :
    (xs : Bytes) (d n : ℕ)
    → d < 10
    → parse_digits (xs ++ (b'0' + d) ∷ []) n ≡ and_digit d (parse_digits xs n)
unfolding parse_digits
parse_digits-append [] d n h = ground arith
parse_digits-append (x ∷ xs) d n h =
    ground (arith, parse_digits-append xs d (n * 10 + (x - b'0')) h)

parse_digits-digits_of :
    (fuel n : ℕ) → n < 10 ^ fuel → 0 < fuel → parse_digits (digits_of fuel n) 0 ≡ some n
unfolding parse_digits digits_of
parse_digits-digits_of zero n h p = absurd (omega arith)
parse_digits-digits_of (suc zero) n h p = ground (arith, small n h)
  where
    small : (n : ℕ) → n < 10 ^ 1 → n < 10
    small n h = omega arith
parse_digits-digits_of (suc (suc fuel)) n h p =
    let ih = parse_digits-digits_of (suc fuel) (n / 10) (tenth n h) (omega arith) in
    let last = parse_digits-append (digits_of (suc fuel) (n / 10)) (n % 10) 0 (omega arith) in
    elim (dec_lt n 10) [
      | yes l ↦ ground arith
      | no l ↦ rw (not_below n l) (last ∙ ap (and_digit (n % 10)) ih ∙ ap some (omega arith))
    ]
  where
    tenth : (n : ℕ) → n < 10 ^ suc (suc fuel) → n / 10 < 10 ^ suc fuel
    tenth n h = let e = pow_step 10 (suc fuel) in omega (arith, e)

    not_below : (n : ℕ) → ¬ (n < 10) → ltb n 10 ≡ false
    not_below n l = ground arith

digits_of-nonempty : (fuel n : ℕ) → digits_of (suc fuel) n ≢ []
unfolding digits_of
digits_of-nonempty fuel n e = nonempty (ltb n 10) (digits_of fuel (n / 10)) e
  where
    nonempty :
        (b : Bool) (xs : Bytes) → (if b then (b'0' + n) ∷ [] else (xs ++ (b'0' + n % 10) ∷ [])) ≢ []
    nonempty true xs e = cc
    nonempty false [] e = cc
    nonempty false (x ∷ xs) e = cc

parse_uint_of :
    (bits n : ℕ) (cs : Bytes)
    → parse_digits cs 0 ≡ some n
    → cs ≢ []
    → n < 2 ^ bits
    → parse_uint bits cs ≡ some n
unfolding parse_uint
parse_uint_of bits n [] e f h = absurd (f refl)
parse_uint_of bits n (c ∷ cs) e f h = rw e (ground arith)

pub digits_of-print_uint64 : (n : ℕ) → digits_of 20 n ≡ print_uint64 n
unfolding print_uint64
digits_of-print_uint64 n = refl

-- What is printed is read again.
pub parse_uint-print_uint64 : (n : ℕ) → n < 2 ^ 64 → parse_uint 64 (print_uint64 n) ≡ some n
parse_uint-print_uint64 n h =
    subst (λ cs. parse_uint 64 cs ≡ some n) (digits_of-print_uint64 n)
      (parse_uint_of 64 n (digits_of 20 n) (parse_digits-digits_of 20 n (omega arith) (omega arith))
        (digits_of-nonempty 19 n) h)

parse_int64_of :
    (n : ℕ) (cs : Bytes)
    → parse_digits cs 0 ≡ some n
    → cs ≢ []
    → n < 2 ^ 63
    → parse_int64 cs ≡ some (pos n)
unfolding parse_int64 parse_digits
parse_int64_of n [] e f h = absurd (f refl)
parse_int64_of n (c ∷ cs) e f h = ground arith

-- So is a number that fits an int.
pub parse_int64-print_uint64 : (n : ℕ) → n < 2 ^ 63 → parse_int64 (print_uint64 n) ≡ some (pos n)
parse_int64-print_uint64 n h =
    subst (λ cs. parse_int64 cs ≡ some (pos n)) (digits_of-print_uint64 n)
      (parse_int64_of n (digits_of 20 n) (parse_digits-digits_of 20 n (omega arith) (omega arith))
        (digits_of-nonempty 19 n) h)

-- Bytes that are ASCII.
abbrev pub IsAscii : Bytes → Type 0
IsAscii s = All (λ c. c < 128) s

digits_of-IsAscii : (fuel n : ℕ) → IsAscii (digits_of fuel n)
unfolding digits_of
digits_of-IsAscii zero n = tt
digits_of-IsAscii (suc fuel) n = elim (Bool-cases (ltb n 10)) [
  | inl h ↦ rw (h) (ground arith, tt)
  | inr h ↦ rw (h) (
      ascii_last (digits_of fuel (n / 10)) (n % 10) (omega arith) (digits_of-IsAscii fuel (n / 10)))
]
  where
    ascii_last : (s : Bytes) (d : ℕ) → d < 10 → IsAscii s → IsAscii (s ++ (b'0' + d) ∷ [])
    ascii_last [] d h a = (omega arith, tt)
    ascii_last (c ∷ s) d h a = (a.0, ascii_last s d h a.1)

pub print_uint64-IsAscii : (n : ℕ) → IsAscii (print_uint64 n)
unfolding print_uint64
print_uint64-IsAscii n = digits_of-IsAscii 20 n

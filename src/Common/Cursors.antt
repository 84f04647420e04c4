-- ===== src/Common/Cursors.antt =====
-- The text of a cursor, of common/cursor.go: the bits of its score, the letter A and its member.
use er_pi_middleware25_artif.Base.{
  ℕ, zero, suc, ◌+◌, ◌-◌, ◌/◌, ◌%◌, ◌^◌, ◌<◌, ◌≡◌, refl, ◌∙◌, subst, arith, ltb, ◌==◌, [], ◌∷◌,
  ◌++◌, All, Option, none, some, true, false, if◌then◌else◌, ℤ, pos, negsuc, pos_part, neg_part,
}
use er_pi_middleware25_artif.Common.{Bytes, Cursor}
use er_pi_middleware25_artif.Common.Digits.{
  digits_of-print_uint64, parse_uint, digits_of, is_digit, print_uint64, parse_uint-print_uint64,
}
use er_pi_middleware25_artif.Common.Base64.{encode, decode}
use er_pi_middleware25_artif.Common.Base64.RoundTrip.{decode-encode}
use er_pi_middleware25_artif.Cluster.Conn.{Error, Result, ok, err}

-- math.Float64bits, for a score by its sign and magnitude.
unfoldable pub bits_of_score : ℤ → ℕ
bits_of_score (pos n) = n
bits_of_score (negsuc n) = 2 ^ 63 + (n + 1)

abbrev pub negative : ℕ → ℤ
negative zero = pos 0
negative (suc n) = negsuc n

-- math.Float64frombits
unfoldable pub score_of_bits : ℕ → ℤ
score_of_bits n = if ltb n (2 ^ 63) then pos n else negative (n - 2 ^ 63)

unfoldable pub print_cursor : Cursor → Bytes
unfolding bits_of_score
print_cursor c = print_uint64 (bits_of_score c.score) ++ b'A' ∷ encode c.member

-- Encode, after what the writer holds.
unfoldable pub write_cursor : Bytes → Cursor → Bytes
write_cursor written c =
    (written ++ print_uint64 (bits_of_score c.score) ++ b'A' ∷ []) ++ encode c.member

abbrev pub first_field : ℕ → Option (Bytes × Bytes) → Option (Bytes × Bytes)
first_field c none = none
first_field c (some (a, b)) = some (c ∷ a, b)

-- strings.SplitN(s, "A", 2), if it makes two fields.
unfoldable pub split_fields : Bytes → Option (Bytes × Bytes)
split_fields [] = none
split_fields (c ∷ cs) =
    let rest = split_fields cs in if c == b'A' then some ([], cs) else first_field c rest

-- The errors, without what they print of the string.
abbrev pub invalid_cursor : Error
invalid_cursor = b'c' ∷ b'u' ∷ b'r' ∷ b's' ∷ b'o' ∷ b'r' ∷ []

abbrev pub invalid_score : Error
invalid_score = b's' ∷ b'c' ∷ b'o' ∷ b'r' ∷ b'e' ∷ []

abbrev pub invalid_member : Error
invalid_member = b'm' ∷ b'e' ∷ b'm' ∷ b'b' ∷ b'e' ∷ b'r' ∷ []

unfoldable pub parse_fields : Option ℕ → Option Bytes → Result Cursor
unfolding score_of_bits
parse_fields none member = err invalid_score
parse_fields (some bits) none = err invalid_member
parse_fields (some bits) (some member) = ok (record { score = score_of_bits bits; member = member })

unfoldable pub parse_cursor : Bytes → Result Cursor
unfolding parse_fields split_fields
parse_cursor s = elim (split_fields s) [
  | none ↦ err invalid_cursor
  | some (a, b) ↦ parse_fields (parse_uint 64 a) (decode b)
]

AllDigits : Bytes → Type 0
AllDigits = All (λ c. is_digit c ≡ true)

AllDigits-append : (xs : Bytes) (d : ℕ) → AllDigits xs → d < 10 → AllDigits (xs ++ (b'0' + d) ∷ [])
unfolding AllDigits
AllDigits-append [] d a h = (ground arith, tt)
AllDigits-append (x ∷ xs) d a h = (a.0, AllDigits-append xs d a.1 h)

digits_of-AllDigits : (fuel n : ℕ) → AllDigits (digits_of fuel n)
unfolding digits_of AllDigits
digits_of-AllDigits zero n = tt
digits_of-AllDigits (suc fuel) n = ground (
  arith,
  AllDigits-append (digits_of fuel (n / 10)) (n % 10) (digits_of-AllDigits fuel (n / 10))
      (omega arith),
)

split_fields-digits :
    (xs rest : Bytes) → AllDigits xs → split_fields (xs ++ b'A' ∷ rest) ≡ some (xs, rest)
unfolding split_fields AllDigits
split_fields-digits [] rest a = refl
split_fields-digits (x ∷ xs) rest a = ground (arith, split_fields-digits xs rest a.1)

not_below : (m : ℕ) → ltb (2 ^ 63 + m) (2 ^ 63) ≡ false
not_below m = ground arith

without : (m : ℕ) → 2 ^ 63 + m - 2 ^ 63 ≡ m
without m = omega arith

suc_of : (n : ℕ) → n + 1 ≡ suc n
suc_of n = omega arith

parse_cursor_of :
    (s a b : Bytes)
    → split_fields s ≡ some (a, b)
    → parse_cursor s ≡ parse_fields (parse_uint 64 a) (decode b)
unfolding parse_cursor
parse_cursor_of s a b e = rw (e, parse_cursor) refl

score_of_bits-bits_of_score :
    (s : ℤ)
    → pos_part s < 2 ^ 63
    → neg_part s < 2 ^ 63
    → (score_of_bits (bits_of_score s) ≡ s) × (bits_of_score s < 2 ^ 64)
unfolding score_of_bits bits_of_score
score_of_bits-bits_of_score (pos n) h k = (ground arith, omega arith)
score_of_bits-bits_of_score (negsuc n) h k =
    (rw (not_below (n + 1), without (n + 1), suc_of n) refl, omega arith)

-- A cursor that is printed is parsed to itself, if its member is made of bytes and its score has
-- the magnitude of a float64.
pub parse_cursor-print_cursor :
    (c : Cursor)
    → pos_part c.score < 2 ^ 63
    → neg_part c.score < 2 ^ 63
    → All (λ b. b < 256) c.member
    → parse_cursor (print_cursor c) ≡ ok c
unfolding print_cursor parse_fields
parse_cursor-print_cursor c h k m =
    let (score, below) = score_of_bits-bits_of_score c.score h k in
    let bits = bits_of_score c.score in
    let digits = subst AllDigits (digits_of-print_uint64 bits) (digits_of-AllDigits 20 bits) in
    parse_cursor_of (print_cursor c) (print_uint64 bits) (encode c.member)
      (split_fields-digits (print_uint64 bits) (encode c.member) digits)
    ∙ rw (parse_uint-print_uint64 bits below, decode-encode c.member m, score) refl

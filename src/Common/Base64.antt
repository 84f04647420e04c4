-- ===== src/Common/Base64.antt =====
-- base64.URLEncoding, in which common/cursor.go writes the member of a cursor. The decoder drops
-- line breaks, and wants groups of four characters with padding in the last group only.
pub mod RoundTrip
use er_pi_middleware25_artif.Base.{
  ℕ, ◌+◌, ◌-◌, ◌*◌, ◌/◌, ◌%◌, ◌<◌, ◌≡◌, ◌≢◌, refl, sym, ap, ◌∙◌, arith, ltb, leb, ◌==◌, ◌&&◌, ◌||◌,
  [], ◌∷◌, All, Option, none, some, if◌then◌else◌,
}
use er_pi_middleware25_artif.Common.{Bytes}

abbrev pub pad : ℕ
pad = b'='

unfoldable pub char_of : ℕ → ℕ
char_of n =
    if ltb n 26
    then 65 + n
    else if ltb n 52
    then 71 + n
    else if ltb n 62
    then n - 4
    else if n == 62
    then b'-'
    else b'_'

unfoldable pub value_of : ℕ → Option ℕ
value_of c =
    if leb 65 c && leb c 90
    then some (c - 65)
    else if leb 97 c && leb c 122
    then some (c - 71)
    else if leb 48 c && leb c 57
    then some (c + 4)
    else if c == b'-'
    then some 62
    else if c == b'_'
    then some 63
    else none

unfoldable pub encode : Bytes → Bytes
encode [] = []
encode (a ∷ []) = char_of (a / 4) ∷ char_of (a % 4 * 16) ∷ pad ∷ pad ∷ []
encode (a ∷ b ∷ []) =
    char_of (a / 4) ∷ char_of (a % 4 * 16 + b / 16) ∷ char_of (b % 16 * 4) ∷ pad ∷ []
encode (a ∷ b ∷ c ∷ rest) =
    char_of (a / 4)
    ∷ char_of (a % 4 * 16 + b / 16)
    ∷ char_of (b % 16 * 4 + c / 64)
    ∷ char_of (c % 64)
    ∷ encode rest

abbrev pub first_byte : ℕ → ℕ → ℕ
first_byte p q = p * 4 + q / 16

abbrev pub second_byte : ℕ → ℕ → ℕ
second_byte q r = q % 16 * 16 + r / 4

abbrev pub third_byte : ℕ → ℕ → ℕ
third_byte r s = r % 4 * 64 + s

abbrev pub one_byte : Option ℕ → Option ℕ → Option Bytes
one_byte (some p) (some q) = some (first_byte p q ∷ [])
one_byte none q = none
one_byte (some p) none = none

abbrev pub two_bytes : Option ℕ → Option ℕ → Option ℕ → Option Bytes
two_bytes (some p) (some q) (some r) = some (first_byte p q ∷ second_byte q r ∷ [])
two_bytes none q r = none
two_bytes (some p) none r = none
two_bytes (some p) (some q) none = none

abbrev pub three_bytes : Option ℕ → Option ℕ → Option ℕ → Option ℕ → Option Bytes → Option Bytes
three_bytes (some p) (some q) (some r) (some s) (some rest) =
    some (first_byte p q ∷ second_byte q r ∷ third_byte r s ∷ rest)
three_bytes none q r s rest = none
three_bytes (some p) none r s rest = none
three_bytes (some p) (some q) none s rest = none
three_bytes (some p) (some q) (some r) none rest = none
three_bytes (some p) (some q) (some r) (some s) none = none

-- The last group, which may end in padding.
abbrev pub last_group : ℕ → ℕ → ℕ → ℕ → Option Bytes
last_group p q r s =
    if s == pad
    then if r == pad
      then one_byte (value_of p) (value_of q)
      else two_bytes (value_of p) (value_of q) (value_of r)
    else three_bytes (value_of p) (value_of q) (value_of r) (value_of s) (some [])

unfoldable pub decode_groups : Bytes → Option Bytes
decode_groups [] = some []
decode_groups (p ∷ []) = none
decode_groups (p ∷ q ∷ []) = none
decode_groups (p ∷ q ∷ r ∷ []) = none
decode_groups (p ∷ q ∷ r ∷ s ∷ []) = last_group p q r s
decode_groups (p ∷ q ∷ r ∷ s ∷ t ∷ rest) =
    three_bytes (value_of p) (value_of q) (value_of r) (value_of s) (decode_groups (t ∷ rest))

unfoldable pub drop_breaks : Bytes → Bytes
drop_breaks [] = []
drop_breaks (c ∷ cs) = let rest = drop_breaks cs in if c == 10 || c == 13 then rest else c ∷ rest

unfoldable pub decode : Bytes → Option Bytes
unfolding decode_groups drop_breaks
decode s = decode_groups (drop_breaks s)

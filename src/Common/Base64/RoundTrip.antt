-- ===== src/Common/Base64/RoundTrip.antt =====
-- A text that base64.URLEncoding writes is read back, in common/cursor.go.
use er_pi_middleware25_artif.Base.{
  ℕ, ◌+◌, ◌*◌, ◌/◌, ◌%◌, ◌<◌, ◌≡◌, ◌≢◌, refl, sym, ap, ◌∙◌, arith, [], ◌∷◌, All, some,
}
use er_pi_middleware25_artif.Common.{Bytes}
use er_pi_middleware25_artif.Common.Base64.{
  pad, char_of, value_of, encode, first_byte, second_byte, third_byte, three_bytes, decode_groups,
  drop_breaks, decode,
}

pub value_of-char_of : (n : ℕ) → n < 64 → value_of (char_of n) ≡ some n
unfolding value_of char_of
value_of-char_of n h = ground arith

pub char_of-kept : (n : ℕ) → n < 64 → (char_of n ≢ 10) × (char_of n ≢ 13) × (char_of n ≢ pad)
unfolding char_of
char_of-kept n h = ground arith

abbrev pub IsBytes : Bytes → Type 0
IsBytes = All (λ c. c < 256)

pub keep_char :
    (n : ℕ) (cs : Bytes) → n < 64 → drop_breaks (char_of n ∷ cs) ≡ char_of n ∷ drop_breaks cs
unfolding drop_breaks
keep_char n cs h = ground (arith, char_of-kept n h)

pub sextet_1 : (x : ℕ) → x < 256 → x / 4 < 64
sextet_1 x h = omega arith

pub sextet_2 : (x y : ℕ) → y < 256 → x % 4 * 16 + y / 16 < 64
sextet_2 x y h = omega arith

pub sextet_3 : (y z : ℕ) → z < 256 → y % 16 * 4 + z / 64 < 64
sextet_3 y z h = omega arith

pub first_lem : (x k : ℕ) → k < 16 → first_byte (x / 4) (x % 4 * 16 + k) ≡ x
first_lem x k h = omega arith

pub second_lem :
    (x y k : ℕ) → y < 256 → k < 4 → second_byte (x % 4 * 16 + y / 16) (y % 16 * 4 + k) ≡ y
second_lem x y k h l = omega arith

pub third_lem : (y z : ℕ) → z < 256 → third_byte (y % 16 * 4 + z / 64) (z % 64) ≡ z
third_lem y z h = omega arith

pub drop_breaks-encode : (xs : Bytes) → IsBytes xs → drop_breaks (encode xs) ≡ encode xs
unfolding encode drop_breaks
drop_breaks-encode [] b = refl
drop_breaks-encode (x ∷ []) b =
    ground (arith, char_of-kept (x / 4) (sextet_1 x b.0), char_of-kept (x % 4 * 16) (omega arith))
drop_breaks-encode (x ∷ y ∷ []) b = ground (
  arith,
  char_of-kept (x / 4) (sextet_1 x b.0),
  char_of-kept (x % 4 * 16 + y / 16) (sextet_2 x y b.1.0),
  char_of-kept (y % 16 * 4) (omega arith),
)
drop_breaks-encode (x ∷ y ∷ z ∷ rest) b = ground (
  arith,
  char_of-kept (x / 4) (sextet_1 x b.0),
  char_of-kept (x % 4 * 16 + y / 16) (sextet_2 x y b.1.0),
  char_of-kept (y % 16 * 4 + z / 64) (sextet_3 y z b.1.1.0),
  char_of-kept (z % 64) (omega arith),
  drop_breaks-encode rest b.1.1.1,
)

pub three_lem :
    (x y z : ℕ) (rest : Bytes)
    → x < 256
    → y < 256
    → z < 256
    → three_bytes
        (value_of (char_of (x / 4)))
        (value_of (char_of (x % 4 * 16 + y / 16)))
        (value_of (char_of (y % 16 * 4 + z / 64)))
        (value_of (char_of (z % 64)))
        (some rest)
      ≡ some (x ∷ y ∷ z ∷ rest)
three_lem x y z rest a b c = ground (
  arith,
  value_of-char_of (x / 4) (sextet_1 x a),
  value_of-char_of (x % 4 * 16 + y / 16) (sextet_2 x y b),
  value_of-char_of (y % 16 * 4 + z / 64) (sextet_3 y z c),
  value_of-char_of (z % 64) (omega arith),
  first_lem x (y / 16) (omega arith),
  second_lem x y (z / 64) b (omega arith),
  third_lem y z c,
)

pub encode-cons : (w : ℕ) (rest : Bytes) → (t : ℕ) × (ts : Bytes) × (encode (w ∷ rest) ≡ t ∷ ts)
unfolding encode
encode-cons w [] = (_, _, refl)
encode-cons w (x ∷ []) = (_, _, refl)
encode-cons w (x ∷ y ∷ rest) = (_, _, refl)

pub decode_groups-encode : (xs : Bytes) → IsBytes xs → decode_groups (encode xs) ≡ some xs
unfolding decode_groups encode
decode_groups-encode [] b = refl
decode_groups-encode (x ∷ []) b = ground (
  arith,
  value_of-char_of (x / 4) (sextet_1 x b.0),
  value_of-char_of (x % 4 * 16) (omega arith),
  first_lem x 0 (omega arith),
)
decode_groups-encode (x ∷ y ∷ []) b = ground (
  arith,
  value_of-char_of (x / 4) (sextet_1 x b.0),
  value_of-char_of (x % 4 * 16 + y / 16) (sextet_2 x y b.1.0),
  value_of-char_of (y % 16 * 4) (omega arith),
  char_of-kept (y % 16 * 4) (omega arith),
  first_lem x (y / 16) (omega arith),
  second_lem x y 0 b.1.0 (omega arith),
)
decode_groups-encode (x ∷ y ∷ z ∷ []) b =
    ground (arith, three_lem x y z [] b.0 b.1.0 b.1.1.0, char_of-kept (z % 64) (omega arith))
decode_groups-encode (x ∷ y ∷ z ∷ w ∷ rest) b =
    let ih = decode_groups-encode (w ∷ rest) b.1.1.1 in
    let (t, ts, e) = encode-cons w rest in go t ts e ih
  where
    go :
        (t : ℕ) (ts : Bytes)
        → encode (w ∷ rest) ≡ t ∷ ts
        → decode_groups (encode (w ∷ rest)) ≡ some (w ∷ rest)
        → decode_groups (
            char_of (x / 4)
            ∷ char_of (x % 4 * 16 + y / 16)
            ∷ char_of (y % 16 * 4 + z / 64)
            ∷ char_of (z % 64)
            ∷ encode (w ∷ rest))
          ≡ some (x ∷ y ∷ z ∷ w ∷ rest)
    go t ts e ih =
        let whole : decode_groups (t ∷ ts) ≡ some (w ∷ rest) = ap decode_groups (sym e) ∙ ih in
        ap
          (λ l. decode_groups (
            char_of (x / 4)
            ∷ char_of (x % 4 * 16 + y / 16)
            ∷ char_of (y % 16 * 4 + z / 64)
            ∷ char_of (z % 64)
            ∷ l))
          e
        ∙ ap
            (three_bytes (value_of (char_of (x / 4))) (value_of (char_of (x % 4 * 16 + y / 16)))
              (value_of (char_of (y % 16 * 4 + z / 64))) (value_of (char_of (z % 64))))
            whole
        ∙ three_lem x y z (w ∷ rest) b.0 b.1.0 b.1.1.0

-- What is encoded is decoded again.
pub decode-encode : (xs : Bytes) → All (λ c. c < 256) xs → decode (encode xs) ≡ some xs
unfolding decode
decode-encode xs b = ap decode_groups (drop_breaks-encode xs b) ∙ decode_groups-encode xs b

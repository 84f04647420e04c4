-- ===== src/Pool/Hashes/Reference.antt =====
-- Murmur3 of roshi/pool/hashes.go against its definition on the bytes of a key, and the bounds of
-- the hash functions.
use Prim.Native.Nat.{bit_xor, bit_xor-bitwise}
use er_pi_middleware25_artif.Base.{
  ℕ, zero, suc, ◌+◌, ◌*◌, ◌/◌, ◌%◌, ◌^◌, ◌<◌, ◌≡◌, refl, sym, ap, Option, none, some, get_elem?,
  ◌∙◌, [], ◌∷◌, length, drop, ◌==◌, if◌then◌else◌, All, arith, subst, false,
}
use er_pi_middleware25_artif.Common.{Bytes}
use er_pi_middleware25_artif.Pool.Hashes.{
  u32_mod, mul32, shl, scramble, mix, read_word, blocks, tail_word, add_tail, finalize, finalized,
  mix_tail, case_1, case_2, case_3, xor_byte, murmur3, fnv_offset, fnv_from, fnva_from, fnv, fnva,
}
use er_pi_middleware25_artif.Pool.Hashes.Words.{bit_xor-lt, bit_xor-disjoint, bit_and-three}

abbrev pub IsByte : ℕ → Type 0
IsByte b = b < 2 ^ 8

-- The bytes in fours, each a little-endian number; what is left counts as a shorter number, and
-- is mixed in by its scrambling alone.
abbrev pub body : ℕ → Bytes → ℕ
body h [] = h
body h (a ∷ []) = bit_xor h (scramble a)
body h (a ∷ b ∷ []) = bit_xor h (scramble (a + 2 ^ 8 * b))
body h (a ∷ b ∷ c ∷ []) = bit_xor h (scramble (a + 2 ^ 8 * b + 2 ^ 16 * c))
body h (a ∷ b ∷ c ∷ d ∷ rest) = body (mix h (a + 2 ^ 8 * b + 2 ^ 16 * c + 2 ^ 24 * d)) rest

abbrev pub reference : Bytes → ℕ
reference [] = 0
reference (b ∷ key) = finalize (suc (length key)) (body 0 (b ∷ key))

zero-bit_xor : (b : ℕ) → bit_xor 0 b ≡ b
zero-bit_xor b = bit_xor-bitwise 0 b

suc-add : (i j : ℕ) → suc i + j ≡ suc (i + j)
suc-add i j = omega arith

get_elem?-drop : (key : Bytes) (i j : ℕ) → get_elem? key (i + j) ≡ get_elem? (drop i key) j
get_elem?-drop [] zero j = refl
get_elem?-drop [] (suc i) j = refl
get_elem?-drop (b ∷ key) zero j = ap (get_elem? (b ∷ key)) (omega arith)
get_elem?-drop (b ∷ key) (suc i) j = ap (get_elem? (b ∷ key)) (suc-add i j) ∙ get_elem?-drop key i j

case_1-drop : (key : Bytes) (i : ℕ) (o : Option ℕ) → case_1 key i o ≡ case_1 (drop i key) 0 o
case_1-drop key i none = refl
case_1-drop key i (some k) = ap (λ b. xor_byte k b 0) (get_elem?-drop key i 0)

case_2-drop : (key : Bytes) (i : ℕ) (o : Option ℕ) → case_2 key i o ≡ case_2 (drop i key) 0 o
case_2-drop key i none = refl
case_2-drop key i (some k) =
    case_1-drop key i (xor_byte k (get_elem? key (i + 1)) 8)
    ∙ ap (λ b. case_1 (drop i key) 0 (xor_byte k b 8)) (get_elem?-drop key i 1)

case_3-drop : (key : Bytes) (i : ℕ) → case_3 key i 0 ≡ case_3 (drop i key) 0 0
case_3-drop key i =
    case_2-drop key i (xor_byte 0 (get_elem? key (i + 2)) 16)
    ∙ ap (λ b. case_2 (drop i key) 0 (xor_byte 0 b 16)) (get_elem?-drop key i 2)

pick :
    (a b c d e f : Option ℕ) (n : ℕ)
    → a ≡ d
    → b ≡ e
    → c ≡ f
    → (if n == 3 then a else if n == 2 then b else c)
      ≡ (if n == 3 then d else if n == 2 then e else f)
pick a b c d e f n p q r = rw (p, q, r) refl

tail_word-drop : (key : Bytes) (i n : ℕ) → tail_word key i n ≡ tail_word (drop i key) 0 n
unfolding tail_word
tail_word-drop key i n =
    pick _ _ _ _ _ _ n (case_3-drop key i) (case_2-drop key i (some 0)) (case_1-drop key i (some 0))

shl-byte : (b : ℕ) → IsByte b → (shl b 8 ≡ b * 2 ^ 8) × (shl b 16 ≡ b * 2 ^ 16) × (shl b 0 ≡ b)
shl-byte b h = (omega arith, omega arith, omega arith)

two_bytes :
    (a b : ℕ) → IsByte a → IsByte b → bit_xor (bit_xor 0 (shl b 8)) (shl a 0) ≡ a + 2 ^ 8 * b
two_bytes a b p q =
    rw (zero-bit_xor, (shl-byte b q).0, (shl-byte a p).2, bit_xor-disjoint 8 b a p) (omega arith)

three_bytes :
    (a b c : ℕ)
    → IsByte a
    → IsByte b
    → IsByte c
    → bit_xor (bit_xor (bit_xor 0 (shl c 16)) (shl b 8)) (shl a 0) ≡ a + 2 ^ 8 * b + 2 ^ 16 * c
three_bytes a b c p q r =
    let shifted : c * 2 ^ 16 + b * 2 ^ 8 ≡ (c * 2 ^ 8 + b) * 2 ^ 8 = omega arith in
    rw
      (
        zero-bit_xor,
        (shl-byte c r).1,
        (shl-byte a p).2,
        (shl-byte b q).0,
        bit_xor-disjoint 16 c (b * 2 ^ 8) (omega arith),
        shifted,
        bit_xor-disjoint 8 (c * 2 ^ 8 + b) a p,
      )
      (omega arith)

-- What the switch on the length makes of the bytes that are left.
finish : Bytes → ℕ → ℕ → Option ℕ
finish left n h = if n == 0 then some h else mix_tail h (tail_word left 0 n)

finish_lem :
    (left : Bytes) (h : ℕ)
    → All IsByte left
    → length left < 4
    → finish left (length left) h ≡ some (body h left)
unfolding finish tail_word
finish_lem [] h a l = refl
finish_lem (x ∷ []) h a l = rw (zero-bit_xor, (shl-byte x a.0).2) refl
finish_lem (x ∷ y ∷ []) h a l = rw (two_bytes x y a.0 a.1.0) refl
finish_lem (x ∷ y ∷ z ∷ []) h a l = rw (three_bytes x y z a.0 a.1.0 a.1.1.0) refl
finish_lem (x ∷ y ∷ z ∷ w ∷ left) h a l = absurd (omega arith)

add_tail-drop :
    (key : Bytes) (h : ℕ)
    → add_tail key h ≡ finish (drop (length key / 4 * 4) key) (length key % 4) h
unfolding add_tail finish
add_tail-drop key h =
    ground
      (arith, bit_and-three (length key), tail_word-drop key (length key / 4 * 4) (length key % 4))

less_mod : (n : ℕ) → n < 4 → n ≡ n % 4
less_mod n h = omega arith

four_more : (q : ℕ) → suc q * 4 ≡ suc (suc (suc (suc (q * 4))))
four_more q = omega arith

mod_four : (n : ℕ) → suc (suc (suc (suc n))) % 4 ≡ n % 4
mod_four n = omega arith

body_lem :
    (q : ℕ) (key : Bytes) (h : ℕ)
    → All IsByte key
    → q ≡ length key / 4
    → finish (drop (q * 4) key) (length key % 4) (blocks q h key) ≡ some (body h key)
unfolding blocks read_word
body_lem zero key h a e =
    let small : length key < 4 = omega arith in
    subst (λ n. finish key n h ≡ some (body h key)) (less_mod (length key) small)
      (finish_lem key h a small)
body_lem (suc q) [] h a e = absurd (omega arith)
body_lem (suc q) (x ∷ []) h a e = absurd (omega arith)
body_lem (suc q) (x ∷ y ∷ []) h a e = absurd (omega arith)
body_lem (suc q) (x ∷ y ∷ z ∷ []) h a e = absurd (omega arith)
body_lem (suc q) (x ∷ y ∷ z ∷ w ∷ key) h a e =
    rw (four_more q, mod_four (length key))
      (body_lem q key (mix h (read_word (x ∷ y ∷ z ∷ w ∷ []))) a.1.1.1.1 (omega arith))

non_zero : (n : ℕ) → (suc n == 0) ≡ false
non_zero n = ground arith

-- On the bytes of a key Murmur3, which indexes the key and shifts its last bytes into a word, does not
-- panic: no index is out of the key. It computes the hash that is defined by recursion on the bytes, with the
-- last one to three bytes read as a little-endian number.
pub murmur3-reference : (key : Bytes) → All IsByte key → murmur3 key ≡ some (reference key)
unfolding murmur3
murmur3-reference [] a = refl
murmur3-reference (b ∷ key) a = rw (non_zero (length key)) (
    ap (finalized (suc (length key))) (
      add_tail-drop (b ∷ key) (blocks (suc (length key) / 4) 0 (b ∷ key))
      ∙ body_lem (suc (length key) / 4) (b ∷ key) 0 a refl))

word : (k c : ℕ) → mul32 k c < u32_mod
word k c = omega arith

finalize-lt : (len h : ℕ) → finalize len h < u32_mod
unfolding finalize
finalize-lt len h = bit_xor-lt 32 _ _ (omega arith) (omega arith)

fnv_from-lt : (s : Bytes) (h : ℕ) → All IsByte s → h < u32_mod → fnv_from h s < u32_mod
unfolding fnv_from
fnv_from-lt [] h a l = l
fnv_from-lt (b ∷ s) h a l =
    fnv_from-lt s _ a.1 (bit_xor-lt 32 _ _ (omega arith) (omega (arith, a.0)))

fnva_from-lt : (s : Bytes) (h : ℕ) → h < u32_mod → fnva_from h s < u32_mod
unfolding fnva_from
fnva_from-lt [] h l = l
fnva_from-lt (b ∷ s) h l = fnva_from-lt s _ (omega arith)

reference-lt : (s : Bytes) → reference s < 2 ^ 32
reference-lt [] = omega arith
reference-lt (b ∷ s) = finalize-lt (suc (length s)) _

some_inj : {a b : ℕ} → some a ≡ some b → a ≡ b
some_inj e = cc

-- The hash of a key is a uint32, for each of the three functions that the programs offer.
pub hashes-lt :
    (s : Bytes)
    → All IsByte s
    → ((h : ℕ) → murmur3 s ≡ some h → h < 2 ^ 32) × (fnv s < 2 ^ 32) × (fnva s < 2 ^ 32)
unfolding fnv fnva
hashes-lt s a = (
  λ h e. subst (λ h. h < 2 ^ 32) (some_inj (sym (murmur3-reference s a) ∙ e)) (reference-lt s),
  fnv_from-lt s fnv_offset a (omega arith),
  fnva_from-lt s fnv_offset (omega arith),
)

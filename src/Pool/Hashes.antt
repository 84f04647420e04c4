-- ===== src/Pool/Hashes.antt =====
-- roshi/pool/hashes.go: the hash functions of keys, on uint32 words.
pub mod Words
pub mod Reference
use Prim.Native.Nat.{bit_and, bit_or, bit_xor}
use er_pi_middleware25_artif.Base.{
  ℕ, zero, suc, ◌+◌, ◌-◌, ◌*◌, ◌/◌, ◌%◌, ◌^◌, List, [], ◌∷◌, ◌++◌, length, take, drop, get_or,
  get_elem?, Option, none, some, ◌==◌, ◌≡◌, refl, if◌then◌else◌,
}
use er_pi_middleware25_artif.Common.{Bytes}

abbrev pub u32_mod : ℕ
u32_mod = 2 ^ 32

-- k * c, k << r, k >> r and k << r | k >> (32-r) of uint32 words.
abbrev pub mul32 : ℕ → ℕ → ℕ
mul32 k c = k * c % u32_mod

abbrev pub shl : ℕ → ℕ → ℕ
shl k r = k * 2 ^ r % u32_mod

abbrev pub shr : ℕ → ℕ → ℕ
shr k r = k / 2 ^ r

unfoldable pub rotate : ℕ → ℕ → ℕ
rotate k r = bit_or (shl k r) (shr k (32 - r))

abbrev pub c1 : ℕ
c1 = 0xcc9e_2d51

abbrev pub c2 : ℕ
c2 = 0x1b87_3593

unfoldable pub scramble : ℕ → ℕ
unfolding rotate
scramble k = mul32 (rotate (mul32 k c1) 15) c2

unfoldable pub mix : ℕ → ℕ → ℕ
unfolding rotate
mix h k = (rotate (bit_xor h (scramble k)) 13 * 5 + 0xe654_6b64) % u32_mod

-- binary.Read of a little-endian uint32.
unfoldable pub read_word : Bytes → ℕ
read_word buf =
    get_or buf 0 0 + 2 ^ 8 * get_or buf 1 0 + 2 ^ 16 * get_or buf 2 0 + 2 ^ 24 * get_or buf 3 0

unfoldable pub blocks : ℕ → ℕ → Bytes → ℕ
blocks zero h buf = h
blocks (suc n) h buf = blocks n (mix h (read_word (take 4 buf))) (drop 4 buf)

-- k ^= uint32(b) << r, for a byte that is read at an index; none if the index is out of range, which panics.
abbrev pub xor_byte : ℕ → Option ℕ → ℕ → Option ℕ
xor_byte k none r = none
xor_byte k (some b) r = some (bit_xor k (shl b r))

-- The cases of the switch on length & 3, each with its fallthrough; `i` is tailIndex.
abbrev pub case_1 : Bytes → ℕ → Option ℕ → Option ℕ
case_1 key i none = none
case_1 key i (some k) = xor_byte k (get_elem? key (i + 0)) 0

abbrev pub case_2 : Bytes → ℕ → Option ℕ → Option ℕ
case_2 key i none = none
case_2 key i (some k) = case_1 key i (xor_byte k (get_elem? key (i + 1)) 8)

abbrev pub case_3 : Bytes → ℕ → ℕ → Option ℕ
case_3 key i k = case_2 key i (xor_byte k (get_elem? key (i + 2)) 16)

unfoldable pub tail_word : Bytes → ℕ → ℕ → Option ℕ
tail_word key i n =
    if n == 3
    then case_3 key i 0
    else if n == 2
    then case_2 key i (some 0)
    else case_1 key i (some 0)

abbrev pub mix_tail : ℕ → Option ℕ → Option ℕ
mix_tail h none = none
mix_tail h (some k) = some (bit_xor h (scramble k))

unfoldable pub add_tail : Bytes → ℕ → Option ℕ
add_tail key h =
    let n = bit_and (length key) 3 in
    if n == 0 then some h else mix_tail h (tail_word key (length key / 4 * 4) n)

unfoldable pub finalize : ℕ → ℕ → ℕ
finalize len h =
    let h0 = bit_xor h (len % u32_mod) in
    let h1 = mul32 (bit_xor h0 (shr h0 16)) 0x85eb_ca6b in
    let h2 = mul32 (bit_xor h1 (shr h1 13)) 0xc2b2_ae35 in bit_xor h2 (shr h2 16)

abbrev pub finalized : ℕ → Option ℕ → Option ℕ
finalized len none = none
finalized len (some h) = some (finalize len h)

-- The hash, or none if the code panics.
unfoldable pub murmur3 : Bytes → Option ℕ
murmur3 key =
    if length key == 0
    then some 0
    else finalized (length key) (add_tail key (blocks (length key / 4) 0 key))

-- hash/fnv of the standard library: the offset basis and the prime of 32 bits.
abbrev pub fnv_offset : ℕ
fnv_offset = 0x811c_9dc5

abbrev pub fnv_prime : ℕ
fnv_prime = 0x0100_0193

unfoldable pub fnv_from : ℕ → Bytes → ℕ
fnv_from h [] = h
fnv_from h (b ∷ s) = fnv_from (bit_xor (mul32 h fnv_prime) b) s

unfoldable pub fnva_from : ℕ → Bytes → ℕ
fnva_from h [] = h
fnva_from h (b ∷ s) = fnva_from (mul32 (bit_xor h b) fnv_prime) s

unfoldable pub fnv : Bytes → ℕ
fnv s = fnv_from fnv_offset s

unfoldable pub fnva : Bytes → ℕ
fnva s = fnva_from fnv_offset s

-- ===== src/Redis/Sorted.antt =====
-- A sorted set as a list of members in ascending order of score.
use er_pi_middleware25_artif.Base.{
  ℕ, zero, suc, ◌+◌, ◌-◌, ◌≤◌, ◌<◌, ◌≡◌, refl, ℤ, ◌≤ℤ◌, ◌<ℤ◌, ltb_ℤ, Option, none, some, ite,
  dec_lt, min, List, [], ◌∷◌, length, drop, length-drop, arith, if◌then◌else◌, ◌≢◌,
}
use er_pi_middleware25_artif.Common.{Bytes, Bytes-discrete}

-- A member with its score.
abbrev pub Zset : Type 0
Zset = List (Bytes × ℤ)

unfoldable pub zscore : Zset → Bytes → Option ℤ
zscore [] j = none
zscore ((m, s) ∷ z) j = ite (Bytes-discrete m j) (some s) (zscore z j)

pub zscore-empty : (j : Bytes) → zscore [] j ≡ none
unfolding zscore
zscore-empty j = refl

unfoldable pub zrank : Zset → Bytes → ℕ
zrank [] j = 0
zrank ((m, s) ∷ z) j = ite (Bytes-discrete m j) 0 (suc (zrank z j))

unfoldable pub zrem : Zset → Bytes → Zset
zrem [] j = []
zrem ((m, s) ∷ z) j = let rest = zrem z j in ite (Bytes-discrete m j) rest ((m, s) ∷ rest)

-- Behind the members of a lower score.
unfoldable pub place : Zset → ℤ → Bytes → Zset
place [] t j = (j, t) ∷ []
place ((m, s) ∷ z) t j =
    let rest = place z t j in if ltb_ℤ s t then (m, s) ∷ rest else (j, t) ∷ (m, s) ∷ z

unfoldable pub zadd : Zset → ℤ → Bytes → Zset
unfolding zrem place
zadd z t j = place (zrem z j) t j

unfoldable pub zrange_first : Zset → Option ℤ
zrange_first [] = none
zrange_first ((m, s) ∷ z) = some s

abbrev pub zremrangebyrank : Zset → ℕ → Zset
zremrangebyrank z n = drop (length z - n) z

-- Every later entry has another member, and no lower score.
abbrev pub Above : Bytes → ℤ → Zset → Type 0
Above m s [] = Unit {0}
Above m s ((j, t) ∷ z) = (m ≢ j) × (s ≤ℤ t) × Above m s z

abbrev pub IsZset : Zset → Type 0
IsZset [] = Unit {0}
IsZset ((m, s) ∷ z) = Above m s z × IsZset z

Above-absent : (m : Bytes) (s : ℤ) (z : Zset) → Above m s z → zscore z m ≡ none
unfolding zscore
Above-absent m s [] h = refl
Above-absent m s ((j, t) ∷ z) h = ground (arith, Above-absent m s z h.2, h.0)

Above-mono :
    (m : Bytes) (s : ℤ) (j : Bytes) (t : ℤ) (z : Zset)
    → s ≤ℤ t
    → zscore z m ≡ none
    → Above j t z
    → Above m s z
unfolding zscore
Above-mono m s j t [] h e a = tt
Above-mono m s j t ((i, u) ∷ z) h e a =
    (ground arith, ground arith, Above-mono m s j t z h (ground arith) a.2)

Above-le :
    (m : Bytes) (s : ℤ) (z : Zset) (j : Bytes) (b : ℤ) → Above m s z → zscore z j ≡ some b → s ≤ℤ b
unfolding zscore
Above-le m s [] j b a e = absurd (ground arith)
Above-le m s ((i, u) ∷ z) j b a e = ground (arith, Above-le m s z j b a.2)

Above-zrem : (m : Bytes) (s : ℤ) (j : Bytes) (z : Zset) → Above m s z → Above m s (zrem z j)
unfolding zrem
Above-zrem m s j [] a = tt
Above-zrem m s j ((i, u) ∷ z) a = ground (arith, Above-zrem m s j z a.2)

pub zrem-IsZset : (z : Zset) (m : Bytes) → IsZset z → IsZset (zrem z m)
unfolding zrem
zrem-IsZset [] j v = tt
zrem-IsZset ((m, s) ∷ z) j v = ground (arith, Above-zrem m s j z v.0, zrem-IsZset z j v.1)

pub zscore-zrem :
    (z : Zset) (m j : Bytes) → zscore (zrem z m) j ≡ ite (Bytes-discrete m j) none (zscore z j)
unfolding zscore zrem
zscore-zrem [] m j = ground arith
zscore-zrem ((i, s) ∷ z) m j = ground (arith, zscore-zrem z m j)

Above-place :
    (m : Bytes) (s : ℤ) (z : Zset) (t : ℤ) (j : Bytes)
    → m ≢ j
    → s ≤ℤ t
    → Above m s z
    → Above m s (place z t j)
unfolding place
Above-place m s [] t j n h a = (n, h, tt)
Above-place m s ((i, u) ∷ z) t j n h a = ground (arith, Above-place m s z t j n h a.2)

place-IsZset : (z : Zset) (t : ℤ) (j : Bytes) → zscore z j ≡ none → IsZset z → IsZset (place z t j)
unfolding place zscore
place-IsZset [] t j e v = (tt, tt)
place-IsZset ((i, u) ∷ z) t j e v =
    ground (arith, place-IsZset z t j, Above-place i u z t j, Above-mono j t i u z)

pub zscore-place :
    (z : Zset) (t : ℤ) (m j : Bytes)
    → zscore z m ≡ none
    → zscore (place z t m) j ≡ ite (Bytes-discrete m j) (some t) (zscore z j)
unfolding place zscore
zscore-place [] t m j e = refl
zscore-place ((i, u) ∷ z) t m j e = ground (arith, zscore-place z t m j)

pub zadd-IsZset : (z : Zset) (s : ℤ) (m : Bytes) → IsZset z → IsZset (zadd z s m)
unfolding zadd
zadd-IsZset z s m v =
    place-IsZset (zrem z m) s m (ground (arith, zscore-zrem z m m)) (zrem-IsZset z m v)

pub zscore-zadd :
    (z : Zset) (s : ℤ) (m j : Bytes)
    → IsZset z
    → zscore (zadd z s m) j ≡ ite (Bytes-discrete m j) (some s) (zscore z j)
unfolding zadd
zscore-zadd z s m j v =
    ground (arith, zscore-place (zrem z m) s m j, zscore-zrem z m m, zscore-zrem z m j)

length-place : (z : Zset) (t : ℤ) (j : Bytes) → length (place z t j) ≡ suc (length z)
unfolding place
length-place [] t j = refl
length-place ((i, u) ∷ z) t j = ground (arith, length-place z t j)

pub zcard-zrem : (z : Zset) (m : Bytes) → length (zrem z m) ≤ length z
unfolding zrem
zcard-zrem [] m = omega arith
zcard-zrem ((i, u) ∷ z) m = ground (arith, zcard-zrem z m)

zrem-absent : (z : Zset) (m : Bytes) → zscore z m ≡ none → zrem z m ≡ z
unfolding zrem zscore
zrem-absent [] m e = refl
zrem-absent ((i, u) ∷ z) m e = ground (arith, zrem-absent z m)

-- What ZADD adds to the number of members, given the score that the member had.
abbrev pub added : Option ℤ → ℕ
added none = 1
added (some s) = 0

length-zrem :
    (z : Zset) (m : Bytes) → IsZset z → length (zrem z m) + 1 ≡ length z + added (zscore z m)
unfolding zrem zscore
length-zrem [] m v = refl
length-zrem ((i, u) ∷ z) m v =
    ground (arith, length-zrem z m v.1, zrem-absent z m, Above-absent i u z v.0)

pub zcard-zadd :
    (z : Zset) (s : ℤ) (m : Bytes) → IsZset z → length (zadd z s m) ≡ length z + added (zscore z m)
unfolding zadd
zcard-zadd z s m v = omega (arith, length-place (zrem z m) s m, length-zrem z m v)

pub zcard-zremrangebyrank : (z : Zset) (n : ℕ) → length (zremrangebyrank z n) ≡ min n (length z)
zcard-zremrangebyrank z n = omega (arith, length-drop (length z - n) z)

drop-absent : (k : ℕ) (z : Zset) (j : Bytes) → zscore z j ≡ none → zscore (drop k z) j ≡ none
unfolding zscore
drop-absent zero z j e = e
drop-absent (suc k) [] j e = refl
drop-absent (suc k) ((i, u) ∷ z) j e = ground (arith, drop-absent k z j)

drop-IsZset : (k : ℕ) (z : Zset) → IsZset z → IsZset (drop k z)
drop-IsZset zero z v = v
drop-IsZset (suc k) [] v = tt
drop-IsZset (suc k) ((i, u) ∷ z) v = drop-IsZset k z v.1

pub zremrangebyrank-IsZset : (z : Zset) (n : ℕ) → IsZset z → IsZset (zremrangebyrank z n)
zremrangebyrank-IsZset z n v = drop-IsZset (length z - n) z v

zscore-drop :
    (k : ℕ) (z : Zset) (j : Bytes)
    → IsZset z
    → zscore (drop k z) j ≡ ite (dec_lt (zrank z j) k) none (zscore z j)
unfolding zscore zrank
zscore-drop zero z j v = ground arith
zscore-drop (suc k) [] j v = ground arith
zscore-drop (suc k) ((i, u) ∷ z) j v =
    ground (arith, zscore-drop k z j v.1, drop-absent k z j, Above-absent i u z v.0)

pub zscore-zremrangebyrank :
    (z : Zset) (n : ℕ) (j : Bytes)
    → IsZset z
    → zscore (zremrangebyrank z n) j ≡ ite (dec_lt (zrank z j + n) (length z)) none (zscore z j)
zscore-zremrangebyrank z n j v = ground (arith, zscore-drop (length z - n) z j v)

pub zrank_mono :
    (z : Zset) (i j : Bytes) (a b : ℤ)
    → IsZset z
    → zscore z i ≡ some a
    → zscore z j ≡ some b
    → a <ℤ b
    → zrank z i < zrank z j
unfolding zscore zrank
zrank_mono [] i j a b v p q h = cc
zrank_mono ((m, s) ∷ z) i j a b v p q h =
    ground (arith, zrank_mono z i j a b v.1, Above-le m s z i a v.0)

pub zrange_first_le :
    (z : Zset) (j : Bytes) (b : ℤ)
    → IsZset z
    → zscore z j ≡ some b
    → (a : ℤ) × (zrange_first z ≡ some a) × (a ≤ℤ b)
unfolding zscore zrange_first
zrange_first_le [] j b v e = cc
zrange_first_le ((m, s) ∷ z) j b v e = (s, refl, ground (arith, Above-le m s z j b v.0))

pub zrange_first_mem :
    (z : Zset) (a : ℤ) → IsZset z → zrange_first z ≡ some a → (m : Bytes) × (zscore z m ≡ some a)
unfolding zscore zrange_first
zrange_first_mem [] a v e = cc
zrange_first_mem ((m, s) ∷ z) a v e = (m, ground arith)

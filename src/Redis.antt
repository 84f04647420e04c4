-- ===== src/Redis.antt =====
-- The sorted sets of Redis, which the scripts and pipelines of roshi/cluster/cluster.go call: the
-- commands they use on one key, with the documented behaviour that the program relies on.
pub mod Sorted
use er_pi_middleware25_artif.Base.{
  ℕ, ◌+◌, ◌≤◌, ◌<◌, ◌≡◌, ℤ, ◌≤ℤ◌, ◌<ℤ◌, Option, none, some, ite, dec_lt, min, [], length, refl,
}
use er_pi_middleware25_artif.Common.{Bytes, Bytes-discrete}
use Sorted.{added}
use Sorted

pub record Redis : Type 1 where
  pub Zset : Type 0
  pub IsZset : Zset → Type 0
  pub empty : Zset
  pub zcard : Zset → ℕ
  pub zscore : Zset → Bytes → Option ℤ
  -- ZRANK: how many members stand below this one.
  pub zrank : Zset → Bytes → ℕ
  -- The score in the reply to ZRANGE key 0 0 WITHSCORES.
  pub zrange_first : Zset → Option ℤ
  pub zrem : Zset → Bytes → Zset
  pub zadd : Zset → ℤ → Bytes → Zset
  -- ZREMRANGEBYRANK key 0 -(n+1): all but the `n` members of highest rank go.
  pub zremrangebyrank : Zset → ℕ → Zset
  pub empty-IsZset : IsZset empty
  pub zrem-IsZset : (z : Zset) (m : Bytes) → IsZset z → IsZset (zrem z m)
  pub zadd-IsZset : (z : Zset) (s : ℤ) (m : Bytes) → IsZset z → IsZset (zadd z s m)
  pub zremrangebyrank-IsZset : (z : Zset) (n : ℕ) → IsZset z → IsZset (zremrangebyrank z n)
  pub zscore-empty : (j : Bytes) → zscore empty j ≡ none
  pub zscore-zrem :
      (z : Zset) (m j : Bytes) → zscore (zrem z m) j ≡ ite (Bytes-discrete m j) none (zscore z j)
  pub zscore-zadd :
      (z : Zset) (s : ℤ) (m j : Bytes)
      → IsZset z
      → zscore (zadd z s m) j ≡ ite (Bytes-discrete m j) (some s) (zscore z j)
  pub zscore-zremrangebyrank :
      (z : Zset) (n : ℕ) (j : Bytes)
      → IsZset z
      → zscore (zremrangebyrank z n) j ≡ ite (dec_lt (zrank z j + n) (zcard z)) none (zscore z j)
  pub zcard-empty : zcard empty ≡ 0
  pub zcard-zrem : (z : Zset) (m : Bytes) → zcard (zrem z m) ≤ zcard z
  pub zcard-zadd :
      (z : Zset) (s : ℤ) (m : Bytes) → IsZset z → zcard (zadd z s m) ≡ zcard z + added (zscore z m)
  pub zcard-zremrangebyrank : (z : Zset) (n : ℕ) → zcard (zremrangebyrank z n) ≡ min n (zcard z)
  pub zrank_mono :
      (z : Zset) (i j : Bytes) (a b : ℤ)
      → IsZset z
      → zscore z i ≡ some a
      → zscore z j ≡ some b
      → a <ℤ b
      → zrank z i < zrank z j
  pub zrange_first_le :
      (z : Zset) (j : Bytes) (b : ℤ)
      → IsZset z
      → zscore z j ≡ some b
      → (a : ℤ) × (zrange_first z ≡ some a) × (a ≤ℤ b)
  pub zrange_first_mem :
      (z : Zset) (a : ℤ) → IsZset z → zrange_first z ≡ some a → (m : Bytes) × (zscore z m ≡ some a)

-- The commands meet their documentation: sorted lists have them all.
abbrev pub sorted_redis : Redis
sorted_redis = record {
  Zset = Sorted.Zset;
  IsZset = Sorted.IsZset;
  empty = [];
  zcard = length;
  zscore = Sorted.zscore;
  zrank = Sorted.zrank;
  zrange_first = Sorted.zrange_first;
  zrem = Sorted.zrem;
  zadd = Sorted.zadd;
  zremrangebyrank = Sorted.zremrangebyrank;
  empty-IsZset = tt;
  zrem-IsZset = Sorted.zrem-IsZset;
  zadd-IsZset = Sorted.zadd-IsZset;
  zremrangebyrank-IsZset = Sorted.zremrangebyrank-IsZset;
  zscore-empty = Sorted.zscore-empty;
  zscore-zrem = Sorted.zscore-zrem;
  zscore-zadd = Sorted.zscore-zadd;
  zscore-zremrangebyrank = Sorted.zscore-zremrangebyrank;
  zcard-empty = refl;
  zcard-zrem = Sorted.zcard-zrem;
  zcard-zadd = Sorted.zcard-zadd;
  zcard-zremrangebyrank = Sorted.zcard-zremrangebyrank;
  zrank_mono = Sorted.zrank_mono;
  zrange_first_le = Sorted.zrange_first_le;
  zrange_first_mem = Sorted.zrange_first_mem;
}

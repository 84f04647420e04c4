-- ===== src/Cluster/Range.antt =====
-- pipelineRangeByScore of roshi/cluster/cluster.go.
pub mod Page
pub mod Found
pub mod Attempts
use er_pi_middleware25_artif.Base.{
  ℕ, zero, suc, ◌+◌, ◌*◌, ◌≡◌, List, [], ◌∷◌, ◌++◌, Option, none, some, ℤ, pos, ltb_ℤ, eqb_ℤ, Bool,
  true, false, not, ◌&&◌, ◌||◌, ltb, leb, if◌then◌else◌, lookup, insert, take, length, negsuc,
}
use er_pi_middleware25_artif.Common.{Bytes, Bytes-discrete, bytes_ltb, KeyScoreMember, Cursor}
use er_pi_middleware25_artif.Cluster.Conn.{
  Error, Command, zrevrangebyscore, Conn, M, ◌>>=◌, ◌>>◌, return, throw, send, flush, receive,
  send_all,
}
use er_pi_middleware25_artif.Cluster.Pipeline.{ResultMap, to_tuple, values, negative_limit}

-- pastStart
abbrev pub past_start : Cursor → ℤ → Bytes → Bool
past_start start score member =
    if ltb_ℤ score start.score
    then true
    else if eqb_ℤ score start.score && bytes_ltb member start.member
    then true
    else false

-- beforeStop
abbrev pub before_stop : Cursor → ℤ → Bytes → Bool
before_stop stop score member =
    if ltb_ℤ stop.score score
    then true
    else if eqb_ℤ score stop.score && bytes_ltb stop.member member
    then true
    else false

pub record Scan : Type 0 where
  pub collected : ℕ
  pub validated : List KeyScoreMember
  pub hit_stop : Bool

abbrev pub store : Bytes → Option (List KeyScoreMember) → ResultMap → ResultMap
store key none m = m
store key (some a) m = insert Bytes-discrete key a m

module _ (start stop : Cursor) where
  -- The loop over the values of one reply.
  unfoldable pub scan : Bytes → List (Bytes × ℤ) → Scan → Scan
  scan key [] s = s
  scan key ((member, score) ∷ rest) s =
      let s' = record s { collected = s.collected + 1 } in
      let behind = scan key rest s' in
      let kept =
        scan key rest
          (record s' { validated = s.validated ++ to_tuple key (member, score) ∷ [] }) in
      if not (past_start start score member)
      then behind
      else if not (before_stop stop score member)
      then record s' { hit_stop = true }
      else kept

  -- What one reply yields for its key: nothing if it has to be asked for again.
  unfoldable pub page : ℕ → ℕ → Bytes → List (Bytes × ℤ) → Option (List KeyScoreMember)
  unfolding scan
  page limit select_limit key xs =
      let s = scan key xs (record { collected = 0; validated = []; hit_stop = false }) in
      if leb limit (length s.validated) || (ltb s.collected select_limit || s.hit_stop)
      then some (take limit s.validated)
      else none

  -- The replies to one attempt.
  unfoldable pub read_each : ℕ → ℕ → ResultMap → List Bytes → M ResultMap
  unfolding page
  read_each limit select_limit m [] = return m
  read_each limit select_limit m (key ∷ keys) = receive >>= λ r. values r >>= λ xs.
      read_each limit select_limit (store key (page limit select_limit key xs) m) keys

-- The keys that the attempt served go to the results, the others are tried again.
unfoldable pub use_results : ResultMap → List Bytes → ResultMap → ResultMap
use_results m [] results = results
use_results m (key ∷ keys) results = elim (lookup Bytes-discrete key m) [
  | none ↦ use_results m keys results
  | some a ↦ use_results m keys (insert Bytes-discrete key a results)
]

unfoldable pub retry_keys : ResultMap → List Bytes → List Bytes
retry_keys m [] = []
retry_keys m (key ∷ keys) =
    let rest = retry_keys m keys in
    elim (lookup Bytes-discrete key m) [ none ↦ key ∷ rest | some a ↦ rest ]

unfoldable pub next_limit : ℕ → ℕ
next_limit n = if ltb n 10 then 25 else if ltb n 100 then n * 2 else n + 50

-- The error of keys that failed to yield enough elements, without the numbers that it prints.
abbrev pub not_enough : Error
not_enough = b'n' ∷ b'o' ∷ b't' ∷ []

abbrev pub select_command : Cursor → ℕ → Bytes → Command
select_command start select_limit key = zrevrangebyscore key start.score select_limit

abbrev pub finish : List Bytes → ResultMap → M ResultMap
finish [] results = return results
finish (key ∷ keys) results = throw not_enough

module _ (start stop : Cursor) (limit : ℕ) where
  -- The attempts that are left, the keys to select, and the results so far.
  unfoldable pub attempts : ℕ → ℕ → List Bytes → ResultMap → M ResultMap
  unfolding read_each use_results retry_keys next_limit
  attempts zero select_limit keys results = finish keys results
  attempts (suc n) select_limit [] results = return results
  attempts (suc n) select_limit (key ∷ keys) results =
      let ks = key ∷ keys in
      send_all (select_command start select_limit) ks
      >> (flush
          >> (read_each start stop limit select_limit [] ks >>= λ m.
              attempts n (next_limit select_limit) (retry_keys m ks) (use_results m ks results)))

abbrev pub max_attempts : ℕ
max_attempts = 4

unfoldable pub pipeline_range_by_score : Cursor → Cursor → ℤ → List Bytes → M ResultMap
unfolding attempts
pipeline_range_by_score start stop (pos limit) keys =
    attempts start stop limit max_attempts limit keys []
pipeline_range_by_score start stop (negsuc n) keys = throw negative_limit

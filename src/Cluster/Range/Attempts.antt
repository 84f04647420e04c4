-- ===== src/Cluster/Range/Attempts.antt =====
-- The attempts of a cursor-based select, against the page of the whole sorted set.
use er_pi_middleware25_artif.Base.{
  ℕ, zero, suc, List, [], ◌∷◌, ◌++◌, map, Option, ℤ, ltb_ℤ, not, if◌then◌else◌, take,
}
use er_pi_middleware25_artif.Common.{Bytes, KeyScoreMember, Cursor}
use er_pi_middleware25_artif.Cluster.Conn.{
  Result, ok, err, eof, Command, zrevrangebyscore, Reply, members, Conn,
}
use er_pi_middleware25_artif.Cluster.Pipeline.{ResultMap}
use er_pi_middleware25_artif.Cluster.Pipeline.Writes.{sending}
use er_pi_middleware25_artif.Cluster.Range.{page, use_results, next_limit, select_command}
use er_pi_middleware25_artif.Cluster.Range.Page.{IsDescending, between}
use er_pi_middleware25_artif.Cluster.Range.Found.{stores, missing}

-- The members that ZREVRANGEBYSCORE lists from a score down, out of a sorted set in reverse order.
abbrev pub at_most : ℤ → List (Bytes × ℤ) → List (Bytes × ℤ)
at_most top [] = []
at_most top ((m, s) ∷ xs) =
    let rest = at_most top xs in if not (ltb_ℤ top s) then (m, s) ∷ rest else rest

-- A server with the sorted sets `descending`, each in the order of Redis.
module _ (start stop : Cursor) (limit : ℕ) (descending : Bytes → List (Bytes × ℤ))
    (sorted : (key : Bytes) → IsDescending (descending key)) where
  -- What ZREVRANGEBYSCORE lists from the score of the start cursor down.
  abbrev pub listing : Bytes → List (Bytes × ℤ)
  listing key = at_most start.score (descending key)

  abbrev found : ℕ → Bytes → Option (List KeyScoreMember)
  found select_limit key = page start stop limit select_limit key (take select_limit (listing key))

  -- The server's reply to a command: of the sorted set that the command names, from the score that it gives
  -- down, as many members as it asks for.
  abbrev pub answer : Command → Result Reply
  answer (zrevrangebyscore key score count) =
      ok (members (take count (at_most score (descending key))))
  answer _ = err eof

  -- The reply to what an attempt sends for a key.
  abbrev reply : ℕ → Bytes → Result Reply
  reply select_limit key = answer (select_command start select_limit key)

  -- The replies to `n` attempts: each asks again for the keys that the one before left out.
  unfoldable pub replies : ℕ → ℕ → List Bytes → List (Result Reply) → List (Result Reply)
  replies zero select_limit keys rest = rest
  replies (suc n) select_limit [] rest = rest
  replies (suc n) select_limit (key ∷ keys) rest =
      map (reply select_limit) (key ∷ keys)
      ++ replies n (next_limit select_limit) (missing (found select_limit) (key ∷ keys)) rest

  -- The answer that a select owes for a key.
  abbrev pub owed : Bytes → List KeyScoreMember
  owed key = take limit (between start stop key (descending key))

  -- The connection and the results after one attempt.
  abbrev served : ℕ → List Bytes → List (Result Reply) → Conn → Conn
  served n keys rest c = record (sending c (map (select_command start n) keys)) { replies = rest }

  abbrev gained : ℕ → List Bytes → ResultMap → ResultMap
  gained n keys results = use_results (stores (found n) [] keys) keys results

  -- The LIMIT of the last of `suc n` attempts.
  abbrev pub last_limit : ℕ → ℕ → ℕ
  last_limit zero select_limit = select_limit
  last_limit (suc n) select_limit = last_limit n (next_limit select_limit)

-- ===== src/Tests/Scans.antt =====
-- Score and Keys of roshi/cluster, and the walk of roshi/roshi-walker, on small inputs.
use mathlib.Core.List.{Memᴰ}
use mathlib.Core.List.Perm
use er_pi_middleware25_artif.Base.{
  ℕ, ◌%◌, ◌≡◌, refl, List, [], ◌∷◌, none, some, ℤ, pos, lookup, length, true, All, inl, inr, zero,
  suc, arith,
}
use er_pi_middleware25_artif.Common.{Bytes, KeyMember, KeyMember-discrete}
use er_pi_middleware25_artif.Cluster.Conn.{Result, ok, err, nil, float, Conn, eof}
use er_pi_middleware25_artif.Cluster.Score.{score, reported}
use er_pi_middleware25_artif.Cluster.Score.Arrival.{answer, score_lem}
use er_pi_middleware25_artif.Cluster.Keys.{decode, page_of, State, finished, scan, send_rest, start}
use er_pi_middleware25_artif.Cluster.Keys.Batches.{Completes}
use er_pi_middleware25_artif.Cluster.Keys.Channel.{decoded, IsBatched, scan_lem}
use er_pi_middleware25_artif.Walker.{accepts_rate, walk_once}
use er_pi_middleware25_artif.Walker
use er_pi_middleware25_artif.Walker.Keyspace.{keys, selected, Paces, walk_lem}

-- Two is: the second cannot be reached.
abbrev by_length : Bytes → ℕ
by_length key = length key % 2

abbrev member_of : Bytes → KeyMember
member_of key = record { key = key; member = 1 ∷ [] }

abbrev conns : ℕ → Result Conn
conns zero = ok record {
  send_error = λ n. none;
  flush_error = none;
  replies = ok (float (pos 5)) ∷ ok nil ∷ [];
  sent = [];
}
conns (suc n) = err eof

abbrev asked : List KeyMember
asked = member_of (7 ∷ 7 ∷ []) ∷ member_of (8 ∷ []) ∷ []

score_lem_example :
    lookup KeyMember-discrete (member_of (7 ∷ 7 ∷ [])) (score by_length conns (λ xs. xs) asked)
    ≡ reported (member_of (7 ∷ 7 ∷ [])) (answer by_length conns asked (member_of (7 ∷ 7 ∷ [])))
score_lem_example =
    score_lem by_length conns (λ xs. xs) (λ xs. Perm.refl xs) asked (member_of (7 ∷ 7 ∷ []))
      (Memᴰ.head refl)

-- A page of three keys, a failure, and the last page.
abbrev a_set : Bytes
a_set = 5 ∷ b'+' ∷ []

abbrev attempts : List (Result (ℤ × List Bytes))
attempts = ok (pos 3, a_set ∷ (6 ∷ b'-' ∷ []) ∷ a_set ∷ []) ∷ err eof ∷ ok (pos 0, a_set ∷ []) ∷ []

scan_lem_example :
    (t : State) × (scan 2 (start []) attempts ≡ finished t)
    × (t.asked ≡ pos 0 ∷ pos 3 ∷ pos 3 ∷ [])
    × (b : List (List Bytes)) × (send_rest t ≡ b)
    × IsBatched 2 b ((5 ∷ []) ∷ (5 ∷ []) ∷ (5 ∷ []) ∷ [])
scan_lem_example =
    scan_lem 2 [] attempts
      ((λ e. cc, (λ e. cc, (λ e. cc, tt))), inr (λ e. cc, ((λ e. cc, tt), inl (refl, refl))))

-- A value of a reply is a list of strings, and is also read as its length.
abbrev to_int : List Bytes → Result ℤ
to_int v = ok (pos (length v))

abbrev to_strings : List Bytes → Result (List Bytes)
to_strings v = ok v

abbrev one_page : ℕ → ℕ → List (Result (List (List Bytes)))
one_page cluster j = err eof ∷ ok ([] ∷ (a_set ∷ []) ∷ []) ∷ []

walk_lem_example :
    (b : List (List Bytes)) × (Walker.scan
        (keys to_int to_strings 1 (λ i. 0 ∷ []) one_page)
        (1 ∷ 0 ∷ [])
      ≡ some (b, true))
    × (selected (walk_once 9 b) ≡ (5 ∷ []) ∷ (5 ∷ []) ∷ [])
    × Paces 4 9 (walk_once 9 b)
unfolding accepts_rate decode page_of
walk_lem_example =
    walk_lem to_int to_strings 1 (λ i. 0 ∷ []) one_page 9 4 (1 ∷ 0 ∷ []) refl (omega arith)
      (one_page_each, (one_page_each, tt))
  where
    one_page_each : All (λ j. Completes (decoded to_int to_strings 1 (one_page 0) j)) (0 ∷ [])
    one_page_each = ((((λ e. cc), tt), inl (refl, refl)), tt)

-- ===== src/Tests/Cluster.antt =====
-- The buckets, pipelines and selects of roshi/cluster/cluster.go on small inputs.
use mathlib.Core.List.{Memᴰ}
use er_pi_middleware25_artif.Base.{ℕ, refl, ◌%◌, List, [], ◌∷◌, none, ℤ, pos}
use er_pi_middleware25_artif.Common.{Bytes, KeyMember, KeyScoreMember, Cursor}
use er_pi_middleware25_artif.Cluster.Conn.{Result, ok, Reply, nil, integer, float, members, Conn}
use er_pi_middleware25_artif.Cluster.Range.Attempts.{replies}
use er_pi_middleware25_artif.Cluster.Select.{select_offset, select_range}
use er_pi_middleware25_artif.Cluster.Select.Covers.{Covered, selects_cover}

abbrev parity : ℕ → ℕ
parity n = n % 2

abbrev numbers : List ℕ
numbers = 3 ∷ 4 ∷ 5 ∷ []

abbrev a_key : Bytes
a_key = 7 ∷ []

abbrev a_member : KeyMember
a_member = record { key = a_key; member = 1 ∷ [] }

abbrev tuples : List KeyScoreMember
tuples = record { key = a_key; score = pos 5; member = 1 ∷ [] } ∷ []

abbrev conn_with : List (Result Reply) → Conn
conn_with rs = record { send_error = λ n. none; flush_error = none; replies = rs; sent = [] }

abbrev one_reply : Conn
one_reply = conn_with (ok (integer (pos 1)) ∷ [])

abbrev scored : Conn
scored = conn_with (ok (float (pos 5)) ∷ ok nil ∷ [])

abbrev in_both : Conn
in_both = conn_with (ok (float (pos 5)) ∷ ok (float (pos 4)) ∷ [])

-- A sorted set in the order of Redis.
abbrev descending : List (Bytes × ℤ)
descending = (2 ∷ [], pos 8) ∷ (1 ∷ [], pos 5) ∷ (0 ∷ [], pos 5) ∷ []

abbrev listed : Conn
listed = conn_with (ok (members descending) ∷ [])

abbrev from_eight : Cursor
from_eight = record { score = pos 8; member = 2 ∷ [] }

abbrev to_zero : Cursor
to_zero = record { score = pos 0; member = [] }

abbrev all_listings : Bytes → List (Bytes × ℤ)
all_listings key = descending

abbrev to_first : Bytes → ℕ
to_first key = 0

abbrev connect : ℕ → Result Conn
connect i = ok one_reply

selects_cover_example :
    Covered a_key (select_offset to_first connect (pos 0) (pos 3) (a_key ∷ []))
    × Covered a_key (select_range to_first connect from_eight to_zero (pos 3) (a_key ∷ []))
selects_cover_example =
    selects_cover to_first connect (a_key ∷ []) a_key (pos 0) from_eight to_zero (pos 3)
      (Memᴰ.head refl)

-- ===== src/Tests/Interleavings.antt =====
-- Runs of the interleavings of roshi/cluster/DFS.go and RandomIntls.go, and their theorems at concrete events.
use mathlib.Core.List.{Perm}
use mathlib.Core.List.Perm
use er_pi_middleware25_artif.Base.{ℕ, ◌-◌, arith, ◌≡◌, refl, List, [], ◌∷◌, false, All}
use er_pi_middleware25_artif.Common.{Bytes, Bytes-discrete}
use er_pi_middleware25_artif.Farm.Sets.{has}
use er_pi_middleware25_artif.Cluster.Interleavings.{join, children, dfs, interleavings}
use er_pi_middleware25_artif.Cluster.Interleavings.Known.{IsPrinted}
use er_pi_middleware25_artif.Cluster.Interleavings.Orders.{IsOrder, interleavings_lem}
use er_pi_middleware25_artif.Cluster.Interleavings.{Search}
use er_pi_middleware25_artif.Cluster.Interleavings.Random.{
  runs, ends, random_interleave, shuffle_array, shuffle_from, swap, factorial, factorial_from,
  less_int, visit,
}
use er_pi_middleware25_artif.Cluster.Interleavings.Random.Ends.{
  random_interleave_complete, random_interleave_endless,
}

-- Two events.
abbrev first_event : Bytes
first_event = 1 ∷ []

abbrev second_event : Bytes
second_event = 2 ∷ []

interleavings_lem_example :
    ((order : List Bytes)
      → Perm order (first_event ∷ second_event ∷ [])
      → IsPrinted (interleavings (first_event ∷ second_event ∷ [])) (join order))
    × All
        (IsOrder (first_event ∷ second_event ∷ []))
        (interleavings (first_event ∷ second_event ∷ []))
interleavings_lem_example =
    interleavings_lem (first_event ∷ second_event ∷ []) ((refl, tt), ((refl, tt), tt))

two_lines :
    interleavings (first_event ∷ second_event ∷ []) ≡ (1 ∷ b',' ∷ 2 ∷ []) ∷ (2 ∷ b',' ∷ 1 ∷ []) ∷ []
unfolding interleavings dfs children join has Bytes-discrete
two_lines = refl

-- A shuffle that exchanges, and one that does not.
abbrev exchanging : ℕ → ℕ
exchanging n = 0

abbrev keeping : ℕ → ℕ
keeping n = n - 1

abbrev lines : List Bytes
lines = (2 ∷ b',' ∷ 1 ∷ []) ∷ (1 ∷ b',' ∷ 2 ∷ []) ∷ []

abbrev printed_both : Search
printed_both = record { visited = (1 ∷ b',' ∷ 2 ∷ []) ∷ (2 ∷ b',' ∷ 1 ∷ []) ∷ []; printed = lines }

random_rounds :
    random_interleave
      (exchanging ∷ keeping ∷ keeping ∷ [])
      (first_event ∷ second_event ∷ [])
      (record { visited = []; printed = [] })
    ≡ ends printed_both
unfolding random_interleave shuffle_array shuffle_from swap factorial factorial_from less_int visit
    join has Bytes-discrete
random_rounds = refl

random_interleave_complete_example : IsPrinted lines (join (second_event ∷ first_event ∷ []))
random_interleave_complete_example =
    random_interleave_complete (first_event ∷ second_event ∷ [])
      (exchanging ∷ keeping ∷ keeping ∷ []) printed_both (omega arith)
      ((λ n h. h), ((λ n h. omega arith), ((λ n h. omega arith), tt))) random_rounds
      (second_event ∷ first_event ∷ []) (Perm.swap first_event second_event [])

random_interleave_endless_example :
    (s : Search) × (random_interleave
        (exchanging ∷ keeping ∷ [])
        (first_event ∷ first_event ∷ [])
        (record { visited = []; printed = [] })
      ≡ runs s)
random_interleave_endless_example =
    random_interleave_endless (first_event ∷ first_event ∷ []) first_event []
      (exchanging ∷ keeping ∷ []) (omega arith) (Perm.refl _)
      ((λ n h. h), ((λ n h. omega arith), tt))

-- The factorial of 21 events is a negative int: the loop ends at once.
no_rounds : less_int 0 (factorial 21) ≡ false
unfolding less_int factorial factorial_from
no_rounds = refl

-- ===== src/Cluster/Interleavings/Random.antt =====
-- roshi/cluster/RandomIntls.go: the interleavings of an experiment by random shuffles.
pub mod Shuffled
pub mod Visits
pub mod Pigeonhole
pub mod Orders
pub mod Ends
use er_pi_middleware25_artif.Base.{
  ℕ, zero, suc, ◌+◌, ◌*◌, ◌-◌, ◌%◌, ◌^◌, ◌<◌, List, [], ◌∷◌, ◌++◌, Option, none, some, length,
  get_elem?, set, Bool, true, false, if◌then◌else◌, ltb,
}
use er_pi_middleware25_artif.Common.{Bytes, Bytes-discrete}
use er_pi_middleware25_artif.Farm.Sets.{has}
use er_pi_middleware25_artif.Cluster.Interleavings.{join, Search}

abbrev pub exchange : List Bytes → ℕ → ℕ → Option Bytes → Option Bytes → Option (List Bytes)
exchange array i j (some a) (some b) = some (set (set array i b) j a)
exchange array i j _ _ = none

-- array[i], array[j] = array[j], array[i]; none if an index is out of range, which panics.
unfoldable pub swap : List Bytes → ℕ → ℕ → Option (List Bytes)
swap array i j = exchange array i j (get_elem? array i) (get_elem? array j)

-- `rand` is rand.Intn for the calls of one shuffle, all of which have different arguments.
unfoldable pub shuffle_from : (ℕ → ℕ) → ℕ → List Bytes → Option (List Bytes)
shuffle_from rand zero array = some array
shuffle_from rand (suc i) array = elim (swap array (suc i) (rand (suc (suc i)))) [
  | none ↦ none
  | some swapped ↦ shuffle_from rand i swapped
]

unfoldable pub shuffle_array : (ℕ → ℕ) → List Bytes → Option (List Bytes)
shuffle_array rand array = shuffle_from rand (length array - 1) array

-- The loop of factorial, `left` rounds from `i` on. A Go int is its bit pattern.
unfoldable pub factorial_from : ℕ → ℕ → ℕ → ℕ
factorial_from zero i result = result
factorial_from (suc left) i result = factorial_from left (suc i) (result * i % 2 ^ 64)

unfoldable pub factorial : ℕ → ℕ
factorial n = factorial_from (n - 1) 2 1

-- count < bound, for a count that is no negative int.
unfoldable pub less_int : ℕ → ℕ → Bool
less_int count bound = if ltb bound (2 ^ 63) then ltb count bound else false

-- The loop of randomInterleave panics, still runs, or ends.
pub data Outcome : Type 0 where
  panics : Outcome
  runs : Search → Outcome
  ends : Search → Outcome

unfoldable pub visit : Bytes → Search → Search
visit path s =
    if has Bytes-discrete path s.visited
    then s
    else record { visited = path ∷ s.visited; printed = s.printed ++ path ∷ [] }

-- For every round of the loop, what rand.Intn gives in it.
unfoldable pub random_interleave : List (ℕ → ℕ) → List Bytes → Search → Outcome
random_interleave [] events s =
    if less_int (length s.visited) (factorial (length events)) then runs s else ends s
random_interleave (rand ∷ rounds) events s =
    let rest = λ (path : List Bytes). random_interleave rounds events (visit (join path) s) in
    if less_int (length s.visited) (factorial (length events))
    then elim (shuffle_array rand events) [ none ↦ panics | some path ↦ rest path ]
    else ends s

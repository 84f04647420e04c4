-- ===== src/Walker.antt =====
-- roshi/roshi-walker/main.go: the scan of the keys of all clusters, and the walk over them.
pub mod Keyspace
use er_pi_middleware25_artif.Base.{
  ℕ, ◌+◌, ◌≤◌, List, [], ◌∷◌, ◌++◌, Option, none, some, Bool, true, false, length, ltb,
  if◌then◌else◌,
}
use er_pi_middleware25_artif.Common.{Bytes}

-- The batches of a channel, and whether it is closed after them; none if its goroutine panics.
abbrev pub Channel : Type 0
Channel = Option (List (List Bytes) × Bool)

-- What the walk does.
pub data Action : Type 0 where
  waits : ℕ → Action
  selects_offset : List Bytes → ℕ → ℕ → Action
  walks_keys : ℕ → Action

-- The integer arguments are refused if maxKeysPerSecond is below batchSize.
unfoldable pub accepts_rate : ℕ → ℕ → Bool
accepts_rate max_keys_per_second batch_size =
    if ltb max_keys_per_second batch_size then false else true

abbrev pub after : List (List Bytes) → Channel → Channel
after sent none = none
after sent (some (rest, closed)) = some (sent ++ rest, closed)

-- scan, over the clusters in the order of rand.Perm; `keys` are their channels. A channel that stays
-- open keeps the loop at its cluster.
unfoldable pub scan : (ℕ → Channel) → List ℕ → Channel
scan keys [] = some ([], true)
scan keys (i ∷ order) =
    let rest = scan keys order in
    elim (keys i) [
      | none ↦ none
      | some (sent, closed) ↦ if closed then after sent rest else some (sent, false)
    ]

-- walkOnce. The error of the select is dropped.
unfoldable pub walk_once : ℕ → List (List Bytes) → List Action
walk_once max_size [] = []
walk_once max_size (batch ∷ src) =
    waits (length batch)
    ∷ selects_offset batch 0 max_size
    ∷ walks_keys (length batch)
    ∷ walk_once max_size src

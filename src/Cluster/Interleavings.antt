-- ===== src/Cluster/Interleavings.antt =====
-- roshi/cluster/DFS.go: the interleavings of the events of an experiment.
pub mod Paths
pub mod Known
pub mod Complete
pub mod Orders
pub mod Random
use er_pi_middleware25_artif.Base.{
  ℕ, zero, suc, ◌+◌, ◌*◌, ◌-◌, List, [], ◌∷◌, ◌++◌, Option, none, some, length, get_elem?, set,
  Bool, true, false, if◌then◌else◌,
}
use er_pi_middleware25_artif.Common.{Bytes, Bytes-discrete}
use er_pi_middleware25_artif.Farm.Sets.{has}

-- strings.Join(path, ",")
unfoldable pub join : List Bytes → Bytes
join [] = []
join (e ∷ []) = e
join (e ∷ f ∷ path) = let rest = join (f ∷ path) in e ++ b',' ∷ rest

-- The paths that are marked as visited, and the lines that are printed.
pub record Search : Type 0 where
  pub visited : List Bytes
  pub printed : List Bytes

-- The loop over the remaining events, of which `before` are behind; `explore` is the call of dfs.
module _ (explore : List Bytes → List Bytes → Search → Search) where
  unfoldable pub children : List Bytes → List Bytes → List Bytes → Search → Search
  children path before [] s = s
  children path before (x ∷ after) s =
      let text = join (path ++ x ∷ []) in
      let next = children path (before ++ x ∷ []) after in
      let deeper = λ (t : Search). next (explore (path ++ x ∷ []) (before ++ after) t) in
      if has Bytes-discrete text s.visited
      then next s
      else deeper (record s { visited = text ∷ s.visited })

-- The fuel bounds the depth; the remaining events are as many as the calls that are left.
unfoldable pub dfs : ℕ → List Bytes → List Bytes → Search → Search
unfolding children
dfs n path [] s = record s { printed = s.printed ++ join path ∷ [] }
dfs zero path (x ∷ rest) s = s
dfs (suc n) path (x ∷ rest) s = children (dfs n) path [] (x ∷ rest) s

unfoldable pub interleavings : List Bytes → List Bytes
unfolding dfs
interleavings events =
    (dfs (length events) [] events (record { visited = []; printed = [] })).printed

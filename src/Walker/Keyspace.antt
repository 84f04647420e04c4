-- ===== src/Walker/Keyspace.antt =====
-- The walk of roshi/roshi-walker/main.go over the clusters whose keys are scanned by Keys.
use er_pi_middleware25_artif.Base.{
  ℕ, ◌≤◌, max, ◌≡◌, refl, ap, ◌∙◌, List, [], ◌∷◌, ◌++◌, some, ℤ, true, All, length, arith,
}
use er_pi_middleware25_artif.Common.{Bytes}
use er_pi_middleware25_artif.Cluster.Conn.{Result}
use er_pi_middleware25_artif.Cluster.Keys.{keys_from}
use er_pi_middleware25_artif.Cluster.Keys.Batches.{concat, concat-append, Completes}
use er_pi_middleware25_artif.Cluster.Keys.Channel.{
  decoded, all_keys, All-append, IsBatch, keys_from_lem,
}
use er_pi_middleware25_artif.Walker.{
  Channel, Action, waits, selects_offset, walks_keys, accepts_rate, scan, walk_once,
}

-- The keys that are selected, and the tokens that are waited for.
abbrev pub selected : List Action → List Bytes
selected [] = []
selected (waits n ∷ actions) = selected actions
selected (selects_offset keys offset limit ∷ actions) = keys ++ selected actions
selected (walks_keys n ∷ actions) = selected actions

-- Each select is made for a batch whose tokens were waited for just before, of the first maxSize
-- members of its keys, and is reported after.
abbrev pub Paces : ℕ → ℕ → List Action → Type 0
Paces capacity max_size [] = Unit
Paces capacity max_size (waits n ∷ selects_offset keys offset limit ∷ walks_keys m ∷ actions) =
    (n ≡ length keys)
    × (n ≤ capacity)
    × (offset ≡ 0)
    × (limit ≡ max_size)
    × (m ≡ n)
    × Paces capacity max_size actions
Paces capacity max_size _ = ⊥

selected-walk_once :
    (max_size : ℕ) (batches : List (List Bytes))
    → selected (walk_once max_size batches) ≡ concat batches
unfolding walk_once
selected-walk_once max_size [] = refl
selected-walk_once max_size (b ∷ batches) = ap (λ x. b ++ x) (selected-walk_once max_size batches)

walk_once-Paces :
    (n max_size capacity : ℕ) (batches : List (List Bytes))
    → max 1 n ≤ capacity
    → All (IsBatch n) batches
    → Paces capacity max_size (walk_once max_size batches)
unfolding walk_once
walk_once-Paces n max_size capacity [] h a = tt
walk_once-Paces n max_size capacity (b ∷ batches) h a = (
  refl,
  omega (arith, a.0.1),
  refl,
  refl,
  refl,
  walk_once-Paces n max_size capacity batches h a.1,
)

module _ {Value : Type 0} (to_int : Value → Result ℤ) (to_strings : Value → Result (List Bytes))
    (n : ℕ) (instances : ℕ → List ℕ) (attempts : ℕ → ℕ → List (Result (List Value))) where
  -- Keys of a cluster: `instances` is the order in which it takes its instances.
  abbrev pub keys : ℕ → Channel
  keys i = keys_from to_int to_strings n (attempts i) (instances i) []

  abbrev pub farm_keys : List ℕ → List Bytes
  farm_keys [] = []
  farm_keys (i ∷ order) = all_keys to_int to_strings n (attempts i) (instances i) ++ farm_keys order

  scan_lem :
      (order : List ℕ)
      → All
          (λ i. All (λ j. Completes (decoded to_int to_strings n (attempts i) j)) (instances i))
          order
      → (b : List (List Bytes)) × (scan keys order ≡ some (b, true))
        × (concat b ≡ farm_keys order)
        × All (IsBatch n) b
  unfolding scan
  scan_lem [] c = ([], refl, refl, tt)
  scan_lem (i ∷ order) c =
      let (b, e, s, h) = keys_from_lem to_int to_strings n (attempts i) (instances i) [] c.0 in
      let (b', e', s', h') = scan_lem order c.1 in
      (
        b ++ b',
        rw (e, e', scan) refl,
        concat-append b b' ∙ rw (s, s') refl,
        All-append (IsBatch n) b b' h h',
      )

  -- When the scans of all instances of all clusters can be completed, the walk ends: it selects every
  -- stripped key of every instance of every cluster, as often as the scans list it and in
  -- their order, each batch after a wait for as many tokens as it has keys. With the arguments that
  -- main accepts, and at least one key per second, no wait asks for more tokens than the bucket holds.
  pub walk_lem :
      (max_size max_keys_per_second : ℕ) (order : List ℕ)
      → accepts_rate max_keys_per_second n ≡ true
      → 1 ≤ max_keys_per_second
      → All
          (λ i. All (λ j. Completes (decoded to_int to_strings n (attempts i) j)) (instances i))
          order
      → (b : List (List Bytes)) × (scan keys order ≡ some (b, true))
        × (selected (walk_once max_size b) ≡ farm_keys order)
        × Paces max_keys_per_second max_size (walk_once max_size b)
  unfolding accepts_rate
  walk_lem max_size rate order ok one c =
      let (b, e, s, h) = scan_lem order c in
      (b, e, selected-walk_once max_size b ∙ s, walk_once-Paces n max_size rate b (ground arith) h)

-- ===== src/Farm/Declaration/Accepts.antt =====
-- What holds of the clusters that ParseFarmString accepts.
use er_pi_middleware25_artif.Base.{ℕ, ◌+◌, ◌≡◌, ◌≢◌, List, [], ◌∷◌, ◌++◌, All, lookup, ite}
use er_pi_middleware25_artif.Common.{Bytes, Bytes-discrete}
use er_pi_middleware25_artif.Farm.Declaration.{Seen, seen_count}
use er_pi_middleware25_artif.Farm.Declaration.HostPort.{IsValid}

abbrev pub occurrences : Bytes → List Bytes → ℕ
occurrences k [] = 0
occurrences k (x ∷ xs) = ite (Bytes-discrete x k) 1 0 + occurrences k xs

abbrev pub all_instances : List (List Bytes) → List Bytes
all_instances [] = []
all_instances (c ∷ cs) = c ++ all_instances cs

counted : Bytes → Seen → ℕ
counted k seen = seen_count (lookup Bytes-discrete k seen)

-- What the loop over host-ports adds.
Added : Seen → List Bytes → Seen → List Bytes → Type 0
Added seen before seen' after =
    (new : List Bytes) × (after ≡ before ++ new)
    × All IsValid new
    × ((k : Bytes) → counted k seen' ≡ counted k seen + occurrences k new)

-- The clusters so far: none is empty, their instances are valid, and seen counts these.
IsGood : Seen → List (List Bytes) → Type 0
IsGood seen clusters =
    All (λ c. (c ≢ []) × All IsValid c) clusters
    × ((k : Bytes) → counted k seen ≡ occurrences k (all_instances clusters))

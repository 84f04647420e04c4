-- ===== src/Farm/Declaration.antt =====
-- roshi/farm/parse_farm_string.go: the clusters of a farm declaration string, each as the list of
-- its instances.
pub mod HostPort
pub mod Accepts
use mathlib.Core.List.{Memᴰ}
use er_pi_middleware25_artif.Base.{
  ℕ, suc, ◌+◌, ◌≤◌, ◌<◌, ◌≡◌, ◌≢◌, refl, ◌↔◌, ap, ◌∙◌, sym, subst, arith, ◌⊎◌, inl, inr, ltb, ◌==◌,
  ◌||◌, List, [], ◌∷◌, ◌++◌, map, length, All, Option, none, some, Bool, true, false, if◌then◌else◌,
  lookup, insert, lookup-insert, Option-cases, Bool-cases, if_pos, if_neg, ite,
}
use er_pi_middleware25_artif.Common.{Bytes, Bytes-discrete}
use er_pi_middleware25_artif.Common.Digits.{parse_uint}

-- The errors of ParseFarmString, with what they print of the string.
pub data ParseError : Type 0 where
  invalid_host_port : Bytes → ParseError
  invalid_port : Bytes → Bytes → ParseError
  empty_cluster : ℕ → Bytes → ParseError
  no_clusters : ParseError
  duplicate_instances : List Bytes → ParseError

pub data Parsed (A : Type 0) : Type 0 where
  parsed : A → Parsed A
  failed : ParseError → Parsed A

abbrev pub is_space : ℕ → Bool
is_space c = c == b' ' || (c == 9 || (c == 13 || c == 10))

unfoldable pub strip_whitespace : Bytes → Bytes
strip_whitespace [] = []
strip_whitespace (c ∷ cs) = let rest = strip_whitespace cs in if is_space c then rest else c ∷ rest

abbrev pub cons_first : ℕ → List Bytes → List Bytes
cons_first c [] = (c ∷ []) ∷ []
cons_first c (t ∷ ts) = (c ∷ t) ∷ ts

-- strings.Split at a byte
unfoldable pub split : ℕ → Bytes → List Bytes
split sep [] = [] ∷ []
split sep (c ∷ cs) = let rest = split sep cs in if c == sep then [] ∷ rest else cons_first c rest

abbrev pub Seen : Type 0
Seen = List (Bytes × ℕ)

abbrev pub seen_count : Option ℕ → ℕ
seen_count none = 0
seen_count (some n) = n

-- seen[hostPort]++
abbrev pub see : Bytes → Seen → Seen
see host_port seen =
    insert Bytes-discrete host_port (seen_count (lookup Bytes-discrete host_port seen) + 1) seen

-- Whether the parts of a host-port are a host and a port of 16 bits.
abbrev pub check_host_port : Bytes → List Bytes → Option ParseError
check_host_port host_port (host ∷ port ∷ []) = elim (parse_uint 16 port) [
  | none ↦ some (invalid_port port host_port)
  | some n ↦ none
]
check_host_port host_port [] = some (invalid_host_port host_port)
check_host_port host_port (host ∷ []) = some (invalid_host_port host_port)
check_host_port host_port (host ∷ port ∷ x ∷ rest) = some (invalid_host_port host_port)

-- The loop over the host-ports of a cluster string.
unfoldable pub parse_host_ports : List Bytes → Seen → List Bytes → Parsed (Seen × List Bytes)
parse_host_ports [] seen host_ports = parsed (seen, host_ports)
parse_host_ports ([] ∷ rest) seen host_ports = parse_host_ports rest seen host_ports
parse_host_ports ((c ∷ cs) ∷ rest) seen host_ports =
    let host_port = c ∷ cs in
    let next = parse_host_ports rest (see host_port seen) (host_ports ++ host_port ∷ []) in
    elim (check_host_port host_port (split b':' host_port)) [ none ↦ next | some e ↦ failed e ]

-- The loop over the cluster strings, from number `i` on.
unfoldable pub parse_clusters :
    ℕ → List Bytes → Seen → List (List Bytes) → Parsed (Seen × List (List Bytes))
unfolding parse_host_ports
parse_clusters i [] seen clusters = parsed (seen, clusters)
parse_clusters i (cluster_string ∷ rest) seen clusters =
    let next = λ (seen' : Seen) (host_ports : List Bytes).
      parse_clusters (suc i) rest seen' (clusters ++ host_ports ∷ []) in
    elim (parse_host_ports (split b',' cluster_string) seen []) [
      | failed e ↦ failed e
      | parsed (seen', []) ↦ failed (empty_cluster (i + 1) cluster_string)
      | parsed (seen', h ∷ hs) ↦ next seen' (h ∷ hs)
    ]

unfoldable pub duplicates : Seen → List Bytes
duplicates [] = []
duplicates ((host_port, count) ∷ seen) =
    let rest = duplicates seen in if ltb 1 count then host_port ∷ rest else rest

abbrev pub check_duplicates : List Bytes → List (List Bytes) → Parsed (List (List Bytes))
check_duplicates [] clusters = parsed clusters
check_duplicates (d ∷ ds) clusters = failed (duplicate_instances (d ∷ ds))

abbrev pub check_clusters : Parsed (Seen × List (List Bytes)) → Parsed (List (List Bytes))
check_clusters (failed e) = failed e
check_clusters (parsed (seen, [])) = failed no_clusters
check_clusters (parsed (seen, c ∷ cs)) = check_duplicates (duplicates seen) (c ∷ cs)

unfoldable pub parse_farm_string : Bytes → Parsed (List (List Bytes))
unfolding parse_clusters duplicates strip_whitespace split
parse_farm_string farm_string =
    check_clusters (parse_clusters 0 (split b';' (strip_whitespace farm_string)) [] [])

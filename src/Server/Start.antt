-- ===== src/Server/Start.antt =====
-- newFarm of roshi-server/main.go: the farm that the server starts with, from its farm string and its write
-- quorum.
use er_pi_middleware25_artif.Base.{
  ℕ, ◌<◌, ◌≤◌, ◌≡◌, ◌≢◌, refl, subst, List, [], ◌∷◌, length, Option, none, some, ℤ, pos, All, arith,
}
use er_pi_middleware25_artif.Common.{Bytes, KeyScoreMember}
use er_pi_middleware25_artif.Cluster.Conn.{Error}
use er_pi_middleware25_artif.Farm.Declaration.{
  ParseError, Parsed, failed, parsed, parse_farm_string,
}
use er_pi_middleware25_artif.Farm.Write.{write, successes, write_error_iff}
use er_pi_middleware25_artif.Server.Percentage.{
  Evaluated, value, bad_total, bad_percentage, bad_scalar, out_of_range, evaluate_scalar_percentage,
  evaluate_scalar_percentage_range,
}

-- The farm, as the instances of its clusters and its write quorum, or the error of one of the two parses.
pub data NewFarm : Type 0 where
  bad_farm : ParseError → NewFarm
  bad_quorum : Evaluated → NewFarm
  built : List (List Bytes) → ℕ → NewFarm

abbrev pub with_quorum : List (List Bytes) → Evaluated → NewFarm
with_quorum clusters (value n) = built clusters n
with_quorum clusters e = bad_quorum e

module _ (ceil_of : ℕ → ℕ → ℤ) where
  abbrev pub with_clusters : Bytes → Parsed (List (List Bytes)) → NewFarm
  with_clusters write_quorum (failed e) = bad_farm e
  with_clusters write_quorum (parsed clusters) =
      with_quorum clusters (evaluate_scalar_percentage ceil_of write_quorum (pos (length clusters)))

  unfoldable pub new_farm : Bytes → Bytes → NewFarm
  new_farm redis_instances write_quorum =
      with_clusters write_quorum (parse_farm_string redis_instances)

all_succeed :
    (answers : List (Option Error))
    → All (λ a. a ≡ none) answers
    → successes answers ≡ length answers
all_succeed [] a = refl
all_succeed (none ∷ answers) a = omega (arith, all_succeed answers a.1)
all_succeed (some e ∷ answers) a = cc

none_succeeds :
    (answers : List (Option Error)) → All (λ a. a ≢ none) answers → successes answers ≡ 0
none_succeeds [] a = refl
none_succeeds (none ∷ answers) a = absurd (a.0 refl)
none_succeeds (some e ∷ answers) a = omega (arith, none_succeeds answers a.1)

with_quorum-built :
    (cs clusters : List (List Bytes)) (e : Evaluated) (need : ℕ)
    → with_quorum cs e ≡ built clusters need
    → (cs ≡ clusters) × (e ≡ value need)
with_quorum-built cs clusters (value n) need h = (cc, cc)
with_quorum-built cs clusters bad_total need h = cc
with_quorum-built cs clusters bad_percentage need h = cc
with_quorum-built cs clusters bad_scalar need h = cc
with_quorum-built cs clusters out_of_range need h = cc

module _ (ceil_of : ℕ → ℕ → ℤ) where
  quorum_fits :
      (write_quorum : Bytes) (p : Parsed (List (List Bytes))) (clusters : List (List Bytes))
      (need : ℕ)
      → with_clusters ceil_of write_quorum p ≡ built clusters need
      → (0 < need) × (need ≤ length clusters)
  quorum_fits q (failed e) clusters need h = cc
  quorum_fits q (parsed cs) clusters need h =
      let (same, v) = with_quorum-built cs clusters _ need h in
      let (positive, fits) = evaluate_scalar_percentage_range ceil_of q (pos (length cs)) need v in
      (positive, subst (λ cs. need ≤ length cs) same (ground (arith, fits)))

  -- A farm that the server starts with, whatever the rounding of a percentage gives: a write of at least one
  -- tuple succeeds if all clusters do, and fails if none does.
  pub new_farm_writes :
      (redis_instances write_quorum : Bytes) (clusters : List (List Bytes)) (need : ℕ)
      (t : KeyScoreMember) (ts : List KeyScoreMember) (answers : List (Option Error))
      → new_farm ceil_of redis_instances write_quorum ≡ built clusters need
      → length answers ≡ length clusters
      → (All (λ a. a ≡ none) answers → (write need (t ∷ ts) answers).error ≡ none)
        × (All (λ a. a ≢ none) answers → (write need (t ∷ ts) answers).error ≢ none)
  unfolding new_farm
  new_farm_writes redis_instances write_quorum clusters need t ts answers h l =
      let (positive, fits) =
        quorum_fits write_quorum (parse_farm_string redis_instances) clusters need h in
      let iff = write_error_iff need t ts answers in
      (
        λ a. let all = all_succeed answers a in iff.1 (omega arith),
        λ a e.
            let zero_of = none_succeeds answers a in absurd (let enough = iff.0 e in omega arith),
      )

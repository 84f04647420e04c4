-- ===== src/Farm/Repair/Targets.antt =====
-- Which clusters the plan of AllRepairs writes to.
use er_pi_middleware25_artif.Base.{
  ℕ, zero, suc, ◌+◌, ◌≡◌, refl, subst, arith, List, [], ◌∷◌, Option, none, some, Bool, false,
  get_elem?, ℕ_discrete,
}
use er_pi_middleware25_artif.Cluster.Pipeline.{Presence}
use er_pi_middleware25_artif.Farm.Sets.{has}
use er_pi_middleware25_artif.Farm.Repair.{Decision, needs_write, to_repair}

abbrev pub writes_to : Decision → Option Presence → Bool
writes_to d none = false
writes_to d (some p) = needs_write d p

below_i :
    (d : Decision) (i j : ℕ) (ps : List Presence)
    → has ℕ_discrete j (to_repair d (suc (i + j)) ps) ≡ false
unfolding to_repair has
below_i d i j [] = refl
below_i d i j (p ∷ ps) = ground (arith, below_i d (suc i) j ps)

first-absent :
    (d : Decision) (i : ℕ) (ps : List Presence) → has ℕ_discrete i (to_repair d (suc i) ps) ≡ false
first-absent d i ps =
    subst (λ n. has ℕ_discrete i (to_repair d (suc n) ps) ≡ false) (zero_plus i) (below_i d 0 i ps)
  where
    zero_plus : (n : ℕ) → 0 + n ≡ n
    zero_plus n = omega arith

-- The plan writes to a cluster exactly if its presence needs the write.
pub to_repair_lem :
    (d : Decision) (i j : ℕ) (ps : List Presence)
    → has ℕ_discrete (i + j) (to_repair d i ps) ≡ writes_to d (get_elem? ps j)
unfolding to_repair has
to_repair_lem d i j [] = refl
to_repair_lem d i zero (p ∷ ps) = ground (arith, first-absent d i ps)
to_repair_lem d i (suc j) (p ∷ ps) = ground (arith, to_repair_lem d (suc i) j ps)

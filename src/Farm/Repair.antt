-- ===== src/Farm/Repair.antt =====
-- AllRepairs of roshi/farm/repair_strategies.go: the presences that the clusters report for a
-- key-member, the state that the repair takes for correct, and the writes that it schedules.
pub mod Highest
pub mod Targets
pub mod Converge
pub mod Permits
pub mod Nonblocking
use er_pi_middleware25_artif.Base.{
  ℕ, suc, ◌≡◌, List, [], ◌∷◌, ◌++◌, Option, none, some, ℤ, pos, ltb_ℤ, Bool, true, false, not, ◌&&◌,
  ◌||◌, if◌then◌else◌, lookup, insert, get_elem?, set, length, ℕ_discrete, replicate,
}
use er_pi_middleware25_artif.Common.{Bytes, KeyMember, KeyMember-discrete, KeyScoreMember}
use er_pi_middleware25_artif.Cluster.Conn.{Error, Result, ok, err}
use er_pi_middleware25_artif.Cluster.Pipeline.{Presence, PresenceMap}
use er_pi_middleware25_artif.Cluster.Script.{Side, inserts, deletes}

-- The variables of the first walk.
pub record Decision : Type 0 where
  pub found : Bool
  pub highest_score : ℤ
  pub was_inserted : Bool

abbrev pub undecided : Decision
undecided = record { found = false; highest_score = pos 0; was_inserted = false }

-- presence.Present && presence.Score >= highestScore
abbrev pub counts : Presence → Decision → Bool
counts p d = p.present && not (ltb_ℤ p.score d.highest_score)

abbrev pub consider : Presence → Decision → Decision
consider p d =
    if counts p d
    then record {
      found = true;
      highest_score = p.score;
      was_inserted = d.was_inserted || p.inserted;
    }
    else d

unfoldable pub decide : List Presence → Decision → Decision
decide [] d = d
decide (p ∷ ps) d = decide ps (consider p d)

abbrev pub bool_ne : Bool → Bool → Bool
bool_ne true b = not b
bool_ne false b = b

-- notThere || lowScore || wrongSet
abbrev pub needs_write : Decision → Presence → Bool
needs_write d p =
    not p.present || (ltb_ℤ p.score d.highest_score || bool_ne p.inserted d.was_inserted)

-- The clusters, from index `i` on, that get the write.
unfoldable pub to_repair : Decision → ℕ → List Presence → List ℕ
to_repair d i [] = []
to_repair d i (p ∷ ps) =
    let rest = to_repair d (suc i) ps in if needs_write d p then i ∷ rest else rest

-- The writes of a repair: the tuples for each cluster.
abbrev pub Writes : Type 0
Writes = List (ℕ × List KeyScoreMember)

abbrev pub scheduled : Option (List KeyScoreMember) → List KeyScoreMember
scheduled none = []
scheduled (some xs) = xs

-- writes[index] = append(writes[index], keyScoreMember)
abbrev pub schedule : KeyScoreMember → ℕ → Writes → Writes
schedule t i m = insert ℕ_discrete i (scheduled (lookup ℕ_discrete i m) ++ t ∷ []) m

unfoldable pub schedule_all : KeyScoreMember → List ℕ → Writes → Writes
schedule_all t [] m = m
schedule_all t (i ∷ is) m = schedule_all t is (schedule t i m)

pub record Plan : Type 0 where
  pub inserting : Writes
  pub deleting : Writes

abbrev pub plan_decided : KeyMember → Decision → List Presence → Plan → Plan
plan_decided km d ps plan =
    let t : KeyScoreMember = record { key = km.key; score = d.highest_score; member = km.member } in
    if d.found
    then if d.was_inserted
      then record plan { inserting = schedule_all t (to_repair d 0 ps) plan.inserting }
      else record plan { deleting = schedule_all t (to_repair d 0 ps) plan.deleting }
    else plan

-- The loop over the presence map.
unfoldable pub plan_repairs : List (KeyMember × List Presence) → Plan → Plan
unfolding decide to_repair schedule_all
plan_repairs [] plan = plan
plan_repairs ((km, ps) ∷ rest) plan =
    plan_repairs rest (plan_decided km (decide ps undecided) ps plan)

abbrev pub absent : Presence
absent = record { present = false; inserted = false; score = pos 0 }

-- make([]cluster.Presence, len(clusters)) for each key-member
unfoldable pub empty_presences :
    ℕ → List KeyMember → List (KeyMember × List Presence) → List (KeyMember × List Presence)
empty_presences clusters [] m = m
empty_presences clusters (km ∷ kms) m =
    empty_presences clusters kms (insert KeyMember-discrete km (replicate clusters absent) m)

-- presenceMap[keyMember][index] = presence; nothing if the key-member was not asked for, where
-- the code would panic.
unfoldable pub copy_presences :
    ℕ → PresenceMap → List (KeyMember × List Presence) → List (KeyMember × List Presence)
copy_presences i [] m = m
copy_presences i ((km, p) ∷ rest) m = copy_presences i rest (elim (lookup KeyMember-discrete km m) [
  | none ↦ m
  | some ps ↦ insert KeyMember-discrete km (set ps i p) m
])

-- The Score requests, from cluster `i` on; a cluster that fails leaves its presences empty.
unfoldable pub collect :
    ℕ
    → List (Result PresenceMap)
    → List (KeyMember × List Presence)
    → List (KeyMember × List Presence)
unfolding copy_presences
collect i [] m = m
collect i (err e ∷ rest) m = collect (suc i) rest m
collect i (ok scores ∷ rest) m = collect (suc i) rest (copy_presences i scores m)

-- The inserts and deletes that AllRepairs issues for the answers of the clusters.
unfoldable pub all_repairs : List KeyMember → List (Result PresenceMap) → Plan
unfolding plan_repairs empty_presences collect
all_repairs kms answers =
    plan_repairs (collect 0 answers (empty_presences (length answers) kms []))
      (record { inserting = []; deleting = [] })

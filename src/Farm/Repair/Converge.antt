-- ===== src/Farm/Repair/Converge.antt =====
-- What a repair leaves in the clusters when its writes go through.
use er_pi_middleware25_artif.Base.{ℕ_discrete, suc}
use er_pi_middleware25_artif.Base.{
  ℕ, ◌<◌, ◌≡◌, List, [], ◌∷◌, Option, some, ℤ, ◌≤ℤ◌, Bool, true, false, ◌&&◌, if◌then◌else◌,
}
use er_pi_middleware25_artif.Common.{Bytes}
use er_pi_middleware25_artif.Redis.{Redis}
use er_pi_middleware25_artif.Cluster.Script.{Side, inserts, deletes, Call, KeyState, script}
use er_pi_middleware25_artif.Cluster.Script.Invariant.{IsConsistent}
use er_pi_middleware25_artif.Cluster.Script.Register.{stored}
use er_pi_middleware25_artif.Cluster.Pipeline.{Presence}
use er_pi_middleware25_artif.Cluster.Pipeline.Reads.{presence}
use er_pi_middleware25_artif.Farm.Repair.{Decision, needs_write, to_repair}
use er_pi_middleware25_artif.Farm.Sets.{has}

abbrev pub side_of : Bool → Side
side_of true = inserts
side_of false = deletes

abbrev TopOf : Decision → Option ℤ → Option ℤ → Type 0
TopOf d a b = (presence a b).present ≡ true → (presence a b).score ≤ℤ d.highest_score

module _ (r : Redis) (max_size : ℕ) (member : Bytes) where
  open r use {zscore, zcard}

  -- What a cluster answers to Score.
  abbrev pub reported : KeyState r → Presence
  reported st = presence (zscore st.inserted member) (zscore st.deleted member)

  -- The script call of a repair.
  abbrev pub repair_call : Decision → Call
  repair_call d = record { side = side_of d.was_inserted; score = d.highest_score; member = member }

  -- A cluster after the repair: written if the plan says so.
  abbrev pub repair : Decision → KeyState r → KeyState r
  repair d st =
      if d.found && needs_write d (reported st)
      then (script r max_size (repair_call d) st).0
      else st

  -- The cluster is in order, with room for one more member.
  abbrev pub IsReady : KeyState r → Type 0
  IsReady st =
      IsConsistent r max_size st × (zcard st.inserted < max_size) × (zcard st.deleted < max_size)

  abbrev pub Agrees : Decision → KeyState r → Type 0
  Agrees d st = stored r st member ≡ some (side_of d.was_inserted, d.highest_score)

  -- The clusters from index `i` on after the repair, each written if the plan lists its index.
  abbrev pub repair_all : Decision → List Presence → ℕ → List (KeyState r) → List (KeyState r)
  repair_all d ps i [] = []
  repair_all d ps i (st ∷ sts) =
      let rest = repair_all d ps (suc i) sts in
      let write = (script r max_size (repair_call d) st).0 in
      if d.found && has ℕ_discrete i (to_repair d 0 ps) then write ∷ rest else st ∷ rest

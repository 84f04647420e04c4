-- ===== src/Cluster/Script.antt =====
-- The Lua script of roshi/cluster/cluster.go (genericScript), which Insert and Delete run for each
-- tuple, on the two sorted sets of one key.
pub mod Invariant
pub mod Register
pub mod Capacity
use er_pi_middleware25_artif.Base.{
  ℕ, ℤ, pos, negsuc, ltb_ℤ, leb, Bool, true, false, ◌&&◌, Option, none, some, List, [], ◌∷◌,
  if◌then◌else◌,
}
use er_pi_middleware25_artif.Common.{Bytes}
use er_pi_middleware25_artif.Redis.{Redis}
use er_pi_middleware25_artif.Redis.Sorted.{added}

-- insertScript adds to the set with suffix "+" and removes from the one with "-"; deleteScript
-- the other way round.
pub data Side : Type 0 where
  inserts deletes : Side

-- One call of a script: ARGV[1] is the score and ARGV[2] the member.
pub record Call : Type 0 where
  pub side : Side
  pub score : ℤ
  pub member : Bytes

-- `x and tonumber(ARGV[1]) < tonumber(x)`
abbrev pub older : ℤ → Option ℤ → Bool
older ts none = false
older ts (some s) = ltb_ℤ ts s

module _ (r : Redis) where
  open r use {Zset, zcard, zscore, zrange_first, zrem, zadd, zremrangebyrank}

  pub record KeyState : Type 0 where
    pub inserted : Zset
    pub deleted : Zset

  abbrev pub add_set : Side → KeyState → Zset
  add_set inserts st = st.inserted
  add_set deletes st = st.deleted

  abbrev pub rem_set : Side → KeyState → Zset
  rem_set inserts st = st.deleted
  rem_set deletes st = st.inserted

  abbrev pub key_state : Side → Zset → Zset → KeyState
  key_state inserts add rem = record { inserted = add; deleted = rem }
  key_state deletes add rem = record { inserted = rem; deleted = add }

  -- The writes of a call that is not refused, and its reply: the number of members added.
  pub accept : ℕ → Call → KeyState → KeyState × ℤ
  accept max_size c st =
      let add = add_set c.side st in
      (
        key_state c.side (zremrangebyrank (zadd add c.score c.member) max_size)
            (zrem (rem_set c.side st) c.member),
        pos (added (zscore add c.member)),
      )

  -- The new state and the reply; -1 says that the call was refused.
  unfoldable pub script : ℕ → Call → KeyState → KeyState × ℤ
  unfolding accept
  script max_size c st =
      let add = add_set c.side st in
      if leb max_size (zcard add) && older c.score (zrange_first add)
      then (st, negsuc 0)
      else if older c.score (zscore st.inserted c.member)
      then (st, negsuc 0)
      else if older c.score (zscore st.deleted c.member)
      then (st, negsuc 0)
      else accept max_size c st

  -- Redis runs the scripts of one connection in turn.
  unfoldable pub run_scripts : ℕ → List Call → KeyState → KeyState
  run_scripts max_size [] st = st
  run_scripts max_size (c ∷ cs) st = run_scripts max_size cs (script max_size c st).0

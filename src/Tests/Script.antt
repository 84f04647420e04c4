-- ===== src/Tests/Script.antt =====
-- The script of roshi/cluster/cluster.go on sorted lists.
use mathlib.Core.List.{Mem, not-mem-nil, eq-or-mem_of_mem-cons}
use mathlib.Core.List.Perm
use mathlib.Core.Logic.Or
use er_pi_middleware25_artif.Base.{
  ℕ, ◌≡◌, refl, ◌≤◌, pos, negsuc, [], ◌∷◌, some, inr, arith, ℕ_discrete, ◌↔◌,
}
use er_pi_middleware25_artif.Common.{Bytes-discrete}
use er_pi_middleware25_artif.Redis.{sorted_redis}
use er_pi_middleware25_artif.Redis.Sorted.{zscore, zrem, zadd, zrank, zrange_first}
use er_pi_middleware25_artif.Cluster.Script.{Call, inserts, deletes, KeyState, script, run_scripts}
use er_pi_middleware25_artif.Cluster.Script.Invariant.{IsConsistent, script-IsConsistent}
use er_pi_middleware25_artif.Cluster.Script.Register.{
  Settled, stored, stored-script, run_scripts-perm, merge, replay, stored-run_scripts,
}
use er_pi_middleware25_artif.Cluster.Script.Capacity.{IsStale, script_refuses_iff}

program : Unit {0}
unfolding script run_scripts stored zscore zrem zadd zrank zrange_first Bytes-discrete ℕ_discrete
    merge
program = tt

abbrev one_member : KeyState sorted_redis
one_member = record { inserted = (0 ∷ [], pos 5) ∷ []; deleted = [] }

abbrev delete_a : Call
delete_a = record { side = deletes; score = pos 7; member = 0 ∷ [] }

abbrev insert_b : Call
insert_b = record { side = inserts; score = pos 6; member = 1 ∷ [] }

abbrev insert_old : Call
insert_old = record { side = inserts; score = pos 3; member = 1 ∷ [] }

-- The delete moves the member to the other set.
delete_moves :
    script sorted_redis 2 delete_a one_member
    ≡ (record { inserted = []; deleted = (0 ∷ [], pos 7) ∷ [] }, pos 1)
unfolding program
delete_moves = refl

-- A full set refuses what is older than its oldest member.
full_refuses : script sorted_redis 1 insert_old one_member ≡ (one_member, negsuc 0)
unfolding program
full_refuses = refl

one_member-IsConsistent_of : (n : ℕ) → 1 ≤ n → IsConsistent sorted_redis n one_member
unfolding zscore
one_member-IsConsistent_of n h = record {
  inserted_set = (tt, tt);
  deleted_set = tt;
  disjoint = λ j. inr refl;
  inserted_bounded = omega arith;
  deleted_bounded = omega arith;
}

script-IsConsistent_example :
    IsConsistent sorted_redis 2 (script sorted_redis 2 delete_a one_member).0
script-IsConsistent_example =
    script-IsConsistent sorted_redis 2 delete_a one_member
      (one_member-IsConsistent_of 2 (omega arith))

stored-script_example :
    stored sorted_redis (script sorted_redis 2 insert_b one_member).0 (1 ∷ [])
    ≡ some (inserts, pos 6)
unfolding program
stored-script_example =
    stored-script sorted_redis 2 insert_b one_member (1 ∷ [])
      (one_member-IsConsistent_of 2 (omega arith)) (omega arith)

script_refuses_iff_example :
    (((script sorted_redis 1 insert_old one_member).1 ≡ negsuc 0)
      ↔ IsStale sorted_redis 1 insert_old one_member)
    × ((script sorted_redis 1 insert_old one_member).1 ≡ negsuc 0
        → (script sorted_redis 1 insert_old one_member).0 ≡ one_member)
script_refuses_iff_example = script_refuses_iff sorted_redis 1 insert_old one_member

-- Calls for two members are settled.
two_calls-Settled : Settled (delete_a ∷ insert_b ∷ [])
two_calls-Settled a b ma mb =
    Or.elim (hlevel) (eq-or-mem_of_mem-cons ma)
      (λ ea.
        Or.elim (hlevel) (eq-or-mem_of_mem-cons mb) (λ eb m s. rw (ea, eb))
          (λ rest m s. one_left rest m s ea))
      (λ left.
        Or.elim (hlevel) (eq-or-mem_of_mem-cons left)
          (λ ea.
            Or.elim (hlevel) (eq-or-mem_of_mem-cons mb) (λ eb m s. cc)
              (λ rest m s.
                Or.elim (hlevel) (eq-or-mem_of_mem-cons rest) (λ eb. rw (ea, eb))
                  (λ n. absurd (not-mem-nil n))))
          (λ none_left. absurd (not-mem-nil none_left)))
  where
    one_left :
        Mem b (insert_b ∷ [])
        → a.member ≡ b.member
        → a.score ≡ b.score
        → a ≡ delete_a
        → a.side ≡ b.side
    one_left rest m s ea =
        Or.elim (hlevel) (eq-or-mem_of_mem-cons rest) (λ eb. cc) (λ n. absurd (not-mem-nil n))

run_scripts-perm_example :
    stored sorted_redis (run_scripts sorted_redis 4 (delete_a ∷ insert_b ∷ []) one_member) (0 ∷ [])
    ≡ stored sorted_redis
        (run_scripts sorted_redis 4 (insert_b ∷ delete_a ∷ []) one_member)
        (0 ∷ [])
run_scripts-perm_example =
    run_scripts-perm sorted_redis 4 (delete_a ∷ insert_b ∷ []) (insert_b ∷ delete_a ∷ []) one_member
      (0 ∷ []) (one_member-IsConsistent_of 4 (omega arith)) (omega arith, omega arith)
      two_calls-Settled (Perm.swap insert_b delete_a [])

stored-run_scripts_example :
    stored sorted_redis (run_scripts sorted_redis 4 (delete_a ∷ insert_b ∷ []) one_member) (0 ∷ [])
    ≡ replay (delete_a ∷ insert_b ∷ []) (0 ∷ []) (stored sorted_redis one_member (0 ∷ []))
stored-run_scripts_example =
    stored-run_scripts sorted_redis 4 (delete_a ∷ insert_b ∷ []) one_member (0 ∷ [])
      (one_member-IsConsistent_of 4 (omega arith)) (omega arith, omega arith)

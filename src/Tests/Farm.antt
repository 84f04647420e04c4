-- ===== src/Tests/Farm.antt =====
-- The writes, repairs and set operations of roshi/farm on small inputs.
use mathlib.Core.List.{Memᴰ}
use er_pi_middleware25_artif.Base.{lookup, insert, ◌≢◌, Option, ℕ, ◌+◌, ◌*◌, ◌/◌}
use er_pi_middleware25_artif.Base.{
  ◌≡◌, refl, ◌↔◌, ◌≤◌, ◌<◌, List, [], ◌∷◌, map, All, none, some, true, false, ℤ, pos, negsuc, ◌≤ℤ◌,
  arith, ℕ_discrete,
}
use er_pi_middleware25_artif.Common.{
  Bytes, Bytes-discrete, KeyMember, KeyMember-discrete, KeyScoreMember, KeyScoreMember-discrete,
}
use er_pi_middleware25_artif.Redis.{sorted_redis}
use er_pi_middleware25_artif.Redis.Sorted.{zscore}
use er_pi_middleware25_artif.Cluster.Script.{KeyState}
use er_pi_middleware25_artif.Cluster.Pipeline.{Presence}
use er_pi_middleware25_artif.Farm.Write.{
  write, successes, errors_of, written_with_quorum, written_without, write_quorum_iff,
}
use er_pi_middleware25_artif.Cluster.Conn.{Error}
use er_pi_middleware25_artif.Farm.Repair.{undecided, decide, plan_repairs}
use er_pi_middleware25_artif.Farm.Repair.Highest.{
  insert_at, delete_at, decide_depends_on_order, negative_never_found,
}
use er_pi_middleware25_artif.Farm.Repair.Converge.{reported}
use er_pi_middleware25_artif.Farm.Sets.{has, TupleSet}
use er_pi_middleware25_artif.Common.Digits.{parse_uint}
use er_pi_middleware25_artif.Farm.Declaration.{parse_farm_string}
use er_pi_middleware25_artif.Common.Digits.{parse_int64}
use er_pi_middleware25_artif.Server.Percentage.{evaluate_scalar_percentage}
use er_pi_middleware25_artif.Server.Start.{built, new_farm, new_farm_writes}
use er_pi_middleware25_artif.Farm.Union.{key_member, union_difference}
use er_pi_middleware25_artif.Farm.Union.Best.{all_tuples, union_best}
use er_pi_middleware25_artif.Farm.Union.Agreement.{Disputed, difference_lem}

program : Unit {0}
unfolding decide zscore Bytes-discrete ℕ_discrete has KeyScoreMember-discrete
program = tt

abbrev tuple_at : ℤ → KeyScoreMember
tuple_at s = record { key = 7 ∷ []; score = s; member = 1 ∷ [] }

abbrev three_answers : List (Option Error)
three_answers = none ∷ some (3 ∷ []) ∷ none ∷ []

write_quorum_iff_example :
    (2 ≤ successes three_answers
      → write 2 (tuple_at (pos 5) ∷ []) three_answers ≡ written_with_quorum 1)
    × (successes three_answers < 2
        → write 2 (tuple_at (pos 5) ∷ []) three_answers
          ≡ written_without 1 (errors_of three_answers))
write_quorum_iff_example = write_quorum_iff 2 (tuple_at (pos 5)) [] three_answers

abbrev presences : List Presence
presences = insert_at (pos 5) ∷ delete_at (pos 7) ∷ []

decide_depends_on_order_example :
    (decide (insert_at (pos 5) ∷ delete_at (pos 7) ∷ []) undecided
      ≡ record { found = true; highest_score = pos 7; was_inserted = true })
    × (decide (delete_at (pos 7) ∷ insert_at (pos 5) ∷ []) undecided
        ≡ record { found = true; highest_score = pos 7; was_inserted = false })
decide_depends_on_order_example =
    decide_depends_on_order (pos 5) (pos 7) (omega arith) (omega arith)

abbrev first_km : KeyMember
first_km = record { key = 7 ∷ []; member = 1 ∷ [] }

abbrev second_km : KeyMember
second_km = record { key = 7 ∷ []; member = 2 ∷ [] }

negative_never_found_example :
    plan_repairs
      ((first_km, insert_at (pos 5) ∷ []) ∷ (second_km, insert_at (negsuc 2) ∷ []) ∷ [])
      (record { inserting = []; deleting = [] })
    ≡ plan_repairs
        ((first_km, insert_at (pos 5) ∷ []) ∷ [])
        (record { inserting = []; deleting = [] })
negative_never_found_example =
    negative_never_found ((first_km, insert_at (pos 5) ∷ []) ∷ []) [] second_km
      (insert_at (negsuc 2) ∷ []) (record { inserting = []; deleting = [] })
      ((λ e. omega arith), tt)

abbrev a_member : Bytes
a_member = 1 ∷ []

abbrev with_insert : KeyState sorted_redis
with_insert = record { inserted = (a_member, pos 5) ∷ []; deleted = [] }

abbrev with_delete : KeyState sorted_redis
with_delete = record { inserted = []; deleted = (a_member, pos 7) ∷ [] }

abbrev states : List (KeyState sorted_redis)
states = with_insert ∷ with_delete ∷ []

abbrev answers : List Presence
answers = map (reported sorted_redis 3 a_member) states

abbrev sets : List TupleSet
sets = (tuple_at (pos 5) ∷ []) ∷ (tuple_at (pos 8) ∷ []) ∷ []

union_best_example :
    (has KeyScoreMember-discrete (tuple_at (pos 8)) (union_difference sets).0 ≡ true) ↔ (
      Memᴰ (tuple_at (pos 8)) (all_tuples sets)
      × ((u : KeyScoreMember)
          → Memᴰ u (all_tuples sets)
          → key_member u ≡ key_member (tuple_at (pos 8))
          → u.score ≤ℤ pos 8))
union_best_example = union_best sets (tuple_at (pos 8))

difference_lem_example :
    (has KeyMember-discrete (key_member (tuple_at (pos 8))) (union_difference sets).1 ≡ true)
    ↔ Disputed (key_member (tuple_at (pos 8))) sets
unfolding has
difference_lem_example =
    difference_lem sets (key_member (tuple_at (pos 8))) ((refl, tt), ((refl, tt), tt))

-- "a:1,b:2; c:3"
abbrev farm_string : Bytes
farm_string = b'a' ∷ b':' ∷ b'1' ∷ b',' ∷ b'b' ∷ b':' ∷ b'2' ∷ b';' ∷ b' ' ∷ b'c' ∷ b':' ∷ b'3' ∷ []

abbrev two_clusters : List (List Bytes)
two_clusters =
    ((b'a' ∷ b':' ∷ b'1' ∷ []) ∷ (b'b' ∷ b':' ∷ b'2' ∷ []) ∷ [])
    ∷ ((b'c' ∷ b':' ∷ b'3' ∷ []) ∷ [])
    ∷ []

-- A write quorum of 51% of two clusters is two.
abbrev ceil_of : ℕ → ℕ → ℤ
ceil_of p n = pos ((p * n + 99) / 100)

abbrev majority : Bytes
majority = b'5' ∷ b'1' ∷ b'%' ∷ []

two_clusters-built : new_farm ceil_of farm_string majority ≡ built two_clusters 2
unfolding new_farm parse_farm_string parse_uint parse_int64 Bytes-discrete ℕ_discrete lookup insert
    evaluate_scalar_percentage
two_clusters-built = refl

abbrev two_answers : List (Option Error)
two_answers = none ∷ some [] ∷ []

new_farm_writes_example :
    (All (λ a. a ≡ none) two_answers → (write 2 (tuple_at (pos 5) ∷ []) two_answers).error ≡ none)
    × (All (λ a. a ≢ none) two_answers → (write 2 (tuple_at (pos 5) ∷ []) two_answers).error ≢ none)
new_farm_writes_example =
    new_farm_writes ceil_of farm_string majority two_clusters 2 (tuple_at (pos 5)) [] two_answers
      two_clusters-built refl

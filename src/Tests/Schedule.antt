-- ===== src/Tests/Schedule.antt =====
-- The actions of Go_RDL/FirstRun and the writes and pages of a farm on small inputs.
use mathlib.Core.List.Perm
use er_pi_middleware25_artif.Base.{
  some, ℕ, ◌≢◌, inl, ◌≡◌, ◌↔◌, ◌≤◌, refl, List, [], ◌∷◌, none, pos, map, length, All, ℕ_discrete,
}
use er_pi_middleware25_artif.Common.{Bytes, KeyScoreMember}
use er_pi_middleware25_artif.Cluster.Conn.{ok, err, eof, Reply}
use er_pi_middleware25_artif.Cluster.Script.{inserts, deletes}
use er_pi_middleware25_artif.Cluster.Pipeline.{pipeline_insert, pipeline_delete}
use er_pi_middleware25_artif.Cluster.Range.{page}
use er_pi_middleware25_artif.Cluster.Range.Page.{IsDescending}
use er_pi_middleware25_artif.Farm.Sets.{ordered_limited_slice}
use er_pi_middleware25_artif.Farm.Reads.{Response}
use er_pi_middleware25_artif.Farm.Quorum
use er_pi_middleware25_artif.Farm.Quorum.{
  Cluster, insert_into, delete_from, acknowledged, IsStored, writes-IsStored,
}
use er_pi_middleware25_artif.Server.{returns, flatten}
use er_pi_middleware25_artif.Server.Order.{cursor, farm_less, IsOrdered}
use er_pi_middleware25_artif.Server.Pages.{flatten_determined, listed_as, ties_lost}
use er_pi_middleware25_artif.Counter.{inc_name}
use er_pi_middleware25_artif.Farm.Sets.{has}
use er_pi_middleware25_artif.Counter.Actions.{Action}
use er_pi_middleware25_artif.Counter.Schedule
use er_pi_middleware25_artif.Counter.Schedule.{
  Item, State, Run, starts, performs, Timed, skip_stops,
}

-- Two actions at replica 1 and one at replica 2.
abbrev item : ℕ → ℕ → Item
item replica time = record { operation = inc_name; replica = replica; time = time }

abbrev items : List Item
items = item 1 1 ∷ item 1 2 ∷ item 2 3 ∷ []

items-Timed : Timed 1 items
items-Timed = (refl, (refl, (refl, tt)))

abbrev replicas : List ℕ
replicas = 1 ∷ 2 ∷ []

abbrev after_first : State
after_first = Schedule.perform 1 (item 1 1) (item 1 2 ∷ []) (Schedule.start replicas items)

first_performed : Run replicas items after_first
unfolding ℕ_discrete has
first_performed = performs 1 (item 1 1) (item 1 2 ∷ []) refl refl (inl refl) starts

-- Replica 1 loses its second action; replica 2 has the next one before it.
skip_stops_example : (Schedule.skip 1 [] after_first).clock ≢ 3
unfolding ℕ_discrete has
skip_stops_example =
    skip_stops replicas items items-Timed after_first first_performed 1 (item 1 2) [] refl refl 2
      (item 2 3) [] refl

-- A delay of two seconds.
abbrev delay_text : Bytes
delay_text = b'2' ∷ b'_' ∷ b'1' ∷ b'_' ∷ b'4' ∷ []

abbrev delay_action : Action
delay_action = record { text = delay_text; operation = b'2' ∷ []; replica = pos 1; time = pos 4 }

-- Two clusters, one of which cannot be reached.
abbrev reachable : Cluster
reachable = record {
  index = λ key. 0;
  max_size = 9;
  conns = λ i. ok (record {
    send_error = λ n. none;
    flush_error = none;
    replies = ok (Reply.integer (pos 1)) ∷ [];
    sent = [];
  });
  arrive = λ xs. xs;
  permutes = λ xs. Perm.refl xs;
}

abbrev unreachable : Cluster
unreachable = record reachable { conns = λ i. err eof }

abbrev tuple : KeyScoreMember
tuple = record { key = 7 ∷ []; score = pos 5; member = 1 ∷ [] }

writes-IsStored_example :
    let clusters = unreachable ∷ reachable ∷ [] in
    let a = acknowledged (insert_into (tuple ∷ [])) clusters in
    let b = acknowledged (delete_from (tuple ∷ [])) clusters in
    (((Quorum.insert 1 clusters (λ xs. xs) (tuple ∷ [])).error ≡ none) ↔ (1 ≤ length a))
    × All (IsStored inserts pipeline_insert (tuple ∷ [])) a
    × (((Quorum.delete 1 clusters (λ xs. xs) (tuple ∷ [])).error ≡ none) ↔ (1 ≤ length b))
    × All (IsStored deletes pipeline_delete (tuple ∷ [])) b
writes-IsStored_example =
    writes-IsStored 1 (unreachable ∷ reachable ∷ []) (λ xs. xs) (λ xs. Perm.refl xs) tuple []

-- Two keys that hold the same score and member.
abbrev other : KeyScoreMember
other = record tuple { key = 8 ∷ [] }

abbrev response : Response
response = (7 ∷ [], tuple ∷ []) ∷ (8 ∷ [], other ∷ []) ∷ []

abbrev ranged_back : Response
ranged_back = (8 ∷ [], other ∷ []) ∷ (7 ∷ [], tuple ∷ []) ∷ []

flatten_determined_example :
    (a b : List KeyScoreMember) × (flatten (λ xs. xs) response (pos 0) (pos 1) ≡ returns a)
    × (flatten (λ xs. xs) ranged_back (pos 0) (pos 1) ≡ returns b)
    × (map cursor a ≡ map cursor b)
flatten_determined_example =
    flatten_determined (λ xs. xs) (λ xs. xs) response ranged_back 0 1
      (record { permutes = Perm.refl _; orders = ((refl, tt), (tt, tt)) })
      (record { permutes = Perm.refl _; orders = ((refl, tt), (tt, tt)) })
      (Perm.swap other tuple [])

abbrev greater : KeyScoreMember
greater = record tuple { member = 2 ∷ [] }

-- A sort that moves the first of two tuples back.
abbrev swapped : List KeyScoreMember → List KeyScoreMember
swapped (x ∷ y ∷ xs) = y ∷ x ∷ xs
swapped xs = xs

ties_lost_example :
    IsDescending (listed_as greater ∷ listed_as tuple ∷ [])
    × IsOrdered farm_less (swapped (greater ∷ tuple ∷ []))
    × (ordered_limited_slice swapped 1 (greater ∷ tuple ∷ []) ≡ tuple ∷ [])
    × (page (cursor tuple) (cursor tuple) 5 3 (7 ∷ []) (listed_as greater ∷ listed_as tuple ∷ [])
        ≡ some [])
ties_lost_example = ties_lost swapped greater tuple (cursor tuple) 5 (7 ∷ []) refl refl refl

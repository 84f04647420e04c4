-- ===== src/Tests/Reads.antt =====
-- The read strategies of roshi/farm on small inputs.
use er_pi_middleware25_artif.Base.{
  ◌≡◌, refl, ◌↔◌, List, [], ◌∷◌, ◌++◌, none, some, true, false, ℤ, pos, lookup, insert, arith,
  ℕ_discrete,
}
use er_pi_middleware25_artif.Common.{
  Bytes, Bytes-discrete, KeyMember-discrete, KeyScoreMember, KeyScoreMember-discrete,
}
use er_pi_middleware25_artif.Farm.Sets.{add, has, make_set}
use er_pi_middleware25_artif.Farm.Union.Agreement.{Disputed}
use er_pi_middleware25_artif.Cluster.Select.{Element}
use er_pi_middleware25_artif.Farm.Reads.{read_all}
use er_pi_middleware25_artif.Farm.Reads.Responses.{answers_of}
use er_pi_middleware25_artif.Farm.Reads.Responses.Page.{Answered}
use er_pi_middleware25_artif.Tests.Sorting.{sorting, sorting-SortsFarm}
use er_pi_middleware25_artif.Farm.Reads.Responses.Repairs.{lookup-read_all, read_all_repairs}
use er_pi_middleware25_artif.Farm.Reads.Linger.{
  Gathering, Event, element, cluster_done, begin_read, loop, elements_of, end_read, read_linger,
}
use er_pi_middleware25_artif.Farm.Reads.Linger.Returns.{loop_breaks}
use er_pi_middleware25_artif.Farm.Reads.Linger.Outcomes.{
  Reports, read_linger-Reports, linger_repairs,
}

program : Unit {0}
unfolding loop lookup insert add ℕ_discrete make_set Bytes-discrete KeyScoreMember-discrete
    read_linger end_read
program = tt

abbrev a_key : Bytes
a_key = 7 ∷ []

abbrev tuple_at : ℤ → KeyScoreMember
tuple_at s = record { key = a_key; score = s; member = 1 ∷ [] }

abbrev answer : ℤ → Element
answer s = record { key = a_key; members = tuple_at s ∷ []; error = none }

abbrev broken : Element
broken = record { key = a_key; members = []; error = some (3 ∷ []) }

abbrev elements : List Element
elements = broken ∷ answer (pos 5) ∷ answer (pos 8) ∷ []

-- A sort that does for the sets of one tuple.
abbrev keep : List KeyScoreMember → List KeyScoreMember
keep xs = xs

lookup-read_all_example :
    Answered 10 a_key elements (lookup Bytes-discrete a_key (read_all sorting 10 elements).0)
lookup-read_all_example = lookup-read_all sorting 10 elements a_key sorting-SortsFarm

read_all_repairs_example :
    (has KeyMember-discrete (record { key = a_key; member = 1 ∷ [] }) (read_all keep 10 elements).1
      ≡ true)
    ↔ ((k : Bytes) × Disputed (record { key = a_key; member = 1 ∷ [] }) (answers_of k elements))
read_all_repairs_example =
    read_all_repairs keep 10 elements (record { key = a_key; member = 1 ∷ [] })

abbrev started : Gathering
started = begin_read true 0 true (a_key ∷ []) (0 ∷ 1 ∷ [])

abbrev events : List Event
events =
    element broken
    ∷ cluster_done
    ∷ element (answer (pos 5))
    ∷ element (answer (pos 8))
    ∷ cluster_done
    ∷ []

abbrev late : List Event
late = element (answer (pos 8)) ∷ cluster_done ∷ []

abbrev broken_off : Gathering
broken_off = record {
  responses = (a_key, (tuple_at (pos 5) ∷ []) ∷ []) ∷ [];
  remaining_keys = [];
  may_send_all = true;
  clusters_not_used = [];
  waiting = 1;
  armed = false;
  asked = (0, a_key ∷ []) ∷ (1, a_key ∷ []) ∷ [];
}

-- The loop breaks at the first answer to the only key.
loop-started : loop events started ≡ some (broken_off, late)
unfolding program
loop-started = refl

loop_breaks_example : (r : Gathering × List Event) × (loop events started ≡ some r)
loop_breaks_example = loop_breaks events started (omega arith) (omega arith)

read_linger-Reports_example :
    (g : Gathering) × (left : List Event) × (loop events started ≡ some (g, left))
    × ((seen : List Event) × (events ≡ seen ++ left)
        × Reports 10 (elements_of seen) (end_read sorting 10 broken_off late).response)
unfolding program
read_linger-Reports_example =
    read_linger-Reports sorting 10 true 0 true (a_key ∷ []) (0 ∷ 1 ∷ []) events
      (end_read sorting 10 broken_off late) sorting-SortsFarm refl

linger_repairs_example :
    (has KeyMember-discrete
        (record { key = a_key; member = 1 ∷ [] })
        (end_read keep 10 broken_off late).repairs
      ≡ true)
    ↔ ((k : Bytes) × Disputed
          (record { key = a_key; member = 1 ∷ [] })
          (answers_of k (elements_of events)))
linger_repairs_example =
    linger_repairs keep 10 true 0 true (a_key ∷ []) (0 ∷ 1 ∷ []) events late broken_off
      (record { key = a_key; member = 1 ∷ [] }) loop-started refl refl

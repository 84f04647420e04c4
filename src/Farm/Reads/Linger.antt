-- ===== src/Farm/Reads/Linger.antt =====
-- SendVarReadFirstLinger of roshi/farm/read_strategies.go as a state machine. Its events are what
-- its select statement can receive: an element, the closing of the channel once every cluster is
-- done, and the timeout.
pub mod Returns
pub mod Outcomes
use er_pi_middleware25_artif.Base.{
  ℕ, ◌+◌, ◌-◌, ◌≡◌, refl, List, [], ◌∷◌, ◌++◌, map, take, drop, Option, none, some, Bool, true,
  false, ite, if◌then◌else◌, length, ◌&&◌, not, ◌==◌,
}
use er_pi_middleware25_artif.Common.{Bytes, Bytes-discrete, KeyScoreMember}
use er_pi_middleware25_artif.Cluster.Conn.{Error, Result, ok, err}
use er_pi_middleware25_artif.Farm.Sets.{make_set, KeyMemberSet}
use er_pi_middleware25_artif.Cluster.Select.{Element}
use er_pi_middleware25_artif.Farm.Reads.{
  Response, Responses, complete_failure, respond, gather, repairs_of, response_of,
}

-- The state of the loop. `waiting` is the count of the WaitGroup, `armed` says that the timeout is
-- still to come, and `asked` lists the selects that were scattered, by cluster. A timeout that is
-- not armed never arrives; its event changes nothing. The signals to the WaitGroup after the loop,
-- for the clusters that were not asked, are left out.
pub record Gathering : Type 0 where
  pub responses : Responses
  pub remaining_keys : List Bytes
  pub may_send_all : Bool
  pub clusters_not_used : List ℕ
  pub waiting : ℕ
  pub armed : Bool
  pub asked : List (ℕ × List Bytes)

pub data Event : Type 0 where
  element : Element → Event
  cluster_done : Event
  timeout : Event

abbrev pub scatter_selects : List Bytes → List ℕ → List (ℕ × List Bytes)
scatter_selects keys clusters = map (λ c. (c, keys)) clusters

-- delete(m, k)
abbrev pub delete : Bytes → List Bytes → List Bytes
delete k [] = []
delete k (j ∷ js) = ite (Bytes-discrete j k) (delete k js) (j ∷ delete k js)

abbrev pub is_empty : {A : Type 0} → List A → Bool
is_empty [] = true
is_empty (x ∷ xs) = false

-- Up to the loop: `permitted` is the permitter's answer, `i` the random index, and `patient` says
-- that thresholdLatency is not negative.
abbrev pub begin_read : Bool → ℕ → Bool → List Bytes → List ℕ → Gathering
begin_read permitted i patient keys clusters = record {
  responses = [];
  remaining_keys = make_set Bytes-discrete keys;
  may_send_all = permitted;
  clusters_not_used = if permitted then [] else take i clusters ++ drop (i + 1) clusters;
  waiting = length clusters;
  armed = not permitted && patient;
  asked = scatter_selects keys (if permitted then clusters else take 1 (drop i clusters));
}

abbrev pub receive_element : Element → Gathering → Gathering
receive_element e g = elim e.error [
  | none ↦ record g {
    responses = respond e g.responses;
    remaining_keys = delete e.key g.remaining_keys;
  }
  | some x ↦ g
]

abbrev pub promote : Gathering → Gathering
promote g = record g {
  may_send_all = true;
  clusters_not_used = [];
  armed = false;
  asked = g.asked ++ scatter_selects g.remaining_keys g.clusters_not_used;
}

abbrev pub step : Event → Gathering → Gathering
step (element e) g = receive_element e g
step cluster_done g = record g { waiting = g.waiting - 1 }
step timeout g = if g.armed then promote g else g

-- Whether the loop breaks in the state after the event.
abbrev pub breaks : Event → Gathering → Bool
breaks (element e) g = elim e.error [ none ↦ is_empty g.remaining_keys | some x ↦ false ]
breaks cluster_done g = g.waiting == 0
breaks timeout g = is_empty g.remaining_keys

-- The state at the break with the events that are left, or none while the loop blocks.
unfoldable pub loop : List Event → Gathering → Option (Gathering × List Event)
loop [] g = none
loop (event ∷ events) g =
    let next = step event g in
    let rest = loop events next in if breaks event next then some (next, events) else rest

abbrev pub elements_of : List Event → List Element
elements_of [] = []
elements_of (element e ∷ events) = e ∷ elements_of events
elements_of (cluster_done ∷ events) = elements_of events
elements_of (timeout ∷ events) = elements_of events

-- What the read returns, and the key-members that it or its lingering goroutine repairs.
pub record Outcome : Type 0 where
  pub response : Result Response
  pub repairs : KeyMemberSet

module _ (sort : List KeyScoreMember → List KeyScoreMember) where
  unfoldable pub end_read : ℕ → Gathering → List Event → Outcome
  end_read limit g late =
      let response = ok (response_of sort limit g.responses) in
      let repairs = repairs_of g.responses [] in
      if is_empty g.responses && not (is_empty g.remaining_keys)
      then record { response = err complete_failure; repairs = [] }
      else if not (is_empty g.remaining_keys)
      then record { response = response; repairs = repairs }
      else if not g.may_send_all
      then record { response = response; repairs = [] }
      else record {
        response = response;
        repairs = repairs_of (gather (elements_of late) g.responses) repairs;
      }

  abbrev pub ended : ℕ → Option (Gathering × List Event) → Option Outcome
  ended limit none = none
  ended limit (some (g, late)) = some (end_read limit g late)

  unfoldable pub read_linger : ℕ → Gathering → List Event → Option Outcome
  unfolding loop end_read
  read_linger limit g events = ended limit (loop events g)

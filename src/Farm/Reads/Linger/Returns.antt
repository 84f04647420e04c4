-- ===== src/Farm/Reads/Linger/Returns.antt =====
-- What the loop of SendVarReadFirstLinger has gathered when it breaks, and that it breaks.
use mathlib.Core.List.{append_assoc, append-nil}
use er_pi_middleware25_artif.Base.{
  ℕ, ◌+◌, ◌≤◌, ◌<◌, ◌≡◌, refl, ap, ◌∙◌, sym, subst, arith, ◌⊎◌, inl, inr, Bool-cases, List, [], ◌∷◌,
  ◌++◌, Option, none, some, Bool, true, false, ite, if◌then◌else◌,
}
use er_pi_middleware25_artif.Common.{Bytes, Bytes-discrete, KeyScoreMember}
use er_pi_middleware25_artif.Cluster.Conn.{Error}
use er_pi_middleware25_artif.Farm.Sets.{has, has-make_set}
use er_pi_middleware25_artif.Cluster.Select.{Element}
use er_pi_middleware25_artif.Farm.Reads.{Responses, respond, gather}
use er_pi_middleware25_artif.Farm.Reads.Responses.{answers_of}
use er_pi_middleware25_artif.Farm.Reads.Linger.{
  Gathering, Event, element, cluster_done, timeout, receive_element, promote, delete, is_empty,
  begin_read, step, breaks, loop, elements_of,
}

pub gather-append :
    (xs ys : List Element) (m : Responses) → gather (xs ++ ys) m ≡ gather ys (gather xs m)
unfolding gather
gather-append [] ys m = refl
gather-append (x ∷ xs) ys m = gather-append xs ys (respond x m)

pub elements_of-append :
    (xs ys : List Event) → elements_of (xs ++ ys) ≡ elements_of xs ++ elements_of ys
elements_of-append [] ys = refl
elements_of-append (element e ∷ xs) ys = ap (λ l. e ∷ l) (elements_of-append xs ys)
elements_of-append (cluster_done ∷ xs) ys = elements_of-append xs ys
elements_of-append (timeout ∷ xs) ys = elements_of-append xs ys

has-delete :
    (k j : Bytes) (ks : List Bytes)
    → has Bytes-discrete j (delete k ks)
      ≡ (if has Bytes-discrete j ks then ite (Bytes-discrete k j) false true else false)
unfolding has
has-delete k j [] = refl
has-delete k j (x ∷ xs) = ground (arith, has-delete k j xs)

-- The elements that arrived, in the state: the responses are what they gave, and a key remains
-- while no element answered it.
record Holds (keys : List Bytes) (early : List Element) (g : Gathering) : Type 0 where
  gathered : g.responses ≡ gather early []
  remain :
      (k : Bytes)
      → has Bytes-discrete k g.remaining_keys
        ≡ (if has Bytes-discrete k keys then is_empty (answers_of k early) else false)

abbrev an_element : Bytes → List KeyScoreMember → Option Error → Element
an_element j xs o = record { key = j; members = xs; error = o }

answered :
    (j : Bytes) (xs : List KeyScoreMember) (k : Bytes) (early : List Element)
    → is_empty (answers_of k (early ++ an_element j xs none ∷ []))
      ≡ (if is_empty (answers_of k early) then ite (Bytes-discrete j k) false true else false)
answered j xs k [] = ground arith
answered j xs k (e ∷ early) = ground (arith, answered j xs k early)

ignored :
    (j : Bytes) (xs : List KeyScoreMember) (k : Bytes) (x : Error) (early : List Element)
    → answers_of k (early ++ an_element j xs (some x) ∷ []) ≡ answers_of k early
ignored j xs k x [] = refl
ignored j xs k x (e ∷ early) = ground (arith, ignored j xs k x early)

receive-Holds :
    (keys : List Bytes) (early : List Element) (g : Gathering) (j : Bytes)
    (xs : List KeyScoreMember) (o : Option Error)
    → Holds keys early g
    → Holds keys (early ++ an_element j xs o ∷ []) (receive_element (an_element j xs o) g)
unfolding gather
receive-Holds keys early g j xs none i = record {
  gathered =
      rw (gather-append early (an_element j xs none ∷ []) [])
        (ap (respond (an_element j xs none)) i.gathered);
  remain = λ k. ground (arith, i.remain k, has-delete j k g.remaining_keys, answered j xs k early);
}
receive-Holds keys early g j xs (some x) i = record {
  gathered = rw (gather-append early (an_element j xs (some x) ∷ []) []) i.gathered;
  remain = λ k. rw (ignored j xs k x early) (i.remain k);
}

timeout-Holds :
    (keys : List Bytes) (early : List Element) (g : Gathering) (armed : Bool)
    → Holds keys early g
    → Holds keys early (if armed then promote g else g)
timeout-Holds keys early g true i = record { gathered = i.gathered; remain = i.remain }
timeout-Holds keys early g false i = i

step-Holds :
    (keys : List Bytes) (early : List Element) (event : Event) (g : Gathering)
    → Holds keys early g
    → Holds keys (early ++ elements_of (event ∷ [])) (step event g)
step-Holds keys early (element e) g i = receive-Holds keys early g e.key e.members e.error i
step-Holds keys early cluster_done g i =
    rw (append-nil early) (record { gathered = i.gathered; remain = i.remain })
step-Holds keys early timeout g i = rw (append-nil early) (timeout-Holds keys early g g.armed i)

-- The loop breaks once no key remains or every cluster is done.
break_cases :
    (event : Event) (g : Gathering)
    → breaks event g ≡ true
    → (g.remaining_keys ≡ []) ⊎ (g.waiting ≡ 0)
break_cases (element e) g h = ground arith
break_cases cluster_done g h = ground arith
break_cases timeout g h = ground arith

some_pair :
    {A B : Type 0}
    → (a c : A) (b d : B) → ◌≡◌ {A = Option (A × B)} (some (a, b)) (some (c, d))
    → (a ≡ c) × (b ≡ d)
some_pair a c b d e = (ground arith, ground arith)

regroup :
    (event : Event) (seen : List Event) (early : List Element)
    → (early ++ elements_of (event ∷ [])) ++ elements_of seen ≡ early ++ elements_of (event ∷ seen)
regroup event seen early =
    append_assoc early (elements_of (event ∷ [])) (elements_of seen)
    ∙ ap (λ es. early ++ es) (sym (elements_of-append (event ∷ []) seen))

loop-Holds :
    (keys : List Bytes) (events : List Event) (early : List Element) (g final : Gathering)
    (late : List Event)
    → Holds keys early g
    → loop events g ≡ some (final, late)
    → (seen : List Event) × (events ≡ seen ++ late)
      × Holds keys (early ++ elements_of seen) final
      × ((final.remaining_keys ≡ []) ⊎ (final.waiting ≡ 0))
unfolding loop
loop-Holds keys [] early g final late i h = cc
loop-Holds keys (event ∷ events) early g final late i h =
    let next = step event g in
    let now = step-Holds keys early event g i in
    elim (Bool-cases (breaks event next)) [
      | inl b ↦
          let (p, q) = some_pair next final events late (rw b at h) in
          (
            event ∷ [],
            ap (λ l. event ∷ l) q,
            subst (Holds keys (early ++ elements_of (event ∷ []))) p now,
            subst (λ f. (f.remaining_keys ≡ []) ⊎ (f.waiting ≡ 0)) p (break_cases event next b),
          )
      | inr b ↦
          let (seen, e, j, d) =
            loop-Holds keys events (early ++ elements_of (event ∷ [])) next final late now
              (rw b at h) in
          (
            event ∷ seen,
            ap (λ l. event ∷ l) e,
            subst (λ es. Holds keys es final) (regroup event seen early) j,
            d,
          )
    ]

begin-Holds :
    (permitted : Bool) (i : ℕ) (patient : Bool) (keys : List Bytes) (clusters : List ℕ)
    → Holds keys [] (begin_read permitted i patient keys clusters)
unfolding gather
begin-Holds permitted i patient keys clusters = record {
  gathered = refl;
  remain = λ k. ground (arith, has-make_set Bytes-discrete k keys);
}

-- When the loop of SendVarReadFirstLinger breaks, its responses are those of the elements that
-- arrived, the remaining keys are exactly the keys asked for that none of these elements
-- answered, and either no key remains or every cluster is done; whether it started with one
-- cluster or all, and whether the timeout came or not.
pub linger_gathers :
    (permitted : Bool) (i : ℕ) (patient : Bool) (keys : List Bytes) (clusters : List ℕ)
    (events late : List Event) (g : Gathering)
    → loop events (begin_read permitted i patient keys clusters) ≡ some (g, late)
    → (seen : List Event) × (events ≡ seen ++ late)
      × (g.responses ≡ gather (elements_of seen) [])
      × ((k : Bytes)
          → has Bytes-discrete k g.remaining_keys ≡ (
              if has Bytes-discrete k keys
              then is_empty (answers_of k (elements_of seen))
              else false))
      × ((g.remaining_keys ≡ []) ⊎ (g.waiting ≡ 0))
linger_gathers permitted i patient keys clusters events late g h =
    let (seen, e, j, d) =
      loop-Holds keys events [] (begin_read permitted i patient keys clusters) g late
        (begin-Holds permitted i patient keys clusters) h in
    (seen, e, j.gathered, j.remain, d)

-- How many clusters are done in the events.
abbrev pub dones : List Event → ℕ
dones [] = 0
dones (element e ∷ events) = dones events
dones (cluster_done ∷ events) = dones events + 1
dones (timeout ∷ events) = dones events

-- The loop breaks in every sequence of events in which the clusters that are waited for are done.
pub loop_breaks :
    (events : List Event) (g : Gathering)
    → 0 < g.waiting
    → g.waiting ≤ dones events
    → (r : Gathering × List Event) × (loop events g ≡ some r)
unfolding loop
loop_breaks [] g p h = absurd (omega arith)
loop_breaks (event ∷ events) g p h =
    let next = step event g in
    elim (Bool-cases (breaks event next)) [
      | inl b ↦ ((next, events), rw b refl)
      | inr b ↦ rw b (
          loop_breaks events next (goes_on event events g p h b).0 (goes_on event events g p h b).1)
    ]
  where
    goes_on :
        (event : Event) (events : List Event) (g : Gathering)
        → 0 < g.waiting
        → g.waiting ≤ dones (event ∷ events)
        → breaks event (step event g) ≡ false
        → (0 < (step event g).waiting) × ((step event g).waiting ≤ dones events)
    goes_on (element e) events g p h b = ground arith
    goes_on cluster_done events g p h b = ground arith
    goes_on timeout events g p h b = ground arith

-- ===== src/Counter/Schedule.antt =====
-- The interleaving that the replicas of Go_RDL/Library/server.go perform together: do_actions at each
-- replica, ordered by the logical time that they share in Redis.
use er_pi_middleware25_artif.Base.{
  ℕ, ◌+◌, ◌≤◌, ◌≡◌, ◌≢◌, ◌⊎◌, inl, inr, refl, sym, ap, ◌∙◌, subst, List, [], ◌∷◌, ◌++◌, ite,
  ℕ_discrete, arith, All, Bool-cases, true, false, if◌then◌else◌,
}
use er_pi_middleware25_artif.Common.{Bytes}
use er_pi_middleware25_artif.Farm.Sets.{has}
use er_pi_middleware25_artif.Counter.{inc_name, dec_name}
use er_pi_middleware25_artif.Counter.Actions.{broadcast_name}
use mathlib.Core.List.{append_assoc, filter}

-- What do_actions looks at in an action: its operation, the replica that performs it, and its time.
pub record Item : Type 0 where
  pub operation : Bytes
  pub replica : ℕ
  pub time : ℕ

-- The operations that do not panic: every other one is taken for a delay, whose length is never a number.
abbrev pub IsWork : Bytes → Type 0
IsWork op = (op ≡ inc_name) ⊎ ((op ≡ dec_name) ⊎ (op ≡ broadcast_name))

-- `clock` is the shared attribute, `pending` what each replica has still to look at of its own
-- actions, and `performed` the actions whose work was done, in order.
pub record State : Type 0 where
  pub clock : ℕ
  pub pending : ℕ → List Item
  pub performed : List Item

abbrev pub own : ℕ → List Item → List Item
own i = filter (λ a. ℕ_discrete a.replica i)

-- The attribute starts at 1, and each of the replicas that run reads all actions.
abbrev pub start : List ℕ → List Item → State
start replicas actions = record {
  clock = 1;
  pending = λ i. if has ℕ_discrete i replicas then own i actions else [];
  performed = [];
}

abbrev pub update : (ℕ → List Item) → ℕ → List Item → ℕ → List Item
update pending i rest j = ite (ℕ_discrete i j) rest (pending j)

-- The replica saw its time, got the lock, did its work, and set the attribute to the next time.
abbrev pub perform : ℕ → Item → List Item → State → State
perform i a rest s = record {
  clock = s.clock + 1;
  pending = update s.pending i rest;
  performed = s.performed ++ a ∷ [];
}

-- It saw its time and did not get the lock: it goes on to its next action.
abbrev pub skip : ℕ → List Item → State → State
skip i rest s = record s { pending = update s.pending i rest }

-- It saw its time, got the lock and panicked: it performs nothing more, and the attribute stays.
abbrev pub die : ℕ → State → State
die i s = record s { pending = update s.pending i [] }

pub data Run (replicas : List ℕ) (actions : List Item) : State → Type 0 where
  starts : Run replicas actions (start replicas actions)
  performs :
      {s : State} (i : ℕ) (a : Item) (rest : List Item)
      → s.pending i ≡ a ∷ rest
      → s.clock ≡ a.time
      → IsWork a.operation
      → Run replicas actions s
      → Run replicas actions (perform i a rest s)
  dies :
      {s : State} (i : ℕ) (a : Item) (rest : List Item)
      → s.pending i ≡ a ∷ rest
      → s.clock ≡ a.time
      → ¬ IsWork a.operation
      → Run replicas actions s
      → Run replicas actions (die i s)

-- The times of the actions are consecutive.
abbrev pub Timed : ℕ → List Item → Type 0
Timed t [] = Unit
Timed t (a ∷ actions) = (a.time ≡ t) × Timed (t + 1) actions

-- Every action is work, and is that of a replica that runs.
abbrev pub CanBeDone : List ℕ → List Item → Type 0
CanBeDone replicas = All (λ a. IsWork a.operation × (has ℕ_discrete a.replica replicas ≡ true))

-- The actions are those performed and those to do, which the replicas have before them, less those that do not
-- run or that have panicked.
pub record IsOnTime (replicas : List ℕ) (actions : List Item) (s : State) : Type 0 where
  pub todo : List Item
  pub splits : s.performed ++ todo ≡ actions
  pub timed : Timed s.clock todo
  pub waits : (i : ℕ) → (s.pending i ≡ own i todo) ⊎ (s.pending i ≡ [])
  pub alive :
      CanBeDone replicas actions → CanBeDone replicas todo × ((i : ℕ) → s.pending i ≡ own i todo)

own_here : (i : ℕ) (b : Item) (todo : List Item) → b.replica ≡ i → own i (b ∷ todo) ≡ b ∷ own i todo
own_here i b todo e = ground arith

own_elsewhere :
    (i : ℕ) (b : Item) (todo : List Item) → b.replica ≢ i → own i (b ∷ todo) ≡ own i todo
own_elsewhere i b todo n = ground arith

heads : {a b : Item} {xs ys : List Item} → a ∷ xs ≡ b ∷ ys → (a ≡ b) × (xs ≡ ys)
heads e = (cc, cc)

-- No action in a timed list has an earlier time.
own_later :
    (t i : ℕ) (todo : List Item) (a : Item) (rest : List Item)
    → Timed t todo
    → own i todo ≡ a ∷ rest
    → t ≤ a.time
own_later t i [] a rest h e = cc
own_later t i (b ∷ todo) a rest h e = elim (ℕ_discrete b.replica i) [
  | yes p ↦
      let (q, r) = heads (sym (own_here i b todo p) ∙ e) in omega (arith, ap (λ x. x.time) q, h.0)
  | no n ↦
      let l = own_later (t + 1) i todo a rest h.1 (sym (own_elsewhere i b todo n) ∙ e) in
      omega (arith, l)
]

-- The action of a replica whose time has come is the first of all that are to do.
own_now :
    (t i : ℕ) (todo : List Item) (a : Item) (rest : List Item)
    → Timed t todo
    → own i todo ≡ a ∷ rest
    → a.time ≡ t
    → (later : List Item) × (todo ≡ a ∷ later) × (own i later ≡ rest) × (a.replica ≡ i)
own_now t i [] a rest h e u = cc
own_now t i (b ∷ todo) a rest h e u = elim (ℕ_discrete b.replica i) [
  | yes p ↦
      let (q, r) = heads (sym (own_here i b todo p) ∙ e) in
      (todo, ap (λ x. x ∷ todo) q, r, sym (ap (λ x. x.replica) q) ∙ p)
  | no n ↦
      let l = own_later (t + 1) i todo a rest h.1 (sym (own_elsewhere i b todo n) ∙ e) in
      absurd (omega (arith, l))
]

update_lem :
    (pending : ℕ → List Item) (i : ℕ) (a : Item) (rest later : List Item)
    → ((j : ℕ) → pending j ≡ own j (a ∷ later))
    → own i later ≡ rest
    → a.replica ≡ i
    → (j : ℕ) → update pending i rest j ≡ own j later
update_lem pending i a rest later w e r j = elim (ℕ_discrete i j) [
  | yes p ↦ ground (arith, subst (λ k. own k later ≡ rest) p e)
  | no n ↦ ground (arith, w j, own_elsewhere j a later)
]

updated :
    (pending : ℕ → List Item) (i : ℕ) (a : Item) (rest later : List Item)
    → ((j : ℕ) → (pending j ≡ own j (a ∷ later)) ⊎ (pending j ≡ []))
    → own i later ≡ rest
    → a.replica ≡ i
    → (j : ℕ) → (update pending i rest j ≡ own j later) ⊎ (update pending i rest j ≡ [])
updated pending i a rest later w e r j = elim (ℕ_discrete i j) [
  | yes p ↦ inl (ground (arith, subst (λ k. own k later ≡ rest) p e))
  | no n ↦ elim (w j) [
    | inl q ↦ inl (ground (arith, own_elsewhere j a later))
    | inr q ↦ inr (ground arith)
  ]
]

emptied :
    (pending : ℕ → List Item) (i : ℕ) (todo : List Item)
    → ((j : ℕ) → (pending j ≡ own j todo) ⊎ (pending j ≡ []))
    → (j : ℕ) → (update pending i [] j ≡ own j todo) ⊎ (update pending i [] j ≡ [])
emptied pending i todo w j = elim (ℕ_discrete i j) [
  | yes p ↦ inr (ground arith)
  | no n ↦ elim (w j) [ inl q ↦ inl (ground arith) | inr q ↦ inr (ground arith) ]
]

-- A replica that has an action before it has what is to do of its own.
has_own :
    (p todo : List Item) (i : ℕ) (a : Item) (rest : List Item)
    → p ≡ a ∷ rest
    → (p ≡ own i todo) ⊎ (p ≡ [])
    → own i todo ≡ a ∷ rest
has_own p todo i a rest e (inl q) = sym q ∙ e
has_own p todo i a rest e (inr q) = absurd (let f = sym q ∙ e in cc)

-- A replica that does not run has no action.
own_none :
    (replicas : List ℕ) (i : ℕ) (actions : List Item)
    → has ℕ_discrete i replicas ≡ false
    → CanBeDone replicas actions
    → own i actions ≡ []
own_none replicas i [] h a = refl
own_none replicas i (b ∷ actions) h a = elim (ℕ_discrete b.replica i) [
  | yes p ↦ absurd (let q = subst (λ j. has ℕ_discrete j replicas ≡ true) p (a.0).1 in ground arith)
  | no n ↦ own_elsewhere i b actions n ∙ own_none replicas i actions h a.1
]

started :
    (replicas : List ℕ) (actions : List Item) (i : ℕ)
    → ((start replicas actions).pending i ≡ own i actions)
      ⊎ ((start replicas actions).pending i ≡ [])
started replicas actions i = elim (Bool-cases (has ℕ_discrete i replicas)) [
  | inl h ↦ inl (rw (h) refl)
  | inr h ↦ inr (rw (h) refl)
]

all_started :
    (replicas : List ℕ) (actions : List Item)
    → CanBeDone replicas actions
    → (i : ℕ) → (start replicas actions).pending i ≡ own i actions
all_started replicas actions d i = elim (Bool-cases (has ℕ_discrete i replicas)) [
  | inl h ↦ rw (h) refl
  | inr h ↦ rw (h) (sym (own_none replicas i actions h d))
]

Run-IsOnTime :
    (replicas : List ℕ) (actions : List Item)
    → Timed 1 actions
    → (s : State) → Run replicas actions s
    → IsOnTime replicas actions s
Run-IsOnTime replicas actions h _ starts = record {
  todo = actions;
  splits = refl;
  timed = h;
  waits = started replicas actions;
  alive = λ d. (d, all_started replicas actions d);
}
Run-IsOnTime replicas actions h _ (performs {s = s} i a rest p c w run) =
    let t = Run-IsOnTime replicas actions h s run in
    let (later, e, o, r) =
      own_now s.clock i t.todo a rest t.timed (has_own _ t.todo i a rest p (t.waits i)) (sym c) in
    record {
      todo = later;
      splits = append_assoc s.performed (a ∷ []) later ∙ rw (← e) t.splits;
      timed = (subst (Timed s.clock) e t.timed).1;
      waits =
          updated s.pending i a rest later
            (λ j. subst (λ l. (s.pending j ≡ own j l) ⊎ (s.pending j ≡ [])) e (t.waits j)) o r;
      alive = λ d.
          let (done, own_todo) = t.alive d in
          (
            (subst (CanBeDone replicas) e done).1,
            update_lem s.pending i a rest later (λ j. own_todo j ∙ ap (own j) e) o r,
          );
    }
Run-IsOnTime replicas actions h _ (dies {s = s} i a rest p c w run) =
    let t = Run-IsOnTime replicas actions h s run in
    let (later, e, o, r) =
      own_now s.clock i t.todo a rest t.timed (has_own _ t.todo i a rest p (t.waits i)) (sym c) in
    record {
      todo = t.todo;
      splits = t.splits;
      timed = t.timed;
      waits = emptied s.pending i t.todo t.waits;
      alive = λ d. absurd (w ((subst (CanBeDone replicas) e (t.alive d).0).0).0);
    }

-- A replica can perform an action.
abbrev pub CanPerform : State → Type 0
CanPerform s =
    (i : ℕ) × (a : Item) × (rest : List Item) × (s.pending i ≡ a ∷ rest)
    × (s.clock ≡ a.time)
    × IsWork a.operation

-- An action that is skipped because its lock was not acquired is lost, and the time stays at it:
-- from then on no replica ever sees its time, and the interleaving stops.
pub skip_stops :
    (replicas : List ℕ) (actions : List Item)
    → Timed 1 actions
    → (s : State) → Run replicas actions s
    → (i : ℕ) (a : Item) (rest : List Item) → s.pending i ≡ a ∷ rest
    → s.clock ≡ a.time
    → (j : ℕ) (b : Item) (more : List Item) → (skip i rest s).pending j ≡ b ∷ more
    → (skip i rest s).clock ≢ b.time
skip_stops replicas actions h s run i a rest p c j b more e u =
    let t = Run-IsOnTime replicas actions h s run in
    let (later, q, o, r) =
      own_now s.clock i t.todo a rest t.timed (has_own _ t.todo i a rest p (t.waits i)) (sym c) in
    let w =
      updated s.pending i a rest later
        (λ k. subst (λ l. (s.pending k ≡ own k l) ⊎ (s.pending k ≡ [])) q (t.waits k)) o r in
    let l =
      own_later (s.clock + 1) j later b more (subst (Timed s.clock) q t.timed).1
        (has_own _ later j b more e (w j)) in
    absurd (omega (arith, l, u))

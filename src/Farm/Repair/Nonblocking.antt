-- ===== src/Farm/Repair/Nonblocking.antt =====
-- Nonblocking of roshi/farm/repair_strategies.go: a buffered channel, the callers that send on it
-- without blocking, and the goroutine that receives from it, in any interleaving.
use mathlib.Core.List.{append_assoc, append-nil, map-append}
use er_pi_middleware25_artif.Base.{
  ℕ, zero, suc, ◌≤◌, ◌≡◌, refl, sym, ap, ◌∙◌, List, [], ◌∷◌, ◌++◌, map, Bool, true, false, ltb,
  Bool-cases, inl, inr, ◌⊎◌, ltb→lt, if◌then◌else◌, length, length-append, arith, subst,
}
use er_pi_middleware25_artif.Common.{KeyMember}

abbrev pub Request : Type 0
Request = List KeyMember

-- `waiting` if the goroutine is blocked at the channel. `repaired` are the requests that it received
-- and hands to the repair strategy, and `discarded` the counts reported to the instrumentation.
pub record State : Type 0 where
  pub waiting : Bool
  pub buffer : List Request
  pub repaired : List Request
  pub discarded : List ℕ

abbrev pub initial : State
initial = record { waiting = false; buffer = []; repaired = []; discarded = [] }

-- The history is an interleaving of what is accepted and what is dropped.
pub data Split : List Request → List Request → List Request → Type 0 where
  none : Split [] [] []
  accepts :
      {history accepted dropped : List Request} (kms : Request)
      → Split history accepted dropped
      → Split (history ++ kms ∷ []) (accepted ++ kms ∷ []) dropped
  drops :
      {history accepted dropped : List Request} (kms : Request)
      → Split history accepted dropped
      → Split (history ++ kms ∷ []) accepted (dropped ++ kms ∷ [])

module _ (buffer_size : ℕ) where
  -- select { case c <- kms: default: RepairDiscarded }: a goroutine that waits takes the request; else
  -- it is buffered if there is room.
  unfoldable pub request : Request → State → State
  request kms s =
      if s.waiting
      then record s { waiting = false; repaired = s.repaired ++ kms ∷ [] }
      else if ltb (length s.buffer) buffer_size
      then record s { buffer = s.buffer ++ kms ∷ [] }
      else record s { discarded = s.discarded ++ length kms ∷ [] }

  -- The goroutine comes to the channel: it takes the oldest request, or waits for one.
  unfoldable pub next : State → State
  next s = elim s.buffer [
    | [] ↦ record s { waiting = true }
    | kms ∷ rest ↦ record s { buffer = rest; repaired = s.repaired ++ kms ∷ [] }
  ]

  -- What callers and the goroutine do, one after the other; the requests made so far.
  pub data Run : List Request → State → Type 0 where
    starts : Run [] initial
    requests :
        {history : List Request} {s : State} (kms : Request)
        → Run history s
        → Run (history ++ kms ∷ []) (request kms s)
    receives :
        {history : List Request} {s : State}
        → s.waiting ≡ false
        → Run history s
        → Run history (next s)

  -- The buffer is within its size, and empty while the goroutine waits; the requests accepted are
  -- those repaired and then those buffered, and the others are counted with all their elements.
  pub record IsConserved (history : List Request) (s : State) : Type 0 where
    pub bounded : length s.buffer ≤ buffer_size
    pub idle : s.waiting ≡ true → s.buffer ≡ []
    pub dropped : List Request
    pub splits : Split history (s.repaired ++ s.buffer) dropped
    pub counted : s.discarded ≡ map length dropped

  handed :
      (kms : Request) (s : State)
      → s.waiting ≡ true
      → request kms s ≡ record s { waiting = false; repaired = s.repaired ++ kms ∷ [] }
  unfolding request
  handed kms s w = ground arith

  buffered :
      (kms : Request) (s : State)
      → s.waiting ≡ false
      → ltb (length s.buffer) buffer_size ≡ true
      → request kms s ≡ record s { buffer = s.buffer ++ kms ∷ [] }
  unfolding request
  buffered kms s w room = ground arith

  dropped_lem :
      (kms : Request) (s : State)
      → s.waiting ≡ false
      → ltb (length s.buffer) buffer_size ≡ false
      → request kms s ≡ record s { discarded = s.discarded ++ length kms ∷ [] }
  unfolding request
  dropped_lem kms s w full = ground arith

  request-IsConserved :
      (history : List Request) (s : State) (kms : Request)
      → IsConserved history s
      → IsConserved (history ++ kms ∷ []) (request kms s)
  request-IsConserved history s kms i = elim (Bool-cases s.waiting) [
    | inl w ↦ rw (handed kms s w) (record {
      bounded = i.bounded;
      idle = λ e. cc;
      dropped = i.dropped;
      splits =
          let e = i.idle w in
          rw (e, append-nil)
            (accepts kms
              (subst (λ a. Split history a i.dropped) (rw (e) (append-nil s.repaired)) i.splits));
      counted = i.counted;
    })
    | inr w ↦ elim (Bool-cases (ltb (length s.buffer) buffer_size)) [
      | inl room ↦ rw (buffered kms s w room) (record {
        bounded = omega (arith, ltb→lt _ _ room, length-append s.buffer (kms ∷ []));
        idle = λ e. cc;
        dropped = i.dropped;
        splits = rw (← append_assoc s.repaired s.buffer (kms ∷ [])) (accepts kms i.splits);
        counted = i.counted;
      })
      | inr full ↦ rw (dropped_lem kms s w full) (record {
        bounded = i.bounded;
        idle = i.idle;
        dropped = i.dropped ++ kms ∷ [];
        splits = drops kms i.splits;
        counted = rw (i.counted) (sym (map-append length i.dropped (kms ∷ [])));
      })
    ]
  ]

  next_cases :
      (s : State)
      → ((s.buffer ≡ []) × (next s ≡ record s { waiting = true }))
        ⊎ ((kms : Request) × (rest : List Request) × (s.buffer ≡ kms ∷ rest)
            × (next s ≡ record s { buffer = rest; repaired = s.repaired ++ kms ∷ [] }))
  unfolding next
  next_cases s = go s.buffer refl
    where
      go :
          (b : List Request)
          → s.buffer ≡ b
          → ((s.buffer ≡ []) × (next s ≡ record s { waiting = true }))
            ⊎ ((kms : Request) × (rest : List Request) × (s.buffer ≡ kms ∷ rest)
                × (next s ≡ record s { buffer = rest; repaired = s.repaired ++ kms ∷ [] }))
      go [] e = inl (e, ground arith)
      go (kms ∷ rest) e = inr (kms, rest, e, ground arith)

  next-IsConserved :
      (history : List Request) (s : State)
      → s.waiting ≡ false
      → IsConserved history s
      → IsConserved history (next s)
  next-IsConserved history s w i = elim (next_cases s) [
    | inl (e, n) ↦ rw (n) (record {
      bounded = i.bounded;
      idle = λ _. e;
      dropped = i.dropped;
      splits = i.splits;
      counted = i.counted;
    })
    | inr (kms, rest, e, n) ↦ rw (n) (record {
      bounded = omega (arith, i.bounded, ap length e);
      idle = λ t. cc;
      dropped = i.dropped;
      splits =
          rw (append_assoc s.repaired (kms ∷ []) rest)
            (subst (λ b. Split history (s.repaired ++ b) i.dropped) e i.splits);
      counted = i.counted;
    })
  ]

  -- Whatever callers and goroutine do, the buffer never holds more than its size, and no request is
  -- lost, repeated or overtaken: the repaired ones and then the buffered ones are the requests in
  -- the order they were made, less some of which each is reported with the number of its elements.
  pub Run-IsConserved : (history : List Request) (s : State) → Run history s → IsConserved history s
  Run-IsConserved _ _ starts = record {
    bounded = omega arith;
    idle = λ _. refl;
    dropped = [];
    splits = none;
    counted = refl;
  }
  Run-IsConserved _ _ (requests {history = h} {s = s} kms r) =
      request-IsConserved h s kms (Run-IsConserved h s r)
  Run-IsConserved _ _ (receives {history = h} {s = s} w r) =
      next-IsConserved h s w (Run-IsConserved h s r)

  -- The goroutine comes to the channel `n` times, and no caller does.
  abbrev pub drain : ℕ → State → State
  drain zero s = s
  drain (suc n) s = drain n (next s)

  next_cons :
      (kms : Request) (b : List Request) (s : State)
      → s.buffer ≡ kms ∷ b
      → next s ≡ record s { buffer = b; repaired = s.repaired ++ kms ∷ [] }
  unfolding next
  next_cons kms b s e = ground arith

  drain_buffer :
      (b : List Request) (s : State)
      → s.buffer ≡ b
      → ((drain (length b) s).buffer ≡ []) × ((drain (length b) s).repaired ≡ s.repaired ++ b)
  drain_buffer [] s e = (e, sym (append-nil s.repaired))
  drain_buffer (kms ∷ b) s e =
      let (f, p) =
        drain_buffer b (record s { buffer = b; repaired = s.repaired ++ kms ∷ [] }) refl in
      rw (next_cons kms b s e, drain) (f, p ∙ append_assoc s.repaired (kms ∷ []) b)

  -- Every request that was accepted is repaired once the goroutine has come to the channel as
  -- often as there are requests in the buffer.
  pub drain_lem :
      (history : List Request) (s : State)
      → Run history s
      → let t = drain (length s.buffer) s in
        (t.buffer ≡ []) × (dropped : List Request) × Split history t.repaired dropped
  drain_lem history s r =
      let (e, p) = drain_buffer s.buffer s refl in
      let i = Run-IsConserved history s r in
      (e, i.dropped, subst (λ a. Split history a i.dropped) (sym p) i.splits)

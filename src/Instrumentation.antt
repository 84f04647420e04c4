-- ===== src/Instrumentation.antt =====
-- roshi/instrumentation: what the farm and the walker report, and the targets that the reports go to.
pub mod Statsd
pub mod Prometheus
pub mod Plaintext
pub mod Lossless
use er_pi_middleware25_artif.Base.{ℕ, suc, ◌≡◌, refl, sym, ap, ◌∙◌, List, [], ◌∷◌, length, arith}

-- The methods of the interface Instrumentation. A duration is in nanoseconds.
pub data Report : Type 0 where
  insert_call : Report
  insert_record_count : ℕ → Report
  insert_call_duration : ℕ → Report
  insert_record_duration : ℕ → Report
  insert_quorum_failure : Report
  select_call : Report
  select_keys : ℕ → Report
  select_send_to : ℕ → Report
  select_first_response_duration : ℕ → Report
  select_partial_error : Report
  select_blocking_duration : ℕ → Report
  select_overhead_duration : ℕ → Report
  select_duration : ℕ → Report
  select_send_all_permit_granted : Report
  select_send_all_permit_rejected : Report
  select_send_all_promotion : Report
  select_retrieved : ℕ → Report
  select_returned : ℕ → Report
  select_repair_needed : ℕ → Report
  delete_call : Report
  delete_record_count : ℕ → Report
  delete_call_duration : ℕ → Report
  delete_record_duration : ℕ → Report
  delete_quorum_failure : Report
  repair_call : Report
  repair_request : ℕ → Report
  repair_discarded : ℕ → Report
  repair_write_success : ℕ → Report
  repair_write_failure : ℕ → Report
  walk_keys : ℕ → Report

-- An implementation of the interface, with the state of its target.
abbrev pub Instrumentation : Type 0 → Type 0
Instrumentation State = Report → State → State

-- NopInstrumentation
unfoldable pub nop : {S : Type 0} → Instrumentation S
nop r s = s

-- MultiInstrumentation: the targets in order, each with its state.
unfoldable pub multi : {S : Type 0} → List (Instrumentation S) → Report → List S → List S
multi [] r states = []
multi (i ∷ instrs) r [] = []
multi (i ∷ instrs) r (s ∷ states) = i r s ∷ multi instrs r states

-- The calls of an implementation one after the other.
abbrev pub all_reports : {S : Type 0} → Instrumentation S → List Report → S → S
all_reports i [] s = s
all_reports i (r ∷ reports) s = all_reports i reports (i r s)

-- Each target with the state that it comes to by itself.
abbrev pub each_alone : {S : Type 0} → List (Instrumentation S) → List Report → List S → List S
each_alone [] reports states = []
each_alone (i ∷ instrs) reports [] = []
each_alone (i ∷ instrs) reports (s ∷ states) =
    all_reports i reports s ∷ each_alone instrs reports states

multi-each_alone :
    {S : Type 0} (instrs : List (Instrumentation S)) (r : Report) (reports : List Report)
    (states : List S)
    → each_alone instrs reports (multi instrs r states) ≡ each_alone instrs (r ∷ reports) states
unfolding multi
multi-each_alone [] r reports states = refl
multi-each_alone (i ∷ instrs) r reports [] = refl
multi-each_alone (i ∷ instrs) r reports (s ∷ states) =
    ap (λ rest. all_reports i reports (i r s) ∷ rest) (multi-each_alone instrs r reports states)

each_alone-none :
    {S : Type 0} (instrs : List (Instrumentation S)) (states : List S)
    → length instrs ≡ length states
    → each_alone instrs [] states ≡ states
each_alone-none [] [] h = refl
each_alone-none [] (s ∷ states) h = absurd (omega arith)
each_alone-none (i ∷ instrs) [] h = refl
each_alone-none (i ∷ instrs) (s ∷ states) h =
    ap (λ rest. s ∷ rest) (each_alone-none instrs states (omega arith))

length-multi :
    {S : Type 0} (instrs : List (Instrumentation S)) (r : Report) (states : List S)
    → length instrs ≡ length states
    → length instrs ≡ length (multi instrs r states)
unfolding multi
length-multi [] r states h = refl
length-multi (i ∷ instrs) r [] h = absurd (omega arith)
length-multi (i ∷ instrs) r (s ∷ states) h = ap suc (length-multi instrs r states (omega arith))

-- Through MultiInstrumentation each target gets every report once and in order: it ends in the
-- state to which the same reports bring it when it is the only one.
pub all_reports-multi :
    {S : Type 0} (instrs : List (Instrumentation S)) (reports : List Report) (states : List S)
    → length instrs ≡ length states
    → all_reports (multi instrs) reports states ≡ each_alone instrs reports states
all_reports-multi instrs [] states h = sym (each_alone-none instrs states h)
all_reports-multi instrs (r ∷ reports) states h =
    all_reports-multi instrs reports (multi instrs r states) (length-multi instrs r states h)
    ∙ multi-each_alone instrs r reports states

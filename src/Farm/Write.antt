-- ===== src/Farm/Write.antt =====
-- write of roshi/farm/farm.go, which Insert and Delete call: scatter to all clusters and gather
-- until the write quorum is met.
use mathlib.Core.List.{append_assoc, append-nil}
use er_pi_middleware25_artif.Base.{
  ℕ, zero, suc, ◌+◌, ◌-◌, ◌≤◌, ◌<◌, ◌≡◌, refl, sym, ap, ◌∙◌, ltb, ltb→lt, Bool-cases, inl, inr, ◌↔◌,
  List, [], ◌∷◌, ◌++◌, Option, none, some, Bool, true, false, leb, if◌then◌else◌, length,
  length-append, arith,
}
use er_pi_middleware25_artif.Common.{KeyScoreMember}
use er_pi_middleware25_artif.Cluster.Conn.{Error}

-- What the write reports to the instrumentation; durations without their values.
pub data Event : Type 0 where
  called call_duration record_duration quorum_failure : Event
  record_count : ℕ → Event

pub record Tally : Type 0 where
  pub errors : List Error
  pub got : ℕ

-- haveQuorum; there are never more errors than answers.
abbrev pub have_quorum : ℕ → Tally → Bool
have_quorum need t = leb need (t.got - length t.errors)

abbrev pub count_answer : Option Error → Tally → Tally
count_answer none t = record t { got = t.got + 1 }
count_answer (some e) t = record { errors = t.errors ++ e ∷ []; got = t.got + 1 }

-- The gather loop, over the answers in the order in which they arrive.
unfoldable pub gather_quorum : ℕ → List (Option Error) → Tally → Tally
gather_quorum need [] t = t
gather_quorum need (a ∷ rest) t =
    let t' = count_answer a t in
    let more = gather_quorum need rest t' in if have_quorum need t' then t' else more

-- strings.Join(errors, "; ")
abbrev pub join : List Error → Error
join [] = []
join (e ∷ []) = e
join (e ∷ f ∷ es) = let rest = join (f ∷ es) in e ++ b';' ∷ b' ' ∷ rest

abbrev pub no_quorum : List Error → Error
no_quorum errors =
    b'n'
    ∷ b'o'
    ∷ b' '
    ∷ b'q'
    ∷ b'u'
    ∷ b'o'
    ∷ b'r'
    ∷ b'u'
    ∷ b'm'
    ∷ b' '
    ∷ b'('
    ∷ (join errors ++ b')' ∷ [])

pub record Written : Type 0 where
  pub error : Option Error
  pub events : List Event

abbrev pub report : ℕ → ℕ → Tally → Written
report need n t =
    if have_quorum need t
    then record {
      error = none;
      events = called ∷ record_count n ∷ call_duration ∷ record_duration ∷ [];
    }
    else record {
      error = some (no_quorum t.errors);
      events = called ∷ record_count n ∷ quorum_failure ∷ call_duration ∷ record_duration ∷ [];
    }

-- The write of some tuples, given the answers of the clusters in the order of their arrival.
unfoldable pub write : ℕ → List KeyScoreMember → List (Option Error) → Written
unfolding gather_quorum
write need [] answers = record { error = none; events = [] }
write need (t ∷ ts) answers =
    report need (length (t ∷ ts)) (gather_quorum need answers (record { errors = []; got = 0 }))

-- How many clusters succeeded.
abbrev pub successes : List (Option Error) → ℕ
successes [] = 0
successes (none ∷ rest) = suc (successes rest)
successes (some e ∷ rest) = successes rest

-- From a tally without a quorum, the loop finds one exactly if enough answers to come succeed.
gather_quorum_iff :
    (need : ℕ) (answers : List (Option Error)) (t : Tally)
    → length t.errors ≤ t.got
    → have_quorum need t ≡ false
    → (need ≤ (t.got - length t.errors) + successes answers
        → have_quorum need (gather_quorum need answers t) ≡ true)
      × (have_quorum need (gather_quorum need answers t) ≡ true
          → need ≤ (t.got - length t.errors) + successes answers)
unfolding gather_quorum
gather_quorum_iff need [] t h q = ground arith
gather_quorum_iff need (none ∷ rest) t h q =
    ground (arith, gather_quorum_iff need rest (count_answer none t))
gather_quorum_iff need (some e ∷ rest) t h q =
    ground (
      arith,
      gather_quorum_iff need rest (count_answer (some e) t),
      length-append t.errors (e ∷ []),
    )

-- The errors of the answers, in their order.
abbrev pub errors_of : List (Option Error) → List Error
errors_of [] = []
errors_of (none ∷ rest) = errors_of rest
errors_of (some e ∷ rest) = e ∷ errors_of rest

-- Without a quorum the loop gathers all errors.
gather_quorum_errors :
    (need : ℕ) (answers : List (Option Error)) (t : Tally)
    → have_quorum need (gather_quorum need answers t) ≡ false
    → (gather_quorum need answers t).errors ≡ t.errors ++ errors_of answers
unfolding gather_quorum
gather_quorum_errors need [] t q = sym (append-nil t.errors)
gather_quorum_errors need (none ∷ rest) t q =
    ground (arith, gather_quorum_errors need rest (count_answer none t))
gather_quorum_errors need (some e ∷ rest) t q = ground (
  arith,
  gather_quorum_errors need rest (count_answer (some e) t),
  append_assoc t.errors (e ∷ []) (errors_of rest),
)

-- What a write of `n` tuples comes to, with and without a quorum.
abbrev pub written_with_quorum : ℕ → Written
written_with_quorum n = record {
  error = none;
  events = called ∷ record_count n ∷ call_duration ∷ record_duration ∷ [];
}

abbrev pub written_without : ℕ → List Error → Written
written_without n errors = record {
  error = some (no_quorum errors);
  events = called ∷ record_count n ∷ quorum_failure ∷ call_duration ∷ record_duration ∷ [];
}

report-quorum :
    (need n : ℕ) (t : Tally) → have_quorum need t ≡ true → report need n t ≡ written_with_quorum n
report-quorum need n t h = rw (h) refl

report-none :
    (need n : ℕ) (t : Tally) (errors : List Error)
    → have_quorum need t ≡ false
    → t.errors ≡ errors
    → report need n t ≡ written_without n errors
report-none need n t errors h e = rw (h, e) refl

no_need : (t : Tally) → have_quorum 0 t ≡ true
no_need t = ground arith

-- A write of at least one tuple: if at least writeQuorum of the clusters succeed, it succeeds and reports no
-- failure; if fewer do, it returns the errors of all clusters that failed and reports one quorum failure,
-- between the count of the records and the durations.
pub write_quorum_iff :
    (need : ℕ) (t : KeyScoreMember) (ts : List KeyScoreMember) (answers : List (Option Error))
    → (need ≤ successes answers
        → write need (t ∷ ts) answers ≡ written_with_quorum (length (t ∷ ts)))
      × (successes answers < need
          → write need (t ∷ ts) answers ≡ written_without (length (t ∷ ts)) (errors_of answers))
unfolding write
write_quorum_iff zero t ts answers =
    (λ h. report-quorum 0 (length (t ∷ ts)) _ (no_need _), λ h. absurd (omega arith))
write_quorum_iff (suc n) t ts answers =
    let start : Tally = record { errors = []; got = 0 } in
    let end = gather_quorum (suc n) answers start in
    let loop = gather_quorum_iff (suc n) answers start (omega arith) (ground arith) in
    (
      λ h. report-quorum (suc n) (length (t ∷ ts)) end (loop.0 (omega arith)),
      λ h. elim (Bool-cases (have_quorum (suc n) end)) [
        | inl q ↦ absurd (let enough = loop.1 q in omega arith)
        | inr q ↦
            report-none (suc n) (length (t ∷ ts)) end (errors_of answers) q
              (gather_quorum_errors (suc n) answers start q)
      ],
    )

pub write_error_iff :
    (need : ℕ) (t : KeyScoreMember) (ts : List KeyScoreMember) (answers : List (Option Error))
    → ((write need (t ∷ ts) answers).error ≡ none) ↔ (need ≤ successes answers)
write_error_iff need t ts answers =
    let (quorum, none_left) = write_quorum_iff need t ts answers in
    (
      λ e. elim (Bool-cases (ltb (successes answers) need)) [
        | inl few ↦
            let failed =
              sym (ap (λ w. w.error) (none_left (ltb→lt (successes answers) need few))) ∙ e in
            absurd (cc)
        | inr enough ↦ ground arith
      ],
      λ h. ap (λ w. w.error) (quorum h),
    )

-- Without tuples a write succeeds, asks no cluster and reports nothing.
write-nil :
    (need : ℕ) (answers : List (Option Error))
    → write need [] answers ≡ record { error = none; events = [] }
unfolding write
write-nil need answers = refl

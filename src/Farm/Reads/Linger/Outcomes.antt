-- ===== src/Farm/Reads/Linger/Outcomes.antt =====
-- What SendVarReadFirstLinger returns and repairs.
use mathlib.Core.List.{Memᴰ}
use er_pi_middleware25_artif.Base.{
  ℕ, ◌≡◌, refl, ◌↔◌, ap, ◌∙◌, sym, subst, arith, ◌⊎◌, inl, inr, Bool-cases, List, [], ◌∷◌, ◌++◌,
  Option, none, some, Bool, true, false, ◌&&◌, not, lookup,
}
use er_pi_middleware25_artif.Common.{
  Bytes, Bytes-discrete, KeyScoreMember, KeyMember, KeyMember-discrete,
}
use er_pi_middleware25_artif.Cluster.Conn.{Result, ok, err}
use er_pi_middleware25_artif.Farm.Sets.{has, TupleSet}
use er_pi_middleware25_artif.Farm.Union.Agreement.{Has, Lacks, Disputed}
use er_pi_middleware25_artif.Cluster.Select.{Element}
use er_pi_middleware25_artif.Farm.Reads.{
  Response, complete_failure, gather, repairs_of, response_of,
}
use er_pi_middleware25_artif.Farm.Reads.Responses.{
  answers_of, answers_of-append, extended, lookup-gather,
}
use er_pi_middleware25_artif.Farm.Reads.Responses.Repairs.{
  lookup-response_of-gather, gather_repairs,
}
use er_pi_middleware25_artif.Farm.Reads.Responses.Page.{SortsFarm, Answered, sets-Answered}
use er_pi_middleware25_artif.Farm.Reads.Linger.{
  Gathering, Event, is_empty, begin_read, loop, elements_of, Outcome, ended, end_read, read_linger,
}
use er_pi_middleware25_artif.Farm.Reads.Linger.Returns.{
  gather-append, elements_of-append, linger_gathers,
}

-- What is returned reports the elements: no answer at all, or for every key what its answers give.
pub Reports : ℕ → List Element → Result Response → Type 0
Reports limit es response =
    ((response ≡ err complete_failure) × ((k : Bytes) → answers_of k es ≡ []))
    ⊎ ((r : Response) × (response ≡ ok r)
        × ((k : Bytes) → Answered limit k es (lookup Bytes-discrete k r)))

no_answers : (es : List Element) (k : Bytes) → gather es [] ≡ [] → answers_of k es ≡ []
unfolding lookup
no_answers es k e =
    none_left (answers_of k es) (sym (lookup-gather es [] k) ∙ ap (lookup Bytes-discrete k) e)
  where
    none_left : (a : List TupleSet) → extended none a ≡ none → a ≡ []
    none_left [] h = refl
    none_left (s ∷ ss) h = cc

empty_is : {A : Type 0} → (xs : List A) → is_empty xs ≡ true → xs ≡ []
empty_is [] h = refl
empty_is (x ∷ xs) h = cc

end_read-Reports :
    (sort : List KeyScoreMember → List KeyScoreMember) (limit : ℕ) (g : Gathering)
    (late : List Event) (es : List Element)
    → SortsFarm sort
    → g.responses ≡ gather es []
    → Reports limit es (end_read sort limit g late).response
unfolding Reports end_read
end_read-Reports sort limit g late es sorts e =
    elim (Bool-cases (is_empty g.responses && not (is_empty g.remaining_keys))) [
      | inl b ↦ inl (rw b refl, λ k. no_answers es k (sym e ∙ empty_is g.responses (ground arith)))
      | inr b ↦ inr (
        response_of sort limit g.responses,
        ground arith,
        λ k. sets-Answered sort limit k es _ sorts (
            ap (λ m. lookup Bytes-discrete k (response_of sort limit m)) e
            ∙ lookup-response_of-gather sort limit es k),
      )
    ]

some_outcome : (a b : Outcome) → some a ≡ some b → a ≡ b
some_outcome a b e = cc

-- With a sort that keeps what sort.Sort promises, what SendVarReadFirstLinger returns depends on the elements that arrived before the loop broke alone, which
-- are the events less those that the loop leaves. It fails only if none of these elements answered any key;
-- else it returns nothing for a key without an answer, and for any other key the first `limit` tuples of the
-- union of its answers by falling score.
pub read_linger-Reports :
    (sort : List KeyScoreMember → List KeyScoreMember) (limit : ℕ) (permitted : Bool) (i : ℕ)
    (patient : Bool) (keys : List Bytes) (clusters : List ℕ) (events : List Event) (o : Outcome)
    → SortsFarm sort
    → read_linger sort limit (begin_read permitted i patient keys clusters) events ≡ some o
    → (g : Gathering) × (late : List Event) × (loop events
          (begin_read permitted i patient keys clusters)
        ≡ some (g, late))
      × ((seen : List Event) × (events ≡ seen ++ late)
          × Reports limit (elements_of seen) o.response)
unfolding read_linger
read_linger-Reports sort limit permitted i patient keys clusters events o sorts h =
    ended_cases (loop events (begin_read permitted i patient keys clusters)) refl h
  where
    ended_cases :
        (l : Option (Gathering × List Event))
        → loop events (begin_read permitted i patient keys clusters) ≡ l
        → ended sort limit l ≡ some o
        → (g : Gathering) × (late : List Event) × (loop events
              (begin_read permitted i patient keys clusters)
            ≡ some (g, late))
          × ((seen : List Event) × (events ≡ seen ++ late)
              × Reports limit (elements_of seen) o.response)
    ended_cases none e f = cc
    ended_cases (some (g, late)) e f =
        let (seen, s, r, j, d) = linger_gathers permitted i patient keys clusters events late g e in
        let report = end_read-Reports sort limit g late (elements_of seen) sorts r in
        (
          g,
          late,
          e,
          (
            seen,
            s,
            subst (λ b. Reports limit (elements_of seen) b.response) (some_outcome _ o f) report,
          ),
        )

Memᴰ-append : (s : TupleSet) (a b : List TupleSet) → Memᴰ s a → Memᴰ s (a ++ b)
Memᴰ-append s [] b m = elim m [ ]
Memᴰ-append s (x ∷ a) b (Memᴰ.head p) = Memᴰ.head p
Memᴰ-append s (x ∷ a) b (Memᴰ.tail m) = Memᴰ.tail (Memᴰ-append s a b m)

-- More answers leave what is disputed.
Disputed-append : (km : KeyMember) (a b : List TupleSet) → Disputed km a → Disputed km (a ++ b)
unfolding Disputed Has Lacks
Disputed-append km a b (t, q, (s, m, h), (u, n, l)) =
    (t, q, (s, Memᴰ-append s a b m, h), (u, Memᴰ-append u a b n, l))

and_false : (b : Bool) → (b && false) ≡ false
and_false false = refl
and_false true = refl

-- If all clusters were asked and no key remains, the lingering goroutine gives a key-member to the
-- repair strategy exactly when the answers for some key, early or late, disagree on one of its
-- tuples.
pub linger_repairs :
    (sort : List KeyScoreMember → List KeyScoreMember) (limit : ℕ) (permitted : Bool) (i : ℕ)
    (patient : Bool) (keys : List Bytes) (clusters : List ℕ) (events late : List Event)
    (g : Gathering) (km : KeyMember)
    → loop events (begin_read permitted i patient keys clusters) ≡ some (g, late)
    → g.remaining_keys ≡ []
    → g.may_send_all ≡ true
    → (has KeyMember-discrete km (end_read sort limit g late).repairs ≡ true)
      ↔ ((k : Bytes) × Disputed km (answers_of k (elements_of events)))
unfolding end_read has
linger_repairs sort limit permitted i patient keys clusters events late g km h r a =
    let (seen, e, responses, j, d) =
      linger_gathers permitted i patient keys clusters events late g h in
    let all : gather (elements_of late) g.responses ≡ gather (elements_of events) [] =
      ap (gather (elements_of late)) responses
      ∙ sym (gather-append (elements_of seen) (elements_of late) [])
      ∙ ap (λ es. gather es []) (sym (elements_of-append seen late) ∙ ap elements_of (sym e)) in
    let early = gather_repairs (elements_of seen) [] km in
    let whole =
      gather_repairs (elements_of events) (repairs_of (gather (elements_of seen) []) []) km in
    rw (r, a, and_false (is_empty g.responses), all, responses)
      (
        λ h. elim (whole.0 h) [
          | inl f ↦ elim (early.0 f) [
            | inl n ↦ cc
            | inr (k, q) ↦ (
              k,
              subst (Disputed km) (more k seen e) (
                  Disputed-append km (answers_of k (elements_of seen))
                    (answers_of k (elements_of late)) q),
            )
          ]
          | inr q ↦ q
        ],
        λ q. whole.1 (inr q),
      )
  where
    more :
        (k : Bytes) (seen : List Event)
        → events ≡ seen ++ late
        → answers_of k (elements_of seen) ++ answers_of k (elements_of late)
          ≡ answers_of k (elements_of events)
    more k seen e =
        sym (answers_of-append k (elements_of seen) (elements_of late))
        ∙ ap (answers_of k) (sym (elements_of-append seen late) ∙ ap elements_of (sym e))

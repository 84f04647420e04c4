-- ===== src/Farm/Reads/Responses/Repairs.antt =====
-- The responses and the repairs of sendAllReadAll, once all elements have been gathered.
use mathlib.Core.List.{Memᴰ}
use er_pi_middleware25_artif.Base.{
  ℕ, ◌≡◌, refl, ◌↔◌, ap, ◌∙◌, sym, arith, ◌⊎◌, inl, inr, List, [], ◌∷◌, none, some, true, if_pos,
  if_neg, lookup, UniqueKeys, All,
}
use er_pi_middleware25_artif.Common.{
  Bytes, Bytes-discrete, KeyScoreMember, KeyScoreMember-discrete, KeyMember, KeyMember-discrete,
}
use er_pi_middleware25_artif.Farm.Sets.{
  has, has-add_many, add_many, make_set-Distinct, Distinct, TupleSet, KeyMemberSet,
  ordered_limited_slice,
}
use er_pi_middleware25_artif.Farm.Union.{union_difference}
use er_pi_middleware25_artif.Farm.Union.Agreement.{Has, Disputed, difference_lem}
use er_pi_middleware25_artif.Cluster.Select.{Element}
use er_pi_middleware25_artif.Farm.Reads.{Responses, gather, repairs_of, response_of, read_all}
use er_pi_middleware25_artif.Farm.Reads.Responses.{
  answers_of, extended, lookup-gather, map_sets, lookup-response_of, gather-UniqueKeys,
}
use er_pi_middleware25_artif.Farm.Reads.Responses.Page.{SortsFarm, Answered, sets-Answered}

-- A key-member is to be repaired when the sets of some key dispute it.
pub Repaired : Responses → KeyMember → Type 0
Repaired m km =
    (k : Bytes) × (sets : List TupleSet) × (lookup Bytes-discrete k m ≡ some sets)
    × (has KeyMember-discrete km (union_difference sets).1 ≡ true)

pub has-repairs_of :
    (m : Responses) (d : KeyMemberSet) (km : KeyMember)
    → UniqueKeys Bytes-discrete m
    → (has KeyMember-discrete km (repairs_of m d) ≡ true)
      ↔ ((has KeyMember-discrete km d ≡ true) ⊎ Repaired m km)
unfolding repairs_of lookup Repaired
has-repairs_of [] d km u = ((λ e. inl e), λ e. elim e [ inl h ↦ h | inr (k, sets, f, g) ↦ cc ])
has-repairs_of ((j, ss) ∷ m) d km u =
    let more = add_many KeyMember-discrete d (union_difference ss).1 in
    let ih = has-repairs_of m more km u.1 in
    (
      (λ e. elim (ih.0 e) [
        | inl h ↦ elim (has_more h) [
          | inl b ↦ inl b
          | inr g ↦ inr (j, ss, if_pos (Bytes-discrete j j) refl _ _, g)
        ]
        | inr (k, sets, f, g) ↦
            inr (k, sets, rw (if_neg (Bytes-discrete j k) (λ p. apart p f)) f, g)
      ]),
      λ e. ih.1 (elim e [
        | inl h ↦ inl (more_has (inl h))
        | inr (k, sets, f, g) ↦ elim (Bytes-discrete j k) [
          | yes p ↦
              inl (more_has (inr (first_disputes sets (rw (if_pos (Bytes-discrete j k) p) at f) g)))
          | no p ↦ inr (k, sets, rw (if_neg (Bytes-discrete j k) p) at f, g)
        ]
      ]),
    )
  where
    has_more :
        has KeyMember-discrete km (add_many KeyMember-discrete d (union_difference ss).1) ≡ true
        → (has KeyMember-discrete km d ≡ true)
          ⊎ (has KeyMember-discrete km (union_difference ss).1 ≡ true)
    has_more h = ground (arith, has-add_many KeyMember-discrete km d (union_difference ss).1)

    more_has :
        (has KeyMember-discrete km d ≡ true)
          ⊎ (has KeyMember-discrete km (union_difference ss).1 ≡ true)
        → has KeyMember-discrete km (add_many KeyMember-discrete d (union_difference ss).1) ≡ true
    more_has h = ground (arith, has-add_many KeyMember-discrete km d (union_difference ss).1)

    apart : {k : Bytes} {sets : List TupleSet} → j ≡ k → lookup Bytes-discrete k m ≡ some sets → ⊥
    apart p f = let absent = u.0 in cc

    first_disputes :
        (sets : List TupleSet)
        → some ss ≡ some sets
        → has KeyMember-discrete km (union_difference sets).1 ≡ true
        → has KeyMember-discrete km (union_difference ss).1 ≡ true
    first_disputes sets f g = cc

pub answers_of-Distinct :
    (k : Bytes) (es : List Element) → All (Distinct KeyScoreMember-discrete) (answers_of k es)
answers_of-Distinct k [] = tt
answers_of-Distinct k (e ∷ es) =
    ground (arith, answers_of-Distinct k es, make_set-Distinct KeyScoreMember-discrete e.members)

pub all_sets : (a sets : List TupleSet) → extended none a ≡ some sets → a ≡ sets
all_sets [] sets e = cc
all_sets (x ∷ xs) sets e = cc

pub some_set : (s : TupleSet) (a : List TupleSet) → Memᴰ s a → extended none a ≡ some a
some_set s [] m = elim m [ ]
some_set s (x ∷ xs) m = refl

pub lookup-response_of-gather :
    (sort : List KeyScoreMember → List KeyScoreMember) (limit : ℕ) (es : List Element) (k : Bytes)
    → lookup Bytes-discrete k (response_of sort limit (gather es []))
      ≡ map_sets
          (λ sets. ordered_limited_slice sort limit (union_difference sets).0)
          (extended none (answers_of k es))
unfolding lookup
lookup-response_of-gather sort limit es k =
    lookup-response_of sort limit (gather es []) k
    ∙ ap (map_sets (λ sets. ordered_limited_slice sort limit (union_difference sets).0))
        (lookup-gather es [] k)

-- With a sort that keeps what sort.Sort promises, SendAllReadAll returns nothing for a key that no cluster answered without an error. For any other key it
-- returns the first `limit` tuples of an order of the union of the answers by falling score, or all of the
-- union if it is no longer than that.
pub lookup-read_all :
    (sort : List KeyScoreMember → List KeyScoreMember) (limit : ℕ) (es : List Element) (k : Bytes)
    → SortsFarm sort
    → Answered limit k es (lookup Bytes-discrete k (read_all sort limit es).0)
unfolding read_all
lookup-read_all sort limit es k s =
    sets-Answered sort limit k es _ s (lookup-response_of-gather sort limit es k)

pub gather_repairs :
    (es : List Element) (d : KeyMemberSet) (km : KeyMember)
    → (has KeyMember-discrete km (repairs_of (gather es []) d) ≡ true)
      ↔ ((has KeyMember-discrete km d ≡ true) ⊎ ((k : Bytes) × Disputed km (answers_of k es)))
unfolding Repaired Disputed Has lookup
gather_repairs es d km =
    let whole = has-repairs_of (gather es []) d km (gather-UniqueKeys es [] tt) in
    (
      λ e. elim (whole.0 e) [
        | inl f ↦ inl f
        | inr (k, sets, f, g) ↦
            let answered = all_sets (answers_of k es) sets (sym (lookup-gather es [] k) ∙ f) in
            inr (
              k,
              (difference_lem (answers_of k es) km (answers_of-Distinct k es)).0 (rw answered g),
            )
      ],
      λ e. whole.1 (elim e [
        | inl h ↦ inl h
        | inr (k, d) ↦
            let (t, q, (s, n, h), l) = d in
            inr (
              k,
              answers_of k es,
              lookup-gather es [] k ∙ some_set s (answers_of k es) n,
              (difference_lem (answers_of k es) km (answers_of-Distinct k es)).1 d,
            )
      ]),
    )

-- SendAllReadAll gives a key-member to the repair strategy exactly when the answers without errors
-- for some key disagree on one of its tuples.
pub read_all_repairs :
    (sort : List KeyScoreMember → List KeyScoreMember) (limit : ℕ) (es : List Element)
    (km : KeyMember)
    → (has KeyMember-discrete km (read_all sort limit es).1 ≡ true)
      ↔ ((k : Bytes) × Disputed km (answers_of k es))
unfolding read_all has
read_all_repairs sort limit es km =
    let whole = gather_repairs es [] km in
    (λ e. elim (whole.0 e) [ inl f ↦ cc | inr d ↦ d ], λ d. whole.1 (inr d))

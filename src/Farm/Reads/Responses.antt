-- ===== src/Farm/Reads/Responses.antt =====
-- The responses and the repairs of sendAllReadAll.
pub mod Page
pub mod Repairs
use mathlib.Core.List.{Memᴰ, append_assoc}
use er_pi_middleware25_artif.Base.{
  ℕ, ◌≡◌, refl, ◌↔◌, ap, ◌∙◌, sym, arith, ◌⊎◌, inl, inr, List, [], ◌∷◌, ◌++◌, Option, none, some,
  true, ite, if_pos, if_neg, lookup, lookup-insert, UniqueKeys, insert-UniqueKeys, All,
}
use er_pi_middleware25_artif.Common.{
  Bytes, Bytes-discrete, KeyScoreMember, KeyScoreMember-discrete, KeyMember, KeyMember-discrete,
}
use er_pi_middleware25_artif.Cluster.Conn.{Error}
use er_pi_middleware25_artif.Farm.Sets.{
  has, has-add_many, add_many, make_set, make_set-Distinct, Distinct, TupleSet, KeyMemberSet,
  ordered_limited_slice,
}
use er_pi_middleware25_artif.Farm.Union.{union_difference}
use er_pi_middleware25_artif.Farm.Union.Agreement.{Has, Disputed, difference_lem}
use er_pi_middleware25_artif.Cluster.Select.{Element}
use er_pi_middleware25_artif.Farm.Reads.{
  Responses, sets_of, respond, gather, repairs_of, response_of, read_all,
}

-- The sets of the elements of a key that are no errors, in their order of arrival.
abbrev pub answers_of : Bytes → List Element → List TupleSet
answers_of k [] = []
answers_of k (e ∷ es) = elim e.error [
  | none ↦
      ite (Bytes-discrete e.key k) (make_set KeyScoreMember-discrete e.members ∷ []) []
      ++ answers_of k es
  | some x ↦ answers_of k es
]

pub answers_of-append :
    (k : Bytes) (es fs : List Element)
    → answers_of k (es ++ fs) ≡ answers_of k es ++ answers_of k fs
answers_of-append k [] fs = refl
answers_of-append k (e ∷ es) fs = ground (arith, answers_of-append k es fs)

-- append(o, sets...), where no sets leave what is there.
abbrev pub extended : Option (List TupleSet) → List TupleSet → Option (List TupleSet)
extended o [] = o
extended o (s ∷ ss) = some (sets_of o ++ s ∷ ss)

pub extended-some :
    (o : Option (List TupleSet)) (s : TupleSet) (ss : List TupleSet)
    → extended (some (sets_of o ++ s ∷ [])) ss ≡ extended o (s ∷ ss)
extended-some o s [] = refl
extended-some o s (x ∷ xs) = ap some (append_assoc (sets_of o) (s ∷ []) (x ∷ xs))

pub extended-respond :
    (j : Bytes) (xs : List KeyScoreMember) (error : Option Error) (es : List Element)
    (m : Responses) (k : Bytes)
    → extended
        (lookup Bytes-discrete k (respond (record { key = j; members = xs; error = error }) m))
        (answers_of k es)
      ≡ extended
          (lookup Bytes-discrete k m)
          (answers_of k (record { key = j; members = xs; error = error } ∷ es))
extended-respond j xs (some x) es m k = refl
extended-respond j xs none es m k =
    let set = make_set KeyScoreMember-discrete xs in
    let added =
      lookup-insert Bytes-discrete j k (sets_of (lookup Bytes-discrete j m) ++ set ∷ []) m in
    elim (Bytes-discrete j k) [
      | yes p ↦
          rw (added, if_pos (Bytes-discrete j k) p, if_pos (Bytes-discrete j k) p)
            (ap
                (λ i.
                  extended (some (sets_of (lookup Bytes-discrete i m) ++ set ∷ []))
                    (answers_of k es))
                p
              ∙ extended-some (lookup Bytes-discrete k m) set (answers_of k es))
      | no p ↦ rw (added, if_neg (Bytes-discrete j k) p, if_neg (Bytes-discrete j k) p) refl
    ]

-- What gather leaves for a key: its answers, after those that were there.
pub lookup-gather :
    (es : List Element) (m : Responses) (k : Bytes)
    → lookup Bytes-discrete k (gather es m) ≡ extended (lookup Bytes-discrete k m) (answers_of k es)
unfolding gather
lookup-gather [] m k = refl
lookup-gather (e ∷ es) m k =
    lookup-gather es (respond e m) k ∙ extended-respond e.key e.members e.error es m k

abbrev pub map_sets : {B : Type 0} → (List TupleSet → B) → Option (List TupleSet) → Option B
map_sets f none = none
map_sets f (some sets) = some (f sets)

pub lookup-response_of :
    (sort : List KeyScoreMember → List KeyScoreMember) (limit : ℕ) (m : Responses) (k : Bytes)
    → lookup Bytes-discrete k (response_of sort limit m)
      ≡ map_sets
          (λ sets. ordered_limited_slice sort limit (union_difference sets).0)
          (lookup Bytes-discrete k m)
unfolding response_of lookup
lookup-response_of sort limit [] k = refl
lookup-response_of sort limit ((j, sets) ∷ m) k = ground (arith, lookup-response_of sort limit m k)

pub respond-UniqueKeys :
    (e : Element) (m : Responses)
    → UniqueKeys Bytes-discrete m
    → UniqueKeys Bytes-discrete (respond e m)
respond-UniqueKeys e m u = ground (
  arith,
  insert-UniqueKeys Bytes-discrete e.key
      (sets_of (lookup Bytes-discrete e.key m) ++ make_set KeyScoreMember-discrete e.members ∷ []) m
      u,
)

pub gather-UniqueKeys :
    (es : List Element) (m : Responses)
    → UniqueKeys Bytes-discrete m
    → UniqueKeys Bytes-discrete (gather es m)
unfolding gather
gather-UniqueKeys [] m u = u
gather-UniqueKeys (e ∷ es) m u = gather-UniqueKeys es (respond e m) (respond-UniqueKeys e m u)

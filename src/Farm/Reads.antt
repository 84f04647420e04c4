-- ===== src/Farm/Reads.antt =====
-- sendOneReadOne and sendAllReadAll of roshi/farm/read_strategies.go, and the shortcut for no keys
-- of SelectOffset and SelectRange of roshi/farm/farm.go. The elements are those that arrive on the
-- channel, in any order.
pub mod Responses
pub mod Linger
use er_pi_middleware25_artif.Base.{
  ℕ, ◌+◌, ◌≡◌, refl, List, [], ◌∷◌, ◌++◌, Option, none, some, Bool, true, false, ite, if◌then◌else◌,
  length, leb, lookup, insert,
}
use er_pi_middleware25_artif.Common.{
  Bytes, Bytes-discrete, KeyScoreMember, KeyScoreMember-discrete, KeyMember-discrete,
}
use er_pi_middleware25_artif.Cluster.Conn.{Error, Result, ok, err}
use er_pi_middleware25_artif.Cluster.Select.{Element}
use er_pi_middleware25_artif.Farm.Sets.{
  add_many, make_set, TupleSet, KeyMemberSet, ordered_limited_slice,
}
use er_pi_middleware25_artif.Farm.Union.{union_difference}

abbrev pub Response : Type 0
Response = List (Bytes × List KeyScoreMember)

-- response[e.Key] = e.KeyScoreMembers, and the errors counted.
unfoldable pub gather_one : List Element → ℕ → Response → ℕ × Response
gather_one [] errors response = (errors, response)
gather_one (e ∷ es) errors response =
    gather_one es (elim e.error [ none ↦ errors | some x ↦ errors + 1 ])
      (insert Bytes-discrete e.key e.members response)

-- fmt.Errorf("complete failure ...")
abbrev pub complete_failure : Error
complete_failure =
    b'c' ∷ b'o' ∷ b'm' ∷ b'p' ∷ b'l' ∷ b'e' ∷ b't' ∷ b'e' ∷ b' ' ∷ b'f' ∷ b'a' ∷ b'i' ∷ b'l' ∷ b'u'
    ∷ b'r' ∷ b'e' ∷ []

unfoldable pub read_one : ℕ → List Element → Result Response
unfolding gather_one
read_one num_keys es =
    let (errors, response) = gather_one es 0 [] in
    if leb num_keys errors then err complete_failure else ok response

abbrev pub Responses : Type 0
Responses = List (Bytes × List TupleSet)

abbrev pub sets_of : Option (List TupleSet) → List TupleSet
sets_of none = []
sets_of (some sets) = sets

-- responses[e.Key] = append(responses[e.Key], makeSet(e.KeyScoreMembers)), but for an error.
abbrev pub respond : Element → Responses → Responses
respond e m = elim e.error [
  | none ↦
      insert Bytes-discrete e.key
        (sets_of (lookup Bytes-discrete e.key m) ++ make_set KeyScoreMember-discrete e.members ∷ [])
        m
  | some x ↦ m
]

unfoldable pub gather : List Element → Responses → Responses
gather [] m = m
gather (e ∷ es) m = gather es (respond e m)

unfoldable pub repairs_of : Responses → KeyMemberSet → KeyMemberSet
repairs_of [] repairs = repairs
repairs_of ((key, sets) ∷ m) repairs =
    repairs_of m (add_many KeyMember-discrete repairs (union_difference sets).1)

module _ (sort : List KeyScoreMember → List KeyScoreMember) where
  -- union.orderedLimitedSlice(limit) for every key
  unfoldable pub response_of : ℕ → Responses → Response
  response_of limit [] = []
  response_of limit ((key, sets) ∷ m) =
      (key, ordered_limited_slice sort limit (union_difference sets).0) ∷ response_of limit m

  -- The response and the key-members given to the repair strategy.
  unfoldable pub read_all : ℕ → List Element → Response × KeyMemberSet
  unfolding gather response_of repairs_of
  read_all limit es = let m = gather es [] in (response_of limit m, repairs_of m [])

-- Farm.SelectOffset and Farm.SelectRange
abbrev pub select : (List Bytes → Result Response) → List Bytes → Result Response
select selecter [] = ok []
select selecter (k ∷ ks) = selecter (k ∷ ks)

-- ===== src/Farm/Union/Best.antt =====
-- The union of unionDifference: every key-member with its best score.
use mathlib.Core.List.{Memᴰ}
use er_pi_middleware25_artif.Base.{
  ◌≡◌, refl, ◌↔◌, List, [], ◌∷◌, ◌++◌, some, true, arith, ◌∙◌, sym, ◌⊎◌, inl, inr, ◌≤ℤ◌, lookup,
  UniqueKeys, if_pos, if_neg,
}
use er_pi_middleware25_artif.Common.{KeyScoreMember, KeyScoreMember-discrete, KeyMember-discrete}
use er_pi_middleware25_artif.Farm.Sets.{add, has, has-add, TupleSet}
use er_pi_middleware25_artif.Farm.Union.{
  key_member, Scores, Counts, update_scores, update_counts, tally_set, tally_sets, union_of,
  union_difference,
}
use er_pi_middleware25_artif.Farm.Union.Highest.{
  scores_from, scores_from-UniqueKeys, lookup-scores_from, some_inj, same_tuple, best_lem,
}

-- All the tuples of the sets.
abbrev pub all_tuples : List TupleSet → TupleSet
all_tuples [] = []
all_tuples (s ∷ ss) = s ++ all_tuples ss

unfoldable pub counts_from : TupleSet → Counts → Counts
counts_from [] m = m
counts_from (t ∷ ts) m = counts_from ts (update_counts t m)

tally_set-append :
    (ts us : TupleSet) (a : Scores) (b : Counts)
    → (scores_from (ts ++ us) a ≡ scores_from us (tally_set ts (a, b)).0)
      × (counts_from (ts ++ us) b ≡ counts_from us (tally_set ts (a, b)).1)
unfolding tally_set scores_from counts_from
tally_set-append [] us a b = (refl, refl)
tally_set-append (t ∷ ts) us a b = tally_set-append ts us (update_scores t a) (update_counts t b)

-- The two maps that the loops build.
pub tally_sets_lem :
    (sets : List TupleSet) (a : Scores) (b : Counts)
    → tally_sets sets (a, b) ≡ (scores_from (all_tuples sets) a, counts_from (all_tuples sets) b)
unfolding tally_sets scores_from counts_from
tally_sets_lem [] a b = refl
tally_sets_lem (s ∷ ss) a b =
    let m = tally_set s (a, b) in
    let (p, q) = tally_set-append s (all_tuples ss) a b in
    tally_sets_lem ss m.0 m.1 ∙ ground (arith, p, q)

has-union_of :
    (m : Scores) (u : TupleSet) (t : KeyScoreMember)
    → UniqueKeys KeyMember-discrete m
    → (has KeyScoreMember-discrete t (union_of m u) ≡ true) ↔ (
        (has KeyScoreMember-discrete t u ≡ true)
        ⊎ (lookup KeyMember-discrete (key_member t) m ≡ some t.score))
unfolding union_of lookup
has-union_of [] u t h = ((λ e. inl e), λ d. elim d [ inl e ↦ e | inr e ↦ cc ])
has-union_of ((km, s) ∷ m) u t h =
    let r : KeyScoreMember = record { key = km.key; score = s; member = km.member } in
    let ih = has-union_of m (add KeyScoreMember-discrete r u) t h.1 in
    let added = has-add KeyScoreMember-discrete r t u in
    (
      λ e. ground (arith, ih.0 e, added),
      λ d. ih.1 (elim d [
        | inl a ↦ inl (added ∙ ground arith)
        | inr e ↦ elim (KeyMember-discrete km (key_member t)) [
          | yes p ↦ inl (
              added
              ∙ if_pos (KeyScoreMember-discrete r t)
                  (same_tuple r t p (some_inj s t.score (rw (if_pos _ p) at e))) _ _)
          | no p ↦ inr (rw (if_neg _ p) at e)
        ]
      ]),
    )

-- The union holds a tuple exactly when some set holds it and no set holds its key-member with a
-- higher score.
pub union_best :
    (sets : List TupleSet) (t : KeyScoreMember)
    → (has KeyScoreMember-discrete t (union_difference sets).0 ≡ true) ↔ (
        Memᴰ t (all_tuples sets)
        × ((u : KeyScoreMember)
            → Memᴰ u (all_tuples sets)
            → key_member u ≡ key_member t
            → u.score ≤ℤ t.score))
unfolding union_difference has lookup
union_best sets t =
    let ts = all_tuples sets in
    let found = lookup-scores_from ts [] (key_member t) in
    let member = has-union_of (scores_from ts []) [] t (scores_from-UniqueKeys ts [] tt) in
    let top = best_lem ts t in
    rw (tally_sets_lem sets [] []) (
      λ e. top.0 (sym found ∙ elim (member.0 e) [ inl f ↦ cc | inr f ↦ f ]),
      λ d. member.1 (inr (found ∙ top.1 d)),
    )

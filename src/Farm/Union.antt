-- ===== src/Farm/Union.antt =====
-- unionDifference of roshi/farm/farm.go.
pub mod Highest
pub mod Best
pub mod Counts
pub mod Agreement
use mathlib.Core.List.{Memᴰ}
use er_pi_middleware25_artif.Base.{
  ℕ, zero, suc, ◌+◌, ◌≤◌, ◌<◌, ◌≡◌, ◌≢◌, refl, ◌↔◌, List, [], ◌∷◌, ◌++◌, Option, none, some, Bool,
  true, false, ite, if◌then◌else◌, length, arith, ap, ◌∙◌, sym, ltb, ◌⊎◌, inl, inr, All, ℤ, ltb_ℤ,
  ◌≤ℤ◌, lookup, insert, lookup-insert, map,
}
use er_pi_middleware25_artif.Common.{
  KeyScoreMember, KeyScoreMember-discrete, KeyMember, KeyMember-discrete,
}
use er_pi_middleware25_artif.Farm.Sets.{
  add, has, has-add, Distinct, TupleSet, KeyMemberSet, Memᴰ→has, has→Memᴰ,
}

abbrev pub key_member : KeyScoreMember → KeyMember
key_member t = record { key = t.key; member = t.member }

abbrev pub Scores : Type 0
Scores = List (KeyMember × ℤ)

abbrev pub Counts : Type 0
Counts = List (KeyScoreMember × ℕ)

-- !ok || tuple.Score > score
abbrev pub improves : ℤ → Option ℤ → Bool
improves s none = true
improves s (some t) = ltb_ℤ t s

abbrev pub update_scores : KeyScoreMember → Scores → Scores
update_scores t m =
    if improves t.score (lookup KeyMember-discrete (key_member t) m)
    then insert KeyMember-discrete (key_member t) t.score m
    else m

abbrev pub count : Option ℕ → ℕ
count none = 0
count (some n) = n

-- counts[tuple]++
abbrev pub update_counts : KeyScoreMember → Counts → Counts
update_counts t m =
    insert KeyScoreMember-discrete t (count (lookup KeyScoreMember-discrete t m) + 1) m

-- The loop over one set, and the loop over the sets.
unfoldable pub tally_set : TupleSet → Scores × Counts → Scores × Counts
tally_set [] (scores, counts) = (scores, counts)
tally_set (t ∷ ts) (scores, counts) = tally_set ts (update_scores t scores, update_counts t counts)

unfoldable pub tally_sets : List TupleSet → Scores × Counts → Scores × Counts
unfolding tally_set
tally_sets [] m = m
tally_sets (s ∷ ss) m = tally_sets ss (tally_set s m)

unfoldable pub union_of : Scores → TupleSet → TupleSet
union_of [] u = u
union_of ((km, best) ∷ rest) u =
    union_of rest
      (add KeyScoreMember-discrete (record { key = km.key; score = best; member = km.member }) u)

unfoldable pub difference_of : ℕ → Counts → KeyMemberSet → KeyMemberSet
difference_of expected [] d = d
difference_of expected ((t, n) ∷ rest) d =
    difference_of expected rest
      (if ltb n expected then add KeyMember-discrete (key_member t) d else d)

unfoldable pub union_difference : List TupleSet → TupleSet × KeyMemberSet
unfolding tally_sets union_of difference_of
union_difference sets =
    let (scores, counts) = tally_sets sets ([], []) in
    (union_of scores [], difference_of (length sets) counts [])

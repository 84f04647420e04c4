-- ===== src/Farm/Union/Agreement.antt =====
-- The difference of unionDifference: the key-members on which the sets disagree.
use mathlib.Core.List.{Memᴰ}
use er_pi_middleware25_artif.Base.{
  Bool-cases, ℕ, zero, suc, ◌+◌, ◌≤◌, ◌<◌, ◌≡◌, refl, ◌↔◌, List, [], ◌∷◌, ◌++◌, none, some, true,
  false, if◌then◌else◌, length, arith, ap, ◌∙◌, sym, inl, inr, All, lookup,
}
use er_pi_middleware25_artif.Common.{
  KeyScoreMember, KeyScoreMember-discrete, KeyMember, KeyMember-discrete,
}
use er_pi_middleware25_artif.Farm.Sets.{has, Distinct, TupleSet}
use er_pi_middleware25_artif.Farm.Union.{key_member, union_difference}
use er_pi_middleware25_artif.Farm.Union.Best.{all_tuples, counts_from, tally_sets_lem}
use er_pi_middleware25_artif.Farm.Union.Counts.{
  has_tuple, counts_from-UniqueKeys, occurrences, counted, lookup-counts_from, Short,
  has-difference_of,
}

-- The number of sets that have the tuple.
abbrev holders : KeyScoreMember → List TupleSet → ℕ
holders t [] = 0
holders t (s ∷ ss) = (if has_tuple t s then 1 else 0) + holders t ss

occurrences-append :
    (t : KeyScoreMember) (xs ys : TupleSet)
    → occurrences t (xs ++ ys) ≡ occurrences t xs + occurrences t ys
occurrences-append t [] ys = omega arith
occurrences-append t (x ∷ xs) ys = ground (arith, occurrences-append t xs ys)

occurrences-Distinct :
    (t : KeyScoreMember) (s : TupleSet)
    → Distinct KeyScoreMember-discrete s
    → occurrences t s ≡ (if has_tuple t s then 1 else 0)
unfolding has
occurrences-Distinct t [] d = refl
occurrences-Distinct t (x ∷ xs) d = ground (arith, occurrences-Distinct t xs d.1)

occurrences-all_tuples :
    (t : KeyScoreMember) (sets : List TupleSet)
    → All (Distinct KeyScoreMember-discrete) sets
    → occurrences t (all_tuples sets) ≡ holders t sets
occurrences-all_tuples t [] d = refl
occurrences-all_tuples t (s ∷ ss) d =
    occurrences-append t s (all_tuples ss)
    ∙ ground (arith, occurrences-Distinct t s d.0, occurrences-all_tuples t ss d.1)

holders-le : (t : KeyScoreMember) (sets : List TupleSet) → holders t sets ≤ length sets
holders-le t [] = omega arith
holders-le t (s ∷ ss) = ground (arith, holders-le t ss)

unfoldable pub Has : KeyScoreMember → List TupleSet → Type 0
Has t sets = (s : TupleSet) × Memᴰ s sets × (has_tuple t s ≡ true)

unfoldable pub Lacks : KeyScoreMember → List TupleSet → Type 0
Lacks t sets = (s : TupleSet) × Memᴰ s sets × (has_tuple t s ≡ false)

some_holder : (t : KeyScoreMember) (sets : List TupleSet) → (0 < holders t sets) ↔ Has t sets
unfolding Has
some_holder t [] = ((λ h. absurd (omega arith)), λ (s, m, e). elim m [ ])
some_holder t (s ∷ ss) =
    let ih = some_holder t ss in
    (
      (λ h. elim (Bool-cases (has_tuple t s)) [
        | inl e ↦ (s, Memᴰ.head refl, e)
        | inr e ↦ let (x, m, f) = ih.0 (ground arith) in (x, Memᴰ.tail m, f)
      ]),
      λ (x, m, f). elim m [
        | Memᴰ.head p ↦ ground (arith, ap (has_tuple t) p)
        | Memᴰ.tail n ↦ ground (arith, ih.1 (x, n, f))
      ],
    )

some-Lacks :
    (t : KeyScoreMember) (sets : List TupleSet) → (holders t sets < length sets) ↔ Lacks t sets
unfolding Lacks
some-Lacks t [] = ((λ h. absurd (omega arith)), λ (s, m, e). elim m [ ])
some-Lacks t (s ∷ ss) =
    let ih = some-Lacks t ss in
    (
      (λ h. elim (Bool-cases (has_tuple t s)) [
        | inl e ↦ let (x, m, f) = ih.0 (ground arith) in (x, Memᴰ.tail m, f)
        | inr e ↦ (s, Memᴰ.head refl, e)
      ]),
      λ (x, m, f). elim m [
        | Memᴰ.head p ↦ ground (arith, ap (has_tuple t) p, holders-le t ss)
        | Memᴰ.tail n ↦ ground (arith, ih.1 (x, n, f))
      ],
    )

-- A key-member is in the difference when the sets disagree on one of its tuples.
unfoldable pub Disputed : KeyMember → List TupleSet → Type 0
Disputed km sets = (t : KeyScoreMember) × (key_member t ≡ km) × Has t sets × Lacks t sets

-- Over sets without repetitions, the difference holds a key-member exactly when some set holds a
-- tuple of it that another set lacks.
pub difference_lem :
    (sets : List TupleSet) (km : KeyMember)
    → All (Distinct KeyScoreMember-discrete) sets
    → (has KeyMember-discrete km (union_difference sets).1 ≡ true) ↔ Disputed km sets
unfolding union_difference Disputed has lookup Short
difference_lem sets km d =
    let ts = all_tuples sets in
    let seen =
      has-difference_of (length sets) (counts_from ts []) [] km (counts_from-UniqueKeys ts [] tt) in
    let tally : (t : KeyScoreMember)
        → lookup KeyScoreMember-discrete t (counts_from ts []) ≡ counted (holders t sets) none =
      λ t.
        lookup-counts_from ts [] t ∙ ap (λ n. counted n none) (occurrences-all_tuples t sets d) in
    rw (tally_sets_lem sets [] []) (
      λ e. elim (seen.0 e) [
        | inl f ↦ cc
        | inr (t, n, f, g, k) ↦ (
          t,
          k,
          (some_holder t sets).0 (counted_pos (holders t sets) n (sym (tally t) ∙ f)).0,
          (some-Lacks t sets).0 (rw (counted_pos (holders t sets) n (sym (tally t) ∙ f)).1 g),
        )
      ],
      λ (t, k, h, l). seen.1 (
          inr (
            t,
            holders t sets,
            tally t ∙ counted_some (holders t sets) ((some_holder t sets).1 h),
            (some-Lacks t sets).1 l,
            k,
          )),
    )
  where
    counted_pos : (h n : ℕ) → counted h none ≡ some n → (0 < h) × (h ≡ n)
    counted_pos zero n e = cc
    counted_pos (suc h) n e = ground arith

    counted_some : (h : ℕ) → 0 < h → counted h none ≡ some h
    counted_some zero p = absurd (omega arith)
    counted_some (suc h) p = ground arith

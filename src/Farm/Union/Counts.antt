-- ===== src/Farm/Union/Counts.antt =====
-- The counts of unionDifference in roshi/farm/farm.go, and the key-members that they leave in the difference.
use er_pi_middleware25_artif.Base.{
  ℕ, zero, suc, ◌+◌, ◌<◌, ◌≡◌, refl, ◌↔◌, List, [], ◌∷◌, Option, none, some, Bool, true, ite,
  if◌then◌else◌, arith, ap, ◌∙◌, ltb, ◌⊎◌, inl, inr, lookup, lookup-insert, UniqueKeys,
  insert-UniqueKeys, if_pos, if_neg,
}
use er_pi_middleware25_artif.Common.{
  KeyScoreMember, KeyScoreMember-discrete, KeyMember, KeyMember-discrete,
}
use er_pi_middleware25_artif.Farm.Sets.{add, has, has-add, TupleSet}
use er_pi_middleware25_artif.Farm.Union.{key_member, Counts, count, update_counts, difference_of}
use er_pi_middleware25_artif.Farm.Union.Best.{counts_from}

abbrev pub has_tuple : KeyScoreMember → TupleSet → Bool
has_tuple = has KeyScoreMember-discrete

pub counts_from-UniqueKeys :
    (ts : TupleSet) (m : Counts)
    → UniqueKeys KeyScoreMember-discrete m
    → UniqueKeys KeyScoreMember-discrete (counts_from ts m)
unfolding counts_from
counts_from-UniqueKeys [] m u = u
counts_from-UniqueKeys (t ∷ ts) m u = counts_from-UniqueKeys ts (update_counts t m) (
    insert-UniqueKeys KeyScoreMember-discrete t (count (lookup KeyScoreMember-discrete t m) + 1) m
      u)

-- How often a tuple stands in a list.
abbrev pub occurrences : KeyScoreMember → TupleSet → ℕ
occurrences t [] = 0
occurrences t (x ∷ xs) = ite (KeyScoreMember-discrete x t) 1 0 + occurrences t xs

abbrev pub counted : ℕ → Option ℕ → Option ℕ
counted zero o = o
counted (suc n) o = some (count o + suc n)

pub lookup-update_counts :
    (x t : KeyScoreMember) (m : Counts)
    → lookup KeyScoreMember-discrete t (update_counts x m)
      ≡ counted (ite (KeyScoreMember-discrete x t) 1 0) (lookup KeyScoreMember-discrete t m)
lookup-update_counts x t m =
    let n = count (lookup KeyScoreMember-discrete x m) + 1 in
    let added = lookup-insert KeyScoreMember-discrete x t n m in
    elim (KeyScoreMember-discrete x t) [
      | yes p ↦
          rw (added, if_pos (KeyScoreMember-discrete x t) p, if_pos (KeyScoreMember-discrete x t) p)
            (ap (λ y. some (count (lookup KeyScoreMember-discrete y m) + 1)) p)
      | no p ↦
          rw (added, if_neg (KeyScoreMember-discrete x t) p, if_neg (KeyScoreMember-discrete x t) p)
            refl
    ]

pub counted-counted : (a b : ℕ) (o : Option ℕ) → counted a (counted b o) ≡ counted (b + a) o
counted-counted a b none = ground arith
counted-counted a b (some n) = ground arith

pub lookup-counts_from :
    (ts : TupleSet) (m : Counts) (t : KeyScoreMember)
    → lookup KeyScoreMember-discrete t (counts_from ts m)
      ≡ counted (occurrences t ts) (lookup KeyScoreMember-discrete t m)
unfolding counts_from
lookup-counts_from [] m t = refl
lookup-counts_from (x ∷ xs) m t =
    lookup-counts_from xs (update_counts x m) t
    ∙ ap (counted (occurrences t xs)) (lookup-update_counts x t m)
    ∙ counted-counted (occurrences t xs) (ite (KeyScoreMember-discrete x t) 1 0)
        (lookup KeyScoreMember-discrete t m)

-- A key-member is in the difference when a tuple of it was counted less often than expected.
unfoldable pub Short : ℕ → Counts → KeyMember → Type 0
Short expected m km =
    (t : KeyScoreMember) × (n : ℕ) × (lookup KeyScoreMember-discrete t m ≡ some n)
    × (n < expected)
    × (key_member t ≡ km)

pub has-difference_of :
    (expected : ℕ) (m : Counts) (d : List KeyMember) (km : KeyMember)
    → UniqueKeys KeyScoreMember-discrete m
    → (has KeyMember-discrete km (difference_of expected m d) ≡ true)
      ↔ ((has KeyMember-discrete km d ≡ true) ⊎ Short expected m km)
unfolding difference_of lookup Short
has-difference_of expected [] d km u =
    ((λ e. inl e), λ e. elim e [ inl h ↦ h | inr (t, n, f, g, k) ↦ cc ])
has-difference_of expected ((x, k) ∷ m) d km u =
    let rest = if ltb k expected then add KeyMember-discrete (key_member x) d else d in
    let ih = has-difference_of expected m rest km u.1 in
    let added = has-add KeyMember-discrete (key_member x) km d in
    (
      λ e. elim (ih.0 e) [
        | inl h ↦ elim (has_rest h) [
          | inl b ↦ inl b
          | inr (g, q) ↦ inr (x, k, if_pos (KeyScoreMember-discrete x x) refl _ _, g, q)
        ]
        | inr (t, n, f, g, q) ↦
            inr (t, n, rw (if_neg (KeyScoreMember-discrete x t) (λ p. apart p f)) f, g, q)
      ],
      λ e. ih.1 (elim e [
        | inl h ↦ inl (ground (arith, added))
        | inr (t, n, f, g, q) ↦ elim (KeyScoreMember-discrete x t) [
          | yes p ↦ inl (
              rest_has (first_short t n (rw (if_pos (KeyScoreMember-discrete x t) p) at f) g)
                (ap key_member p ∙ q))
          | no p ↦ inr (t, n, rw (if_neg (KeyScoreMember-discrete x t) p) at f, g, q)
        ]
      ]),
    )
  where
    has_rest :
        has KeyMember-discrete km
            (if ltb k expected then add KeyMember-discrete (key_member x) d else d)
          ≡ true
        → (has KeyMember-discrete km d ≡ true) ⊎ ((k < expected) × (key_member x ≡ km))
    has_rest h = ground (arith, has-add KeyMember-discrete (key_member x) km d)

    rest_has :
        k < expected
        → key_member x ≡ km
        → has KeyMember-discrete km
            (if ltb k expected then add KeyMember-discrete (key_member x) d else d)
          ≡ true
    rest_has h q = ground (arith, has-add KeyMember-discrete (key_member x) km d)

    first_short : (t : KeyScoreMember) (n : ℕ) → some k ≡ some n → n < expected → k < expected
    first_short t n f g = ground arith

    apart : {t : KeyScoreMember} {n : ℕ} → x ≡ t → lookup KeyScoreMember-discrete t m ≡ some n → ⊥
    apart p f = let absent = u.0 in cc

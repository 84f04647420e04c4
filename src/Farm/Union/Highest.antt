-- ===== src/Farm/Union/Highest.antt =====
-- The best scores that unionDifference in roshi/farm/farm.go keeps for the key-members.
use mathlib.Core.List.{Memᴰ}
use er_pi_middleware25_artif.Base.{
  subst, eq_of_le_le, ◌≡◌, refl, ◌↔◌, [], ◌∷◌, Option, none, some, ite, if◌then◌else◌, arith, ap,
  ◌∙◌, sym, ◌⊎◌, inl, inr, ℤ, ltb_ℤ, ◌≤ℤ◌, lookup, lookup-insert, UniqueKeys, insert-UniqueKeys,
  if_pos, if_neg,
}
use er_pi_middleware25_artif.Common.{KeyScoreMember, KeyMember, KeyMember-discrete}
use er_pi_middleware25_artif.Farm.Sets.{TupleSet}
use er_pi_middleware25_artif.Farm.Union.{key_member, Scores, update_scores}

unfoldable pub scores_from : TupleSet → Scores → Scores
scores_from [] m = m
scores_from (t ∷ ts) m = scores_from ts (update_scores t m)

pub update_scores-UniqueKeys :
    (t : KeyScoreMember) (m : Scores)
    → UniqueKeys KeyMember-discrete m
    → UniqueKeys KeyMember-discrete (update_scores t m)
update_scores-UniqueKeys t m u =
    ground (arith, insert-UniqueKeys KeyMember-discrete (key_member t) t.score m u)

pub scores_from-UniqueKeys :
    (ts : TupleSet) (m : Scores)
    → UniqueKeys KeyMember-discrete m
    → UniqueKeys KeyMember-discrete (scores_from ts m)
unfolding scores_from
scores_from-UniqueKeys [] m u = u
scores_from-UniqueKeys (t ∷ ts) m u =
    scores_from-UniqueKeys ts (update_scores t m) (update_scores-UniqueKeys t m u)

abbrev pub better : ℤ → Option ℤ → ℤ
better s none = s
better s (some u) = if ltb_ℤ u s then s else u

-- The score that the tuples leave for a key-member, from the score at the start.
abbrev pub best : KeyMember → TupleSet → Option ℤ → Option ℤ
best km [] o = o
best km (t ∷ ts) o =
    best km ts (ite (KeyMember-discrete (key_member t) km) (some (better t.score o)) o)

pub lookup-update_scores :
    (t : KeyScoreMember) (m : Scores) (km : KeyMember) (o : Option ℤ)
    → lookup KeyMember-discrete km m ≡ o
    → lookup KeyMember-discrete km (update_scores t m)
      ≡ ite (KeyMember-discrete (key_member t) km) (some (better t.score o)) o
lookup-update_scores t m km none e =
    ground (arith, e, lookup-insert KeyMember-discrete (key_member t) km t.score m)
lookup-update_scores t m km (some u) e =
    ground (arith, e, lookup-insert KeyMember-discrete (key_member t) km t.score m)

pub lookup-scores_from :
    (ts : TupleSet) (m : Scores) (km : KeyMember)
    → lookup KeyMember-discrete km (scores_from ts m) ≡ best km ts (lookup KeyMember-discrete km m)
unfolding scores_from
lookup-scores_from [] m km = refl
lookup-scores_from (t ∷ ts) m km =
    lookup-scores_from ts (update_scores t m) km
    ∙ ap (best km ts) (lookup-update_scores t m km (lookup KeyMember-discrete km m) refl)

pub better_above : (a : ℤ) (o : Option ℤ) → a ≤ℤ better a o
better_above a none = omega arith
better_above a (some u) = ground arith

pub better_keeps : (a u : ℤ) → u ≤ℤ better a (some u)
better_keeps a u = ground arith

pub ≤ℤ_trans : (a b c : ℤ) → a ≤ℤ b → b ≤ℤ c → a ≤ℤ c
≤ℤ_trans a b c h k = omega arith

pub best_rises :
    (km : KeyMember) (ts : TupleSet) (s : ℤ) → (u : ℤ) × (best km ts (some s) ≡ some u) × (s ≤ℤ u)
best_rises km [] s = (s, refl, omega arith)
best_rises km (t ∷ ts) s = elim (KeyMember-discrete (key_member t) km) [
  | yes p ↦
      let (u, e, h) = best_rises km ts (better t.score (some s)) in
      rw (if_pos _ p) (u, e, ≤ℤ_trans s (better t.score (some s)) u (better_keeps t.score s) h)
  | no p ↦ rw (if_neg _ p) (best_rises km ts s)
]

-- It is not below the score of any of the tuples.
pub best_above :
    (km : KeyMember) (ts : TupleSet) (o : Option ℤ) (t : KeyScoreMember)
    → Memᴰ t ts
    → key_member t ≡ km
    → (u : ℤ) × (best km ts o ≡ some u) × (t.score ≤ℤ u)
best_above km [] o t m e = elim m [ ]
best_above km (x ∷ ts) o t (Memᴰ.head p) e =
    let (u, f, h) = best_rises km ts (better x.score o) in
    rw (if_pos (KeyMember-discrete (key_member x) km) (ap key_member (sym p) ∙ e))
      (u, f, rw p (≤ℤ_trans x.score (better x.score o) u (better_above x.score o) h))
best_above km (x ∷ ts) o t (Memᴰ.tail m) e = best_above km ts _ t m e

pub some_inj : (a b : ℤ) → some a ≡ some b → a ≡ b
some_inj a b e = cc

pub better_is : (a s : ℤ) (o : Option ℤ) → better a o ≡ s → (o ≡ some s) ⊎ (a ≡ s)
better_is a s none h = inr h
better_is a s (some u) h = ground arith

-- It is the score at the start or that of one of the tuples.
pub best_attained :
    (km : KeyMember) (ts : TupleSet) (o : Option ℤ) (s : ℤ)
    → best km ts o ≡ some s
    → (o ≡ some s) ⊎ ((t : KeyScoreMember) × Memᴰ t ts × (key_member t ≡ km) × (t.score ≡ s))
best_attained km [] o s e = inl e
best_attained km (x ∷ ts) o s e = elim (KeyMember-discrete (key_member x) km) [
  | yes p ↦ elim (best_attained km ts (some (better x.score o)) s (rw (if_pos _ p) at e)) [
    | inl f ↦ elim (better_is x.score s o (some_inj (better x.score o) s f)) [
      | inl g ↦ inl g
      | inr g ↦ inr (x, Memᴰ.head refl, p, g)
    ]
    | inr (t, m, k, g) ↦ inr (t, Memᴰ.tail m, k, g)
  ]
  | no p ↦ elim (best_attained km ts o s (rw (if_neg _ p) at e)) [
    | inl f ↦ inl f
    | inr (t, m, k, g) ↦ inr (t, Memᴰ.tail m, k, g)
  ]
]

pub same_tuple : (r t : KeyScoreMember) → key_member r ≡ key_member t → r.score ≡ t.score → r ≡ t
same_tuple r t e f = λ ī. record { key = (e ī).key; score = f ī; member = (e ī).member }

-- The best score is the score of a tuple that no tuple of its key-member exceeds.
pub best_lem :
    (ts : TupleSet) (t : KeyScoreMember)
    → (best (key_member t) ts none ≡ some t.score) ↔ (
        Memᴰ t ts
        × ((u : KeyScoreMember) → Memᴰ u ts → key_member u ≡ key_member t → u.score ≤ℤ t.score))
best_lem ts t =
    let km = key_member t in
    (
      λ e. (
        elim (best_attained km ts none t.score e) [
          | inl f ↦ cc
          | inr (x, m, k, g) ↦ subst (λ y. Memᴰ y ts) (same_tuple x t k g) m
        ],
        λ u m k.
            let (v, f, h) = best_above km ts none u m k in
            subst (λ y. u.score ≤ℤ y) (some_inj v t.score (sym f ∙ e)) h,
      ),
      λ (m, top).
          let (v, f, h) = best_above km ts none t m refl in
          elim (best_attained km ts none v f) [
            | inl g ↦ cc
            | inr (x, n, k, g) ↦ f ∙ ap some (eq_of_le_le v t.score (rw (sym g) (top x n k)) h)
          ],
    )

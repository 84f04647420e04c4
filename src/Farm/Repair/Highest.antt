-- ===== src/Farm/Repair/Highest.antt =====
-- The state that AllRepairs takes for correct.
use mathlib.Core.List.{Memᴰ}
use er_pi_middleware25_artif.Base.{
  ◌≡◌, refl, List, [], ◌∷◌, ◌++◌, ℤ, pos, ◌≤ℤ◌, ◌<ℤ◌, true, false, All, arith, ap, ◌∙◌, sym, ◌⊎◌,
  inl, inr,
}
use er_pi_middleware25_artif.Cluster.Pipeline.{Presence}
use er_pi_middleware25_artif.Common.{KeyMember}
use er_pi_middleware25_artif.Farm.Repair.{
  Decision, undecided, consider, decide, Plan, plan_decided, plan_repairs,
}

-- No presence is above the score.
abbrev pub Bounds : ℤ → List Presence → Type 0
Bounds top = All (λ p. p.present ≡ true → p.score ≤ℤ top)

-- One of the presences has the score.
abbrev pub Reaches : ℤ → List Presence → Type 0
Reaches top ps = (p : Presence) × Memᴰ p ps × (p.present ≡ true) × (p.score ≡ top)

Bounds-mono : (a b : ℤ) (ps : List Presence) → a ≤ℤ b → Bounds a ps → Bounds b ps
Bounds-mono a b [] h s = tt
Bounds-mono a b (p ∷ ps) h s = (λ e. omega (arith, s.0 e), Bounds-mono a b ps h s.1)

decide_rises : (ps : List Presence) (d : Decision) → d.highest_score ≤ℤ (decide ps d).highest_score
unfolding decide
decide_rises [] d = omega arith
decide_rises (p ∷ ps) d = ground (arith, decide_rises ps (consider p d))

decide-Bounds : (ps : List Presence) (d : Decision) → Bounds (decide ps d).highest_score ps
unfolding decide
decide-Bounds [] d = tt
decide-Bounds (p ∷ ps) d =
    (λ e. ground (arith, decide_rises ps (consider p d)), decide-Bounds ps (consider p d))

-- Where the score comes from: from the start, or from a presence.
abbrev Attains : Decision → List Presence → Decision → Type 0
Attains d ps r =
    ((r.found ≡ d.found) × (r.highest_score ≡ d.highest_score) × (r.was_inserted ≡ d.was_inserted))
    ⊎ ((r.found ≡ true)
        × ((p : Presence) × Memᴰ p ps × (p.present ≡ true) × (p.score ≡ r.highest_score)))

Attains-cons :
    (p : Presence) (ps : List Presence) (d d' r : Decision)
    → (d' ≡ d) ⊎ ((p.present ≡ true) × (d'.found ≡ true) × (d'.highest_score ≡ p.score))
    → Attains d' ps r
    → Attains d (p ∷ ps) r
Attains-cons p ps d d' r (inl e) (inl (a, b, c)) =
    inl (a ∙ ap (λ x. x.found) e, b ∙ ap (λ x. x.highest_score) e, c ∙ ap (λ x. x.was_inserted) e)
Attains-cons p ps d d' r (inl e) (inr (f, (q, m, x, y))) = inr (f, (q, Memᴰ.tail m, x, y))
Attains-cons p ps d d' r (inr (x, y, z)) (inl (a, b, c)) =
    inr (a ∙ y, (p, Memᴰ.head refl, x, sym (b ∙ z)))
Attains-cons p ps d d' r (inr _) (inr (f, (q, m, x, y))) = inr (f, (q, Memᴰ.tail m, x, y))

decide-Attains : (ps : List Presence) (d : Decision) → Attains d ps (decide ps d)
unfolding decide
decide-Attains [] d = inl (refl, refl, refl)
decide-Attains (p ∷ ps) d =
    Attains-cons p ps d (consider p d) (decide ps (consider p d)) (ground arith)
      (decide-Attains ps (consider p d))

-- The score of a repair is the highest that any cluster reports for the key-member, as an insert
-- or as a delete, whenever one of these scores is not negative; and if none of the reported
-- scores is, nothing is found.
pub decide_highest :
    (ps : List Presence)
    → let d = decide ps undecided in
      Bounds d.highest_score ps
      × (((d.found ≡ true) × Reaches d.highest_score ps) ⊎ (d ≡ undecided))
decide_highest ps = (decide-Bounds ps undecided, go (decide-Attains ps undecided))
  where
    d : Decision
    d = decide ps undecided

    go : Attains undecided ps d → ((d.found ≡ true) × Reaches d.highest_score ps) ⊎ (d ≡ undecided)
    go (inl (a, b, c)) = inr (ground arith)
    go (inr found) = inl found

was_inserted_stays :
    (ps : List Presence) (d : Decision) → d.was_inserted ≡ true → (decide ps d).was_inserted ≡ true
unfolding decide
was_inserted_stays [] d h = h
was_inserted_stays (p ∷ ps) d h = was_inserted_stays ps (consider p d) (ground arith)

-- Once the first cluster reports an insert with a score that is not negative, the repair takes an
-- insert for the correct state, however much newer the deletes of the other clusters are.
pub stale_insert_wins :
    (p : Presence) (ps : List Presence)
    → p.present ≡ true
    → p.inserted ≡ true
    → pos 0 ≤ℤ p.score
    → (decide (p ∷ ps) undecided).was_inserted ≡ true
unfolding decide
stale_insert_wins p ps present inserted nonneg =
    was_inserted_stays ps (consider p undecided) (ground arith)

abbrev pub insert_at : ℤ → Presence
insert_at s = record { present = true; inserted = true; score = s }

abbrev pub delete_at : ℤ → Presence
delete_at s = record { present = true; inserted = false; score = s }

-- The correct state that a repair finds depends on the order of the clusters: for every insert
-- and every newer delete, of scores that are not negative, it is an insert at the score of the
-- delete if the cluster with the insert comes first, and the delete if it comes last.
pub decide_depends_on_order :
    (s t : ℤ)
    → pos 0 ≤ℤ s
    → s <ℤ t
    → (decide (insert_at s ∷ delete_at t ∷ []) undecided
        ≡ record { found = true; highest_score = t; was_inserted = true })
      × (decide (delete_at t ∷ insert_at s ∷ []) undecided
          ≡ record { found = true; highest_score = t; was_inserted = false })
unfolding decide
decide_depends_on_order s t h k = ground arith

-- Every score that is reported for the key-member is negative.
abbrev pub AllNegative : List Presence → Type 0
AllNegative ps = All (λ p. p.present ≡ true → p.score <ℤ pos 0) ps

negative_undecided : (ps : List Presence) → AllNegative ps → decide ps undecided ≡ undecided
unfolding decide
negative_undecided [] a = refl
negative_undecided (p ∷ ps) a = ground (arith, negative_undecided ps a.1, a.0)

-- A key-member whose scores are all negative is never repaired: whatever other key-members are repaired with
-- it, the plan of writes is the same as without it.
pub negative_never_found :
    (before after : List (KeyMember × List Presence)) (km : KeyMember) (ps : List Presence)
    (plan : Plan)
    → AllNegative ps
    → plan_repairs (before ++ (km, ps) ∷ after) plan ≡ plan_repairs (before ++ after) plan
unfolding plan_repairs
negative_never_found [] after km ps plan a =
    ap (λ d. plan_repairs after (plan_decided km d ps plan)) (negative_undecided ps a)
negative_never_found ((kn, qs) ∷ before) after km ps plan a =
    negative_never_found before after km ps _ a

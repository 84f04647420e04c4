-- ===== src/Cluster/Interleavings/Random/Shuffled.antt =====
-- A shuffle of RandomIntls.go gives an order of the array.
use mathlib.Core.List.{Perm}
use mathlib.Core.List.Perm
use er_pi_middleware25_artif.Base.{
  ℕ, zero, suc, ◌-◌, ◌<◌, ◌≡◌, refl, ◌∙◌, subst, List, [], ◌∷◌, some, length, get_elem?, set,
  length-set, get_elem?-set_self, get_elem?-set_ne, ℕ_discrete, arith,
}
use er_pi_middleware25_artif.Common.{Bytes}
use er_pi_middleware25_artif.Cluster.Interleavings.Random.{swap, shuffle_from, shuffle_array}

-- What rand.Intn promises: Intn(n) is below n.
abbrev pub InRange : (ℕ → ℕ) → Type 0
InRange rand = (n : ℕ) → 0 < n → rand n < n

at_index : (xs : List Bytes) (i : ℕ) → i < length xs → (x : Bytes) × (get_elem? xs i ≡ some x)
at_index [] i h = absurd (omega arith)
at_index (x ∷ xs) zero h = (x, refl)
at_index (x ∷ xs) (suc i) h = at_index xs i (omega arith)

-- Writing at an index exchanges the old element for the new.
set-Perm :
    (xs : List Bytes) (i : ℕ) (x v : Bytes)
    → get_elem? xs i ≡ some x
    → Perm (v ∷ xs) (x ∷ set xs i v)
set-Perm [] i x v e = cc
set-Perm (y ∷ ys) zero x v e =
    let h : y ≡ x = cc in subst (λ z. Perm (v ∷ y ∷ ys) (z ∷ v ∷ ys)) h (Perm.swap y v ys)
set-Perm (y ∷ ys) (suc i) x v e =
    Perm.trans (Perm.swap y v ys)
      (Perm.trans (Perm.cons y (set-Perm ys i x v e)) (Perm.swap x y (set ys i v)))

swap-Perm :
    (xs : List Bytes) (i j : ℕ)
    → i < length xs
    → j < length xs
    → (ys : List Bytes) × (swap xs i j ≡ some ys) × (length ys ≡ length xs) × Perm ys xs
unfolding swap
swap-Perm xs i j h k =
    let (a, p) = at_index xs i h in
    let (b, q) = at_index xs j k in
    let there : get_elem? (set xs i b) j ≡ some b = elim (ℕ_discrete i j) [
      | yes e ↦ subst (λ j. get_elem? (set xs i b) j ≡ some b) e (get_elem?-set_self xs i b h)
      | no n ↦ get_elem?-set_ne xs b n ∙ q
    ] in
    (
      set (set xs i b) j a,
      rw (swap, p, q) refl,
      length-set (set xs i b) j a ∙ length-set xs i b,
      Perm.cons_inv (
          Perm.trans (Perm.symm (set-Perm (set xs i b) j b a there))
            (Perm.symm (set-Perm xs i a b p))),
    )

shuffle_from-Perm :
    (rand : ℕ → ℕ) (i : ℕ) (xs : List Bytes)
    → InRange rand
    → i < length xs
    → (ys : List Bytes) × (shuffle_from rand i xs ≡ some ys) × Perm ys xs
unfolding shuffle_from
shuffle_from-Perm rand zero xs r h = (xs, refl, Perm.refl xs)
shuffle_from-Perm rand (suc i) xs r h =
    let j : rand (suc (suc i)) < suc (suc i) = r (suc (suc i)) (omega arith) in
    let (ys, e, l, p) = swap-Perm xs (suc i) (rand (suc (suc i))) h (omega arith) in
    let (zs, f, q) = shuffle_from-Perm rand i ys r (omega arith) in
    (zs, rw (shuffle_from, e) f, Perm.trans q p)

pub shuffle_array-Perm :
    (rand : ℕ → ℕ) (xs : List Bytes)
    → InRange rand
    → (ys : List Bytes) × (shuffle_array rand xs ≡ some ys) × Perm ys xs
unfolding shuffle_array shuffle_from
shuffle_array-Perm rand [] r = ([], refl, Perm.refl [])
shuffle_array-Perm rand (x ∷ xs) r =
    let same : length xs ≡ length (x ∷ xs) - 1 = omega arith in
    subst (λ i. (ys : List Bytes) × (shuffle_from rand i (x ∷ xs) ≡ some ys) × Perm ys (x ∷ xs))
      same (shuffle_from-Perm rand (length xs) (x ∷ xs) r (omega arith))

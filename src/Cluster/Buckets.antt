-- ===== src/Cluster/Buckets.antt =====
-- The bucketize and gather loops of Insert, Delete, Score and selectCommon in
-- roshi/cluster/cluster.go.
use mathlib.Core.List.Permᴰ
use mathlib.Core.Logic.{∥∥₁_elim}
use mathlib.Core.List.{Perm, Permᴰ, perm_middle, append_assoc, append-nil, filter}
use mathlib.Core.List.Perm
use er_pi_middleware25_artif.Base.{
  ℕ, ◌≡◌, refl, sym, List, [], ◌∷◌, ◌++◌, Option, none, some, ite, if_pos, if_neg, ℕ_discrete,
  arith, lookup, insert, lookup-insert, UniqueKeys, insert-UniqueKeys, ◌↔◌, subst, ap, ◌≢◌,
}
use er_pi_middleware25_artif.Common.{Bytes}

-- m[i], the zero value [] if there is none
abbrev pub bucket {ℓ} : {A : Type ℓ} → Option (List A) → List A
bucket none = []
bucket (some xs) = xs

pub bucket-some {ℓ} :
    {A : Type ℓ} (o : Option (List A)) (xs : List A) → bucket o ≡ xs → xs ≢ [] → o ≡ some xs
bucket-some none xs e n = absurd (n (sym e))
bucket-some (some ys) xs e n = ap some e

module _ {A : Type 0} (f : A → ℕ) where
  -- m[f(x)] = append(m[f(x)], x)
  pub append_at : A → List (ℕ × List A) → List (ℕ × List A)
  append_at x m = insert ℕ_discrete (f x) (bucket (lookup ℕ_discrete (f x) m) ++ x ∷ []) m

  unfoldable pub bucketize_from : List (ℕ × List A) → List A → List (ℕ × List A)
  unfolding append_at
  bucketize_from m [] = m
  bucketize_from m (x ∷ xs) = bucketize_from (append_at x m) xs

  unfoldable pub bucketize : List A → List (ℕ × List A)
  unfolding bucketize_from
  bucketize xs = bucketize_from [] xs

  -- The elements for instance `i`, in order.
  abbrev pub routed : ℕ → List A → List A
  routed i = filter (λ x. ℕ_discrete (f x) i)

  bucket-append_at :
      (x : A) (m : List (ℕ × List A)) (i : ℕ)
      → bucket (lookup ℕ_discrete i (append_at x m))
        ≡ bucket (lookup ℕ_discrete i m) ++ routed i (x ∷ [])
  unfolding append_at
  bucket-append_at x m i = ground (
    arith,
    lookup-insert ℕ_discrete (f x) i (bucket (lookup ℕ_discrete (f x) m) ++ x ∷ []) m,
    append-nil (bucket (lookup ℕ_discrete i m)),
  )

  bucket-bucketize_from :
      (m : List (ℕ × List A)) (xs : List A) (i : ℕ)
      → bucket (lookup ℕ_discrete i (bucketize_from m xs))
        ≡ bucket (lookup ℕ_discrete i m) ++ routed i xs
  unfolding bucketize_from
  bucket-bucketize_from m [] i = sym (append-nil _)
  bucket-bucketize_from m (x ∷ xs) i = ground (
    arith,
    bucket-bucketize_from (append_at x m) xs i,
    bucket-append_at x m i,
    append_assoc (bucket (lookup ℕ_discrete i m)) (x ∷ []) (routed i xs),
    append-nil (bucket (lookup ℕ_discrete i m)),
  )

  -- The bucket of an instance holds exactly the elements routed to it, in the order given.
  pub bucket-bucketize :
      (xs : List A) (i : ℕ) → bucket (lookup ℕ_discrete i (bucketize xs)) ≡ routed i xs
  unfolding bucketize lookup
  bucket-bucketize xs i = bucket-bucketize_from [] xs i

  bucketize_from-UniqueKeys :
      (m : List (ℕ × List A)) (xs : List A)
      → UniqueKeys ℕ_discrete m
      → UniqueKeys ℕ_discrete (bucketize_from m xs)
  unfolding bucketize_from append_at
  bucketize_from-UniqueKeys m [] u = u
  bucketize_from-UniqueKeys m (x ∷ xs) u =
      bucketize_from-UniqueKeys (append_at x m) xs (insert-UniqueKeys ℕ_discrete (f x) _ m u)

  -- An instance has one bucket at most.
  pub bucketize-UniqueKeys : (xs : List A) → UniqueKeys ℕ_discrete (bucketize xs)
  unfolding bucketize
  bucketize-UniqueKeys xs = bucketize_from-UniqueKeys [] xs tt

  abbrev pub contents : List (ℕ × List A) → List A
  contents [] = []
  contents ((i, xs) ∷ m) = xs ++ contents m

  append_at_cons :
      (x : A) (i : ℕ) (l : List A) (m : List (ℕ × List A))
      → append_at x ((i, l) ∷ m)
        ≡ ite (ℕ_discrete i (f x)) ((i, l ++ x ∷ []) ∷ m) ((i, l) ∷ append_at x m)
  unfolding append_at lookup insert
  append_at_cons x i l m = ground arith

  contents-append_at :
      (x : A) (m : List (ℕ × List A)) → Perm (contents (append_at x m)) (x ∷ contents m)
  unfolding append_at lookup insert
  contents-append_at x [] = Perm.refl _
  contents-append_at x ((i, l) ∷ m) = elim (ℕ_discrete i (f x)) [
    | yes p ↦
        rw (append_at_cons x i l m, if_pos _ p, append_assoc l (x ∷ []) (contents m))
          (perm_middle l (contents m))
    | no p ↦
        rw (append_at_cons x i l m, if_neg _ p)
          (Perm.trans (Perm.append_left l (contents-append_at x m)) (perm_middle l (contents m)))
  ]

  contents-bucketize_from :
      (m : List (ℕ × List A)) (xs : List A)
      → Perm (contents (bucketize_from m xs)) (contents m ++ xs)
  unfolding bucketize_from
  contents-bucketize_from m [] = subst (Perm (contents m)) (sym (append-nil _)) (Perm.refl _)
  contents-bucketize_from m (x ∷ xs) =
      Perm.trans (contents-bucketize_from (append_at x m) xs)
        (Perm.trans (Perm.append_right xs (contents-append_at x m)) (Perm.symm (perm_middle _ _)))

  -- All the buckets together hold every element exactly as often as it was given.
  pub contents-bucketize : (xs : List A) → Perm (contents (bucketize xs)) xs
  unfolding bucketize
  contents-bucketize xs = contents-bucketize_from [] xs

-- The gather loop over the channel of errors, in order of arrival: the first error, if any.
unfoldable pub gather {ℓ} : {E : Type ℓ} → List (Option E) → Option E
gather [] = none
gather (none ∷ rest) = gather rest
gather (some e ∷ rest) = some e

gather-permᴰ {ℓ} :
    {E : Type ℓ} (xs ys : List (Option E)) → Permᴰ xs ys → gather xs ≡ none → gather ys ≡ none
unfolding gather
gather-permᴰ _ _ Permᴰ.nil h = refl
gather-permᴰ _ _ (Permᴰ.cons {a = none} {l₁ = xs} {l₂ = ys} p q) h =
    rw (← p) (gather-permᴰ xs ys q h)
gather-permᴰ _ _ (Permᴰ.cons {a = some e} p q) h = cc
gather-permᴰ _ _ (Permᴰ.swap {a = none} {b = none} p q) h = rw (← p, ← q) h
gather-permᴰ _ _ (Permᴰ.swap {a = none} {b = some e} p q) h = cc
gather-permᴰ _ _ (Permᴰ.swap {a = some e} p q) h = cc
gather-permᴰ xs zs (Permᴰ.trans {l₂ = ys} p q) h = gather-permᴰ ys zs q (gather-permᴰ xs ys p h)

-- Whether the gather loop reports an error does not depend on the order of arrival.
pub gather-perm :
    (xs ys : List (Option Bytes)) → Perm xs ys → (gather xs ≡ none) ↔ (gather ys ≡ none)
gather-perm xs ys p = (
  λ h. ∥∥₁_elim p (hlevel) (λ q. gather-permᴰ xs ys q h),
  λ h. ∥∥₁_elim p (hlevel) (λ q. gather-permᴰ ys xs (Permᴰ.symm q) h),
)

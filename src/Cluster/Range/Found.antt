-- ===== src/Cluster/Range/Found.antt =====
-- The map of pages of one attempt of a cursor-based select: what it adds to the results, and the
-- keys that it leaves for the next.
use mathlib.Core.List.{Memᴰ}
use er_pi_middleware25_artif.Base.{
  ◌≡◌, ◌≢◌, refl, sym, ap, ◌∙◌, List, [], ◌∷◌, Option, none, some, All, arith, ◌⊎◌, inl, inr,
  lookup, insert, lookup-insert, Option-cases,
}
use er_pi_middleware25_artif.Common.{Bytes, Bytes-discrete, KeyScoreMember}
use er_pi_middleware25_artif.Cluster.Pipeline.{ResultMap}
use er_pi_middleware25_artif.Cluster.Range.{store, use_results, retry_keys}

pub All-intro {ℓ} :
    {A : Type ℓ} (P : A → Type ℓ) (xs : List A) → ((x : A) → Memᴰ x xs → P x) → All P xs
All-intro P [] h = tt
All-intro P (x ∷ xs) h = (h x (Memᴰ.head refl), All-intro P xs (λ y m. h y (Memᴰ.tail m)))

-- The pages of an attempt, in a map.
module _ (found : Bytes → Option (List KeyScoreMember)) where
  abbrev pub stores : ResultMap → List Bytes → ResultMap
  stores m [] = m
  stores m (key ∷ keys) = stores (store key (found key) m) keys

  abbrev pub missing : List Bytes → List Bytes
  missing [] = []
  missing (key ∷ keys) =
      let rest = missing keys in elim (found key) [ none ↦ key ∷ rest | some a ↦ rest ]

  -- The map holds nothing but what was found.
  abbrev pub IsFound : ResultMap → Bytes → Type 0
  IsFound m key = (lookup Bytes-discrete key m ≡ none) ⊎ (lookup Bytes-discrete key m ≡ found key)

  lookup-store :
      (key j : Bytes) (o : Option (List KeyScoreMember)) (m : ResultMap)
      → o ≡ found key
      → IsFound m j
      → IsFound (store key o m) j
        × (key ≡ j → lookup Bytes-discrete j (store key o m) ≡ found j)
        × (lookup Bytes-discrete j m ≡ found j → lookup Bytes-discrete j (store key o m) ≡ found j)
  lookup-store key j none m e h = ground arith
  lookup-store key j (some a) m e h = ground (arith, lookup-insert Bytes-discrete key j a m)

  stores-keep :
      (m : ResultMap) (keys : List Bytes) (j : Bytes)
      → lookup Bytes-discrete j m ≡ found j
      → lookup Bytes-discrete j (stores m keys) ≡ found j
  stores-keep m [] j h = h
  stores-keep m (key ∷ keys) j h =
      stores-keep (store key (found key) m) keys j
        ((lookup-store key j (found key) m refl (inr h)).2 h)

  pub lookup-stores :
      (m : ResultMap) (keys : List Bytes) (j : Bytes)
      → IsFound m j
      → Memᴰ j keys
      → lookup Bytes-discrete j (stores m keys) ≡ found j
  lookup-stores m [] j h mem = elim mem [ ]
  lookup-stores m (key ∷ keys) j h (Memᴰ.head e) =
      stores-keep (store key (found key) m) keys j
        ((lookup-store key j (found key) m refl h).1 (sym e))
  lookup-stores m (key ∷ keys) j h (Memᴰ.tail t) =
      lookup-stores (store key (found key) m) keys j (lookup-store key j (found key) m refl h).0 t

  pub retry_keys-missing :
      (m : ResultMap) (keys : List Bytes)
      → All (λ j. lookup Bytes-discrete j m ≡ found j) keys
      → retry_keys m keys ≡ missing keys
  unfolding retry_keys
  retry_keys-missing m [] a = refl
  retry_keys-missing m (key ∷ keys) a = ground (arith, retry_keys-missing m keys a.1)

  pub Memᴰ-missing :
      (j : Bytes) (keys : List Bytes) → found j ≡ none → Memᴰ j keys → Memᴰ j (missing keys)
  Memᴰ-missing j [] h mem = elim mem [ ]
  Memᴰ-missing j (key ∷ keys) h (Memᴰ.head e) =
      let here : found key ≡ none = ap found (sym e) ∙ h in rw (here, missing) (Memᴰ.head e)
  Memᴰ-missing j (key ∷ keys) h (Memᴰ.tail t) = elim (Option-cases (found key)) [
    | inl e ↦ rw (e, missing) (Memᴰ.tail (Memᴰ-missing j keys h t))
    | inr (a, e) ↦ rw (e, missing) (Memᴰ-missing j keys h t)
  ]

  pub use_results-keep :
      (m : ResultMap) (keys : List Bytes) (results : ResultMap) (j : Bytes)
      (v : List KeyScoreMember)
      → All (λ i. lookup Bytes-discrete i m ≡ found i) keys
      → (found j ≡ none) ⊎ (found j ≡ some v)
      → lookup Bytes-discrete j results ≡ some v
      → lookup Bytes-discrete j (use_results m keys results) ≡ some v
  unfolding use_results
  use_results-keep m [] results j v a f h = h
  use_results-keep m (key ∷ keys) results j v a f h = elim (Option-cases (found key)) [
    | inl e ↦ rw (a.0 ∙ e, use_results) (use_results-keep m keys results j v a.1 f h)
    | inr (b, e) ↦
        rw (a.0 ∙ e, use_results)
          (use_results-keep m keys (insert Bytes-discrete key b results) j v a.1 f
            (ground (arith, lookup-insert Bytes-discrete key j b results)))
  ]

  pub use_results-found :
      (m : ResultMap) (keys : List Bytes) (results : ResultMap) (j : Bytes)
      (v : List KeyScoreMember)
      → All (λ i. lookup Bytes-discrete i m ≡ found i) keys
      → found j ≡ some v
      → Memᴰ j keys
      → lookup Bytes-discrete j (use_results m keys results) ≡ some v
  unfolding use_results
  use_results-found m [] results j v a f mem = elim mem [ ]
  use_results-found m (key ∷ keys) results j v a f (Memᴰ.head e) =
      let here : found key ≡ some v = ap found (sym e) ∙ f in
      rw (a.0 ∙ here, use_results)
        (use_results-keep m keys (insert Bytes-discrete key v results) j v a.1 (inr f)
          (ground (arith, lookup-insert Bytes-discrete key j v results)))
  use_results-found m (key ∷ keys) results j v a f (Memᴰ.tail t) = elim (Option-cases (found key)) [
    | inl e ↦ rw (a.0 ∙ e, use_results) (use_results-found m keys results j v a.1 f t)
    | inr (b, e) ↦
        rw (a.0 ∙ e, use_results)
          (use_results-found m keys (insert Bytes-discrete key b results) j v a.1 f t)
  ]

  pub All-missing : (P : Bytes → Type 0) (keys : List Bytes) → All P keys → All P (missing keys)
  All-missing P [] a = tt
  All-missing P (key ∷ keys) a = ground (arith, All-missing P keys a.1)

  pub missing-nil : (keys : List Bytes) → All (λ j. found j ≢ none) keys → missing keys ≡ []
  missing-nil [] a = refl
  missing-nil (key ∷ keys) a = ground (arith, missing-nil keys a.1, a.0)

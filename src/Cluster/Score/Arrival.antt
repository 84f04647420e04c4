-- ===== src/Cluster/Score/Arrival.antt =====
-- Score of roshi/cluster/cluster.go against the answers of the instances.
use mathlib.Core.List.Permᴰ
use mathlib.Core.Logic.{∥∥₁_elim}
use mathlib.Core.List.{Perm, Permᴰ, Memᴰ}
use er_pi_middleware25_artif.Base.{
  ℕ, ◌≡◌, ◌≢◌, refl, List, [], ◌∷◌, none, some, arith, All, lookup, UniqueKeys, ℕ_discrete, inl,
  inr, sym, ap, ◌∙◌, subst,
}
use er_pi_middleware25_artif.Common.{Bytes, KeyMember, KeyMember-discrete}
use er_pi_middleware25_artif.Cluster.Buckets.{
  bucket, bucketize, routed, bucket-bucketize, bucketize-UniqueKeys, bucket-some,
}
use er_pi_middleware25_artif.Cluster.Conn.{Result, ok, err, Conn}
use er_pi_middleware25_artif.Cluster.Pipeline.{PresenceMap, pipeline_score}
use er_pi_middleware25_artif.Cluster.Score.{
  reached, responses, gather_presences, member_index, score, reported,
}
use er_pi_middleware25_artif.Cluster.Score.Merge.{
  IsUnique, Agrees, gather_presences_lem, All-permᴰ, Memᴰ-permᴰ,
}
use er_pi_middleware25_artif.Cluster.Score.Answers.{IsAnswer, pipeline_score-IsAnswer}

-- What holds of all that a lookup can find holds of all entries.
pub entries {κ} :
    {V : Type 0} (P : ℕ → V → Type κ) (m : List (ℕ × V))
    → UniqueKeys ℕ_discrete m
    → ((i : ℕ) (v : V) → lookup ℕ_discrete i m ≡ some v → P i v)
    → All (λ e. P e.0 e.1) m
unfolding lookup
entries P [] u h = tt
entries P ((j, w) ∷ m) u h =
    (h j w (ground arith), entries P m u.1 (λ i v e. h i v (ground (arith, u.0))))

module _ (index : Bytes → ℕ) (conns : ℕ → Result Conn) (kms : List KeyMember) (km : KeyMember) where
  pub asked : ℕ → List KeyMember
  asked i = routed (member_index index) i kms

  -- What the instance of the key of `km` reports, asked for all the key-members that it has.
  abbrev pub answer : Result PresenceMap
  answer =
      let i = index km.key in reached (conns i) (pipeline_score (routed (member_index index) i kms))

  pub asked-All :
      (i : ℕ) (xs : List KeyMember) → All (λ j. index j.key ≡ i) (routed (member_index index) i xs)
  asked-All i [] = tt
  asked-All i (x ∷ xs) = ground (arith, asked-All i xs)

  pub response-IsAnswer :
      (i : ℕ) (r : Result Conn)
      → IsAnswer (λ j. index j.key ≡ i) (reached r (pipeline_score (asked i)))
  unfolding asked
  response-IsAnswer i (err e) = tt
  response-IsAnswer i (ok c) =
      pipeline_score-IsAnswer (λ j. index j.key ≡ i) (asked i) c (asked-All i kms)

  pub answered :
      (IsAsked : KeyMember → Type 0) (r : Result PresenceMap) → IsAnswer IsAsked r → IsUnique r
  answered IsAsked (err e) a = tt
  answered IsAsked (ok m) a = a.0

  pub silent :
      (IsAsked : KeyMember → Type 0) (r : Result PresenceMap)
      → IsAnswer IsAsked r
      → ¬ IsAsked km
      → reported km r ≡ none
  silent IsAsked (err e) a n = refl
  silent IsAsked (ok m) a n = a.1 km n

  pub response-Agrees :
      (i : ℕ) → Agrees km (reported km answer) (reached (conns i) (pipeline_score (asked i)))
  unfolding asked
  response-Agrees i =
      let a = response-IsAnswer i (conns i) in
      let P = λ (j : KeyMember). index j.key ≡ i in
      (
        answered P _ a,
        elim (ℕ_discrete (index km.key) i) [
          | yes e ↦ inr (
              subst
                (λ j.
                  reported km (reached (conns j) (pipeline_score (asked j))) ≡ reported km answer)
                e refl)
          | no n ↦ inl (silent P _ a n)
        ],
      )

  pub responses-Agrees :
      (m : List (ℕ × List KeyMember))
      → All (λ e. e.1 ≡ asked e.0) m
      → All (Agrees km (reported km answer)) (responses conns m)
  responses-Agrees [] a = tt
  responses-Agrees ((i, xs) ∷ m) a = (
    subst (λ l. Agrees km (reported km answer) (reached (conns i) (pipeline_score l))) (sym a.0)
        (response-Agrees i),
    responses-Agrees m a.1,
  )

  pub responses-Memᴰ :
      (m : List (ℕ × List KeyMember)) (i : ℕ) (xs : List KeyMember)
      → lookup ℕ_discrete i m ≡ some xs
      → Memᴰ (reached (conns i) (pipeline_score xs)) (responses conns m)
  unfolding lookup
  responses-Memᴰ [] i xs e = cc
  responses-Memᴰ ((j, l) ∷ m) i xs e = elim (ℕ_discrete j i) [
    | yes p ↦ Memᴰ.head (ground arith)
    | no n ↦ Memᴰ.tail (responses-Memᴰ m i xs (ground arith))
  ]

  pub buckets : List (ℕ × List KeyMember)
  buckets = bucketize (member_index index) kms

  pub buckets-All : All (λ e. e.1 ≡ asked e.0) buckets
  unfolding buckets asked
  buckets-All =
      entries (λ i v. v ≡ asked i) buckets (bucketize-UniqueKeys (member_index index) kms)
        (λ i v e. ap bucket (sym e) ∙ bucket-bucketize (member_index index) kms i)

  pub asked-non_empty :
      (xs : List KeyMember) → Memᴰ km xs → routed (member_index index) (index km.key) xs ≢ []
  asked-non_empty [] h = elim h [ ]
  asked-non_empty (x ∷ xs) (Memᴰ.head e) = ground arith
  asked-non_empty (x ∷ xs) (Memᴰ.tail h) = ground (arith, asked-non_empty xs h)

  pub gather_presences-permᴰ :
      (rs : List (Result PresenceMap))
      → Memᴰ km kms
      → Permᴰ (responses conns buckets) rs
      → lookup KeyMember-discrete km (gather_presences [] rs) ≡ reported km answer
  unfolding buckets asked lookup
  gather_presences-permᴰ rs h p =
      gather_presences_lem km (reported km answer) [] answer rs
        (All-permᴰ _ p (responses-Agrees buckets buckets-All)) refl
        (Memᴰ-permᴰ p (
          responses-Memᴰ buckets (index km.key) (asked (index km.key)) (
            bucket-some _ _ (bucket-bucketize (member_index index) kms (index km.key))
              (asked-non_empty kms h))))
        refl

module _ (index : Bytes → ℕ) (conns : ℕ → Result Conn)
    (arrive : List (Result PresenceMap) → List (Result PresenceMap))
    (permutes : (xs : List (Result PresenceMap)) → Perm (arrive xs) xs) where
  -- Score reports of every key-member exactly what the instance of its own key reported when asked
  -- for all the key-members that hash to it, and nothing of it if this instance could not be
  -- reached or failed, whatever the other instances do and in whatever order they answer.
  pub score_lem :
      (kms : List KeyMember) (km : KeyMember)
      → Memᴰ km kms
      → lookup KeyMember-discrete km (score index conns arrive kms)
        ≡ reported km (answer index conns kms km)
  unfolding score buckets
  score_lem kms km h =
      ∥∥₁_elim (permutes (responses conns (buckets index conns kms km))) (hlevel ℕ_discrete)
        (λ p. gather_presences-permᴰ index conns kms km _ h (Permᴰ.symm p))

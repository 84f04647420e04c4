-- ===== src/Cluster/Scatter.antt =====
-- Insert and Delete of roshi/cluster/cluster.go over all instances: bucketize, scatter, gather.
use mathlib.Core.List.{Perm}
use er_pi_middleware25_artif.Base.{
  ℕ, ◌≡◌, ◌≢◌, refl, List, [], ◌∷◌, Option, none, some, arith, All, lookup, ℕ_discrete,
}
use er_pi_middleware25_artif.Common.{Bytes, KeyScoreMember}
use er_pi_middleware25_artif.Cluster.Script.{Side, inserts, deletes}
use er_pi_middleware25_artif.Cluster.Buckets.{
  bucketize, routed, bucket-bucketize, bucket-some, gather, gather-perm,
}
use er_pi_middleware25_artif.Cluster.Conn.{Error, Result, ok, err, Conn, M}
use er_pi_middleware25_artif.Cluster.Pipeline.{pipeline_insert, pipeline_delete}
use er_pi_middleware25_artif.Cluster.Pipeline.Writes.{Delivered, pipeline_writes-ok}

-- WithIndex: the error of the pool if it has no connection, or else what the function returns.
abbrev pub with_index : Result Conn → M (Unit {0}) → Option Error
with_index (err e) act = some e
with_index (ok c) act = elim (act c).0 [ ok _ ↦ none | err e ↦ some e ]

-- The answers of the goroutines, in the order of the buckets.
abbrev pub answers :
    (ℕ → Result Conn)
    → (List KeyScoreMember → M (Unit {0}))
    → List (ℕ × List KeyScoreMember)
    → List (Option Error)
answers conns act [] = []
answers conns act ((i, tuples) ∷ m) = with_index (conns i) (act tuples) ∷ answers conns act m

abbrev pub key_index : (Bytes → ℕ) → KeyScoreMember → ℕ
key_index index t = index t.key

-- `arrive` is the order in which the answers come.
module _ (index : Bytes → ℕ) (max_size : ℕ) (conns : ℕ → Result Conn)
    (arrive : List (Option Error) → List (Option Error)) where
  unfoldable pub insert_tuples : List KeyScoreMember → Option Error
  insert_tuples tuples =
      gather
        (arrive (answers conns (pipeline_insert max_size) (bucketize (key_index index) tuples)))

  unfoldable pub delete_tuples : List KeyScoreMember → Option Error
  delete_tuples tuples =
      gather
        (arrive (answers conns (pipeline_delete max_size) (bucketize (key_index index) tuples)))

gather-none-All : (xs : List (Option Error)) → gather xs ≡ none → All (λ x. x ≡ none) xs
unfolding gather
gather-none-All [] h = tt
gather-none-All (none ∷ xs) h = (refl, gather-none-All xs h)
gather-none-All (some e ∷ xs) h = cc

with_index-none :
    (r : Result Conn) (act : M (Unit {0}))
    → with_index r act ≡ none
    → (c : Conn) × (r ≡ ok c) × ((act c).0 ≡ ok tt)
with_index-none (err e) act h = cc
with_index-none (ok c) act h = (c, refl, ground arith)

-- The bucket of an instance succeeded.
answers-none :
    (conns : ℕ → Result Conn) (act : List KeyScoreMember → M (Unit {0}))
    (m : List (ℕ × List KeyScoreMember)) (i : ℕ) (tuples : List KeyScoreMember)
    → All (λ x. x ≡ none) (answers conns act m)
    → lookup ℕ_discrete i m ≡ some tuples
    → with_index (conns i) (act tuples) ≡ none
unfolding lookup
answers-none conns act [] i tuples a e = cc
answers-none conns act ((j, ts) ∷ m) i tuples a e =
    ground (arith, answers-none conns act m i tuples a.1)

module _ (index : Bytes → ℕ) (max_size : ℕ) (conns : ℕ → Result Conn)
    (arrive : List (Option Error) → List (Option Error))
    (permutes : (xs : List (Option Error)) → Perm (arrive xs) xs) (tuples : List KeyScoreMember)
    (i : ℕ) where
  -- What instance `i` is given.
  abbrev pub share : List KeyScoreMember
  share = routed (key_index index) i tuples

  -- The instance was reached, and got the script calls of its tuples.
  abbrev pub Reached : Side → (List KeyScoreMember → M (Unit {0})) → Type 0
  Reached side act = (c : Conn) × (conns i ≡ ok c) × Delivered side max_size share c (act share c).1

  shared :
      (act : List KeyScoreMember → M (Unit {0}))
      → gather (arrive (answers conns act (bucketize (key_index index) tuples))) ≡ none
      → share ≢ []
      → (c : Conn) × (conns i ≡ ok c) × ((act share c).0 ≡ ok tt)
  shared act h n =
      let m = bucketize (key_index index) tuples in
      with_index-none (conns i) (act share) (
        answers-none conns act m i share
          (gather-none-All _ ((gather-perm _ _ (permutes (answers conns act m))).0 h))
          (bucket-some (lookup ℕ_discrete i m) share (bucket-bucketize (key_index index) tuples i)
            n))

  -- Insert and Delete report success only when every instance that keys of the tuples hash to was
  -- reached and was given the script calls of exactly its own tuples, in the order given, in
  -- whatever order the instances answer.
  pub writes_reach :
      share ≢ []
      → (insert_tuples index max_size conns arrive tuples ≡ none
          → Reached inserts (pipeline_insert max_size))
        × (delete_tuples index max_size conns arrive tuples ≡ none
            → Reached deletes (pipeline_delete max_size))
  unfolding insert_tuples delete_tuples
  writes_reach n = (
    λ h.
        let (c, e, r) = shared (pipeline_insert max_size) h n in
        (c, e, (pipeline_writes-ok max_size share c).0 r),
    λ h.
        let (c, e, r) = shared (pipeline_delete max_size) h n in
        (c, e, (pipeline_writes-ok max_size share c).1 r),
  )

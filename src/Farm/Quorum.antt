-- ===== src/Farm/Quorum.antt =====
-- Insert and Delete of roshi/farm/farm.go over the clusters of roshi/cluster/cluster.go.

use mathlib.Core.Logic.{∥∥₁_elim}
use mathlib.Core.List.{Perm, Permᴰ}
use er_pi_middleware25_artif.Base.{
  ℕ, ◌+◌, ℕ_discrete, ◌≤◌, ◌≡◌, ◌≢◌, ◌↔◌, refl, ap, ◌∙◌, subst, List, [], ◌∷◌, Option, none, some,
  map, length, All, arith,
}
use er_pi_middleware25_artif.Common.{Bytes, KeyScoreMember}
use er_pi_middleware25_artif.Cluster.Script.{Side, inserts, deletes}
use er_pi_middleware25_artif.Cluster.Conn.{Error, Result, Conn, M}
use er_pi_middleware25_artif.Cluster.Pipeline.{pipeline_insert, pipeline_delete}
use er_pi_middleware25_artif.Cluster.Scatter.{
  insert_tuples, delete_tuples, share, Reached, writes_reach,
}
use er_pi_middleware25_artif.Farm.Write.{Written, write, successes, write_error_iff}

-- A cluster, with the connections that its pool gives and the order in which its instances answer.
pub record Cluster : Type 0 where
  pub index : Bytes → ℕ
  pub max_size : ℕ
  pub conns : ℕ → Result Conn
  pub arrive : List (Option Error) → List (Option Error)
  pub permutes : (xs : List (Option Error)) → Perm (arrive xs) xs

abbrev pub insert_into : List KeyScoreMember → Cluster → Option Error
insert_into tuples c = insert_tuples c.index c.max_size c.conns c.arrive tuples

abbrev pub delete_from : List KeyScoreMember → Cluster → Option Error
delete_from tuples c = delete_tuples c.index c.max_size c.conns c.arrive tuples

-- `arrive` is the order in which the clusters answer.
module _ (write_quorum : ℕ) (clusters : List Cluster)
    (arrive : List (Option Error) → List (Option Error)) where
  unfoldable pub insert : List KeyScoreMember → Written
  insert tuples = write write_quorum tuples (arrive (map (insert_into tuples) clusters))

  unfoldable pub delete : List KeyScoreMember → Written
  delete tuples = write write_quorum tuples (arrive (map (delete_from tuples) clusters))

-- The clusters whose answer is no error.
module _ (answer : Cluster → Option Error) where
  abbrev pub acknowledged : List Cluster → List Cluster
  acknowledged [] = []
  acknowledged (c ∷ cs) = elim (answer c) [ none ↦ c ∷ acknowledged cs | some e ↦ acknowledged cs ]

  successes-map : (cs : List Cluster) → successes (map answer cs) ≡ length (acknowledged cs)
  successes-map [] = refl
  successes-map (c ∷ cs) = ground (arith, successes-map cs)

  acknowledged-All :
      (P : Cluster → Type 0)
      → ((c : Cluster) → answer c ≡ none → P c)
      → (cs : List Cluster) → All P (acknowledged cs)
  acknowledged-All P h [] = tt
  acknowledged-All P h (c ∷ cs) = go (answer c) refl (acknowledged-All P h cs)
    where
      go :
          (o : Option Error)
          → answer c ≡ o
          → All P (acknowledged cs)
          → All P (elim o as (λ _. List Cluster) [
            | none ↦ c ∷ acknowledged cs
            | some e ↦ acknowledged cs
          ])
      go none e a = (h c e, a)
      go (some x) e a = a

weight : Option Error → ℕ
weight none = 1
weight (some e) = 0

successes-cons :
    (o : Option Error) (xs : List (Option Error)) → successes (o ∷ xs) ≡ weight o + successes xs
unfolding weight
successes-cons none xs = omega arith
successes-cons (some e) xs = omega arith

successes-permᴰ : (xs ys : List (Option Error)) → Permᴰ xs ys → successes xs ≡ successes ys
successes-permᴰ _ _ Permᴰ.nil = refl
successes-permᴰ _ _ (Permᴰ.cons {a = a} {b = b} {l₁ = xs} {l₂ = ys} e p) =
    omega (arith, successes-cons a xs, successes-cons b ys, ap weight e, successes-permᴰ xs ys p)
successes-permᴰ _ _ (Permᴰ.swap {a = a} {b = b} {a' = c} {b' = d} {l = xs} e f) = omega (
  arith,
  successes-cons a (b ∷ xs),
  successes-cons b xs,
  successes-cons c (d ∷ xs),
  successes-cons d xs,
  ap weight e,
  ap weight f,
)
successes-permᴰ xs zs (Permᴰ.trans {l₂ = ys} p q) =
    successes-permᴰ xs ys p ∙ successes-permᴰ ys zs q

successes-perm : (xs ys : List (Option Error)) → Perm xs ys → successes xs ≡ successes ys
successes-perm xs ys p = ∥∥₁_elim p (hlevel ℕ_discrete) (λ q. successes-permᴰ xs ys q)

-- Every instance to which keys of the tuples hash was reached, and got the script calls of its own
-- tuples.
abbrev pub IsStored :
    Side → (ℕ → List KeyScoreMember → M (Unit {0})) → List KeyScoreMember → Cluster → Type 0
IsStored side pipeline tuples c =
    (i : ℕ)
    → share c.index c.max_size c.conns c.arrive c.permutes tuples i ≢ []
    → Reached c.index c.max_size c.conns c.arrive c.permutes tuples i side (pipeline c.max_size)

module _ (write_quorum : ℕ) (clusters : List Cluster)
    (arrive : List (Option Error) → List (Option Error))
    (permutes : (xs : List (Option Error)) → Perm (arrive xs) xs) where
  -- An Insert or a Delete of the farm succeeds exactly when at least writeQuorum of the clusters
  -- acknowledge it, in whatever order they answer; and a cluster that acknowledges has given every
  -- instance to which keys of the tuples hash the script calls of all its tuples, in order.
  pub writes-IsStored :
      (t : KeyScoreMember) (ts : List KeyScoreMember)
      → let tuples = t ∷ ts in
        let a = acknowledged (insert_into tuples) clusters in
        let b = acknowledged (delete_from tuples) clusters in
        (((insert write_quorum clusters arrive tuples).error ≡ none) ↔ (write_quorum ≤ length a))
        × All (IsStored inserts pipeline_insert tuples) a
        × (((delete write_quorum clusters arrive tuples).error ≡ none) ↔ (write_quorum ≤ length b))
        × All (IsStored deletes pipeline_delete tuples) b
  unfolding insert delete
  writes-IsStored t ts = (
    quorum (insert_into (t ∷ ts)),
    acknowledged-All (insert_into (t ∷ ts)) _
        (λ c e i n. (writes_reach c.index c.max_size c.conns c.arrive c.permutes (t ∷ ts) i n).0 e)
        clusters,
    quorum (delete_from (t ∷ ts)),
    acknowledged-All (delete_from (t ∷ ts)) _
        (λ c e i n. (writes_reach c.index c.max_size c.conns c.arrive c.permutes (t ∷ ts) i n).1 e)
        clusters,
  )
    where
      quorum :
          (answer : Cluster → Option Error)
          → ((write write_quorum (t ∷ ts) (arrive (map answer clusters))).error ≡ none)
            ↔ (write_quorum ≤ length (acknowledged answer clusters))
      quorum answer =
          subst
            (λ n.
              ((write write_quorum (t ∷ ts) (arrive (map answer clusters))).error ≡ none)
              ↔ (write_quorum ≤ n))
            (successes-perm _ _ (permutes (map answer clusters)) ∙ successes-map answer clusters)
            (write_error_iff write_quorum t ts (arrive (map answer clusters)))

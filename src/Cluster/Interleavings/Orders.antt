-- ===== src/Cluster/Interleavings/Orders.antt =====
-- What dfs of roshi/cluster/DFS.go prints: the orders of the events, and nothing else.
use mathlib.Core.List.{Perm, append_assoc, append-nil}
use mathlib.Core.List.Perm
use er_pi_middleware25_artif.Base.{
  ℕ, zero, suc, ◌≡◌, inl, inr, refl, subst, List, [], ◌∷◌, ◌++◌, length, Bool-cases, All,
}
use er_pi_middleware25_artif.Common.{Bytes, Bytes-discrete}
use er_pi_middleware25_artif.Farm.Sets.{has}
use er_pi_middleware25_artif.Cluster.Interleavings.{join, Search, children, dfs, interleavings}
use er_pi_middleware25_artif.Cluster.Interleavings.Paths.{IsPlain}
use er_pi_middleware25_artif.Cluster.Interleavings.Known.{IsPrinted}
use er_pi_middleware25_artif.Cluster.Interleavings.Complete.{
  seen, unseen, move, interleavings_complete,
}

module _ (events : List Bytes) where
  -- The text of an order of the events.
  abbrev pub IsOrder : Bytes → Type 0
  IsOrder text = (q : List Bytes) × Perm q events × (text ≡ join q)

  abbrev Keeps : (List Bytes → List Bytes → Search → Search) → Type 0
  Keeps explore =
      (path rest : List Bytes) (s : Search)
      → Perm (path ++ rest) events
      → All IsOrder s.printed
      → All IsOrder (explore path rest s).printed

  children-Keeps :
      (explore : List Bytes → List Bytes → Search → Search)
      → Keeps explore
      → (path before after : List Bytes) (s : Search) → Perm (path ++ (before ++ after)) events
      → All IsOrder s.printed
      → All IsOrder (children explore path before after s).printed
  unfolding children
  children-Keeps explore f path before [] s p a = a
  children-Keeps explore f path before (x ∷ after) s p a =
      let next = λ (t : Search) (b : All IsOrder t.printed).
        children-Keeps explore f path (before ++ x ∷ []) after t
          (rw (append_assoc before (x ∷ []) after) p) b in
      elim (Bool-cases (has Bytes-discrete (join (path ++ x ∷ [])) s.visited)) [
        | inl h ↦ rw (seen events explore path before x after s h) (next s a)
        | inr h ↦
            rw (unseen events explore path before x after s h) (
              next _ (f (path ++ x ∷ []) (before ++ after) _ (move events path before x after p) a))
      ]

  pub All-last :
      (P : Bytes → Type 0) (xs : List Bytes) (x : Bytes) → All P xs → P x → All P (xs ++ x ∷ [])
  All-last P [] x a b = (b, tt)
  All-last P (y ∷ xs) x a b = (a.0, All-last P xs x a.1 b)

  dfs-Keeps : (n : ℕ) → Keeps (dfs n)
  unfolding dfs
  dfs-Keeps n path [] s p a =
      All-last IsOrder s.printed (join path) a
        (path, subst (λ q. Perm q events) (append-nil path) p, refl)
  dfs-Keeps zero path (x ∷ rest) s p a = a
  dfs-Keeps (suc n) path (x ∷ rest) s p a =
      children-Keeps (dfs n) (dfs-Keeps n) path [] (x ∷ rest) s p a

  -- Events without commas: dfs prints every order of the events, also if some are equal, and each line
  -- that it prints is an order of them.
  pub interleavings_lem :
      All IsPlain events
      → ((order : List Bytes) → Perm order events → IsPrinted (interleavings events) (join order))
        × All IsOrder (interleavings events)
  unfolding interleavings
  interleavings_lem plain = (
    interleavings_complete events plain,
    dfs-Keeps (length events) [] events (record { visited = []; printed = [] }) (Perm.refl events)
        tt,
  )

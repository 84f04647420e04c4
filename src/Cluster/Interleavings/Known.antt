-- ===== src/Cluster/Interleavings/Known.antt =====
-- The paths that the search of roshi/cluster/DFS.go has visited, and those that it is done with.

use mathlib.Core.List.{Perm, Memᴰ, append_assoc}
use mathlib.Core.List.Perm
use er_pi_middleware25_artif.Base.{
  ◌≡◌, ◌≢◌, ◌⊎◌, inl, inr, sym, ap, ◌∙◌, subst, List, [], ◌∷◌, ◌++◌, true, All, arith,
}
use er_pi_middleware25_artif.Common.{Bytes, Bytes-discrete}
use er_pi_middleware25_artif.Farm.Sets.{has, has→Memᴰ}
use er_pi_middleware25_artif.Cluster.Interleavings.{join, Search}
use er_pi_middleware25_artif.Cluster.Interleavings.Paths.{
  IsPlain, join_injective, prefix_cases, append-ne, not_longer,
}

abbrev pub IsPrinted : List Bytes → Bytes → Type 0
IsPrinted printed text = has Bytes-discrete text printed ≡ true

pub has-append_left : (t : Bytes) (xs ys : List Bytes) → IsPrinted xs t → IsPrinted (xs ++ ys) t
unfolding has
has-append_left t [] ys h = cc
has-append_left t (x ∷ xs) ys h = ground (arith, has-append_left t xs ys)

pub has-append_last : (t : Bytes) (xs : List Bytes) → IsPrinted (xs ++ t ∷ []) t
unfolding has
has-append_last t [] = ground arith
has-append_last t (x ∷ xs) = ground (arith, has-append_last t xs)

pub append_inv : (path xs ys : List Bytes) → Perm (path ++ xs) (path ++ ys) → Perm xs ys
append_inv [] xs ys p = p
append_inv (a ∷ path) xs ys p = append_inv path xs ys (Perm.cons_inv p)

module _ (events : List Bytes) where
  -- Every order of the events that begins with the path is printed.
  abbrev pub IsDone : List Bytes → List Bytes → Type 0
  IsDone printed path =
      (q : List Bytes) → Perm (path ++ q) events → IsPrinted printed (join (path ++ q))

  -- A visited text is that of a beginning of the path that is being explored, or of a path that is done.
  abbrev pub IsKnown : List Bytes → List Bytes → Bytes → Type 0
  IsKnown path printed text =
      (p : List Bytes) × (text ≡ join p)
      × All IsPlain p
      × (p ≢ [])
      × (((r : List Bytes) × (path ≡ p ++ r)) ⊎ IsDone printed p)

  abbrev pub Grows : List Bytes → List Bytes → Type 0
  Grows xs ys = (t : Bytes) → IsPrinted xs t → IsPrinted ys t

  pub record IsExplored (path : List Bytes) (s t : Search) : Type 0 where
    pub grows : Grows s.printed t.printed
    pub done : IsDone t.printed path
    pub known : All (IsKnown path t.printed) t.visited

  pub IsKnown-Grows :
      (path xs ys : List Bytes)
      → Grows xs ys
      → (vs : List Bytes) → All (IsKnown path xs) vs
      → All (IsKnown path ys) vs
  IsKnown-Grows path xs ys g [] a = tt
  IsKnown-Grows path xs ys g (v ∷ vs) a = (go a.0, IsKnown-Grows path xs ys g vs a.1)
    where
      go : IsKnown path xs v → IsKnown path ys v
      go (p, e, c, n, inl r) = (p, e, c, n, inl r)
      go (p, e, c, n, inr d) = (p, e, c, n, inr (λ q h. g _ (d q h)))

  pub IsKnown-deeper :
      (path xs : List Bytes) (x : Bytes) (vs : List Bytes)
      → All (IsKnown path xs) vs
      → All (IsKnown (path ++ x ∷ []) xs) vs
  IsKnown-deeper path xs x [] a = tt
  IsKnown-deeper path xs x (v ∷ vs) a = (go a.0, IsKnown-deeper path xs x vs a.1)
    where
      go : IsKnown path xs v → IsKnown (path ++ x ∷ []) xs v
      go (p, e, c, n, inl (r, h)) =
          (p, e, c, n, inl (r ++ x ∷ [], rw (h) (append_assoc p r (x ∷ []))))
      go (p, e, c, n, inr d) = (p, e, c, n, inr d)

  pub IsKnown-back :
      (path xs : List Bytes) (x : Bytes)
      → IsDone xs (path ++ x ∷ [])
      → (vs : List Bytes) → All (IsKnown (path ++ x ∷ []) xs) vs
      → All (IsKnown path xs) vs
  IsKnown-back path xs x d [] a = tt
  IsKnown-back path xs x d (v ∷ vs) a = (go a.0, IsKnown-back path xs x d vs a.1)
    where
      go : IsKnown (path ++ x ∷ []) xs v → IsKnown path xs v
      go (p, e, c, n, inr f) = (p, e, c, n, inr f)
      go (p, e, c, n, inl (r, h)) = elim (prefix_cases path x p r h) [
        | inl q ↦ (p, e, c, n, inr (subst (IsDone xs) (sym q) d))
        | inr (s, q) ↦ (p, e, c, n, inl (s, q))
      ]

  pub known_at : (P : Bytes → Type 0) (vs : List Bytes) (v : Bytes) → Memᴰ v vs → All P vs → P v
  known_at P [] v m a = elim m [ ]
  known_at P (w ∷ vs) v (Memᴰ.head e) a = subst P (sym e) a.0
  known_at P (w ∷ vs) v (Memᴰ.tail m) a = known_at P vs v m a.1

  -- A path that is visited before it is explored is done.
  pub visited_done :
      (path : List Bytes) (x : Bytes) (s : Search)
      → All IsPlain (path ++ x ∷ [])
      → All (IsKnown path s.printed) s.visited
      → has Bytes-discrete (join (path ++ x ∷ [])) s.visited ≡ true
      → IsDone s.printed (path ++ x ∷ [])
  visited_done path x s c a h =
      go (known_at (IsKnown path s.printed) s.visited _ (has→Memᴰ Bytes-discrete _ s.visited h) a)
    where
      go : IsKnown path s.printed (join (path ++ x ∷ [])) → IsDone s.printed (path ++ x ∷ [])
      go (p, e, k, n, o) =
          let same = join_injective (path ++ x ∷ []) p (append-ne path x) n c k e in
          elim o [
            | inl (r, f) ↦ absurd (not_longer path x r (f ∙ ap (λ z. z ++ r) (sym same)))
            | inr d ↦ subst (IsDone s.printed) (sym same) d
          ]

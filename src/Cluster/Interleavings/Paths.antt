-- ===== src/Cluster/Interleavings/Paths.antt =====
-- Paths of events and their texts, as roshi/cluster/DFS.go joins them.
use er_pi_middleware25_artif.Base.{
  ◌≡◌, ◌≢◌, ◌⊎◌, inl, inr, refl, sym, ap, ◌∙◌, List, [], ◌∷◌, ◌++◌, ◌==◌, false, All, arith,
}
use er_pi_middleware25_artif.Common.{Bytes}
use er_pi_middleware25_artif.Farm.Declaration.{split}
use er_pi_middleware25_artif.Cluster.Interleavings.{join}

-- An event without the separator.
abbrev pub IsPlain : Bytes → Type 0
IsPlain e = All (λ c. (c == b',') ≡ false) e

split_last : (e : Bytes) → IsPlain e → split b',' e ≡ e ∷ []
unfolding split
split_last [] h = refl
split_last (c ∷ e) h = ground (arith, split_last e h.1)

split_first : (e rest : Bytes) → IsPlain e → split b',' (e ++ b',' ∷ rest) ≡ e ∷ split b',' rest
unfolding split
split_first [] rest h = refl
split_first (c ∷ e) rest h = ground (arith, split_first e rest h.1)

split-join :
    (e : Bytes) (path : List Bytes)
    → All IsPlain (e ∷ path)
    → split b',' (join (e ∷ path)) ≡ e ∷ path
unfolding join
split-join e [] h = split_last e h.0
split-join e (f ∷ path) h =
    split_first e (join (f ∷ path)) h.0 ∙ ap (λ p. e ∷ p) (split-join f path h.1)

-- A path that is not empty is known by its text.
pub join_injective :
    (p q : List Bytes) → p ≢ [] → q ≢ [] → All IsPlain p → All IsPlain q → join p ≡ join q → p ≡ q
join_injective [] q m n h k e = absurd (m refl)
join_injective (a ∷ p) [] m n h k e = absurd (n refl)
join_injective (a ∷ p) (b ∷ q) m n h k e =
    sym (split-join a p h) ∙ ap (split b',') e ∙ split-join b q k

-- A beginning of a path that is longer by one event.
pub prefix_cases :
    (path : List Bytes) (x : Bytes) (p r : List Bytes)
    → path ++ x ∷ [] ≡ p ++ r
    → (p ≡ path ++ x ∷ []) ⊎ ((s : List Bytes) × (path ≡ p ++ s))
prefix_cases path x [] r e = inr (path, refl)
prefix_cases [] x (y ∷ []) r e = inl (cc)
prefix_cases [] x (y ∷ z ∷ p) r e = cc
prefix_cases (a ∷ path) x (y ∷ p) r e =
    let h : a ≡ y = cc in
    let t : path ++ x ∷ [] ≡ p ++ r = cc in
    elim (prefix_cases path x p r t) [
      | inl q ↦ inl (rw (h, q) refl)
      | inr (s, q) ↦ inr (s, rw (h, q) refl)
    ]

pub append-ne : (path : List Bytes) (x : Bytes) → path ++ x ∷ [] ≢ []
append-ne [] x e = cc
append-ne (a ∷ path) x e = cc

pub not_longer : (path : List Bytes) (x : Bytes) (r : List Bytes) → path ≢ (path ++ x ∷ []) ++ r
not_longer [] x r e = cc
not_longer (a ∷ path) x r e = not_longer path x r (cc)

pub All-append : (xs ys : List Bytes) → All IsPlain xs → All IsPlain ys → All IsPlain (xs ++ ys)
All-append [] ys a b = b
All-append (x ∷ xs) ys a b = (a.0, All-append xs ys a.1 b)

-- ===== src/Farm/Reads/Responses/Page.antt =====
-- The page that orderedLimitedSlice of roshi/farm/farm.go cuts from the union of the answers.
use mathlib.Core.List.{Perm, append-nil}
use mathlib.Core.Logic.{∥∥₁_elim}
use er_pi_middleware25_artif.Base.{
  ℕ, zero, suc, false, length-permᴰ, ◌≡◌, ◌≢◌, ◌⊎◌, inl, inr, min, refl, sym, ap, ◌∙◌, subst, List,
  [], ◌∷◌, ◌++◌, Option, none, some, length, take, drop, take-append-drop, ltb, Bool-cases, arith,
}
use er_pi_middleware25_artif.Common.{Bytes, KeyScoreMember}
use er_pi_middleware25_artif.Farm.Sets.{TupleSet, ordered_limited_slice}
use er_pi_middleware25_artif.Farm.Union.{union_difference}
use er_pi_middleware25_artif.Cluster.Select.{Element}
use er_pi_middleware25_artif.Farm.Reads.Responses.{answers_of, extended, map_sets}
use er_pi_middleware25_artif.Server.Order.{farm_less, IsOrdered}

-- What sort.Sort promises, given the farm's Less.
pub record SortsFarm (sort : List KeyScoreMember → List KeyScoreMember) : Type 0 where
  pub permutes : (xs : List KeyScoreMember) → Perm (sort xs) xs
  pub orders : (xs : List KeyScoreMember) → IsOrdered farm_less (sort xs)

-- The first `limit` tuples in an order of the union by falling score; all of them if there are fewer.
pub record IsPage (limit : ℕ) (union page : List KeyScoreMember) : Type 0 where
  pub others : List KeyScoreMember
  pub permutes : Perm (page ++ others) union
  pub orders : IsOrdered farm_less (page ++ others)
  pub size : length page ≡ min limit (length union)

length-take : (n : ℕ) (xs : List KeyScoreMember) → length (take n xs) ≡ min n (length xs)
length-take zero xs = omega arith
length-take (suc n) [] = omega arith
length-take (suc n) (x ∷ xs) = omega (arith, length-take n xs)

all_fit : (limit a n : ℕ) → ltb limit a ≡ false → a ≡ n → n ≡ min limit n
all_fit limit a n h e = ground arith

pub slice-IsPage :
    (sort : List KeyScoreMember → List KeyScoreMember) (limit : ℕ) (union : TupleSet)
    → SortsFarm sort
    → IsPage limit union (ordered_limited_slice sort limit union)
unfolding ordered_limited_slice
slice-IsPage sort limit union s =
    let a = sort union in
    let same : length a ≡ length union =
      ∥∥₁_elim (s.permutes union) (hlevel) (length-permᴰ a union) in
    elim (Bool-cases (ltb limit (length a))) [
      | inl h ↦ rw (h) (record {
        others = drop limit a;
        permutes = subst (λ xs. Perm xs union) (sym (take-append-drop limit a)) (s.permutes union);
        orders = subst (IsOrdered farm_less) (sym (take-append-drop limit a)) (s.orders union);
        size = length-take limit a ∙ ap (min limit) same;
      })
      | inr h ↦ rw (h) (record {
        others = [];
        permutes = subst (λ xs. Perm xs union) (sym (append-nil a)) (s.permutes union);
        orders = subst (IsOrdered farm_less) (sym (append-nil a)) (s.orders union);
        size = same ∙ all_fit limit (length a) (length union) h same;
      })
    ]

-- What is returned for a key: nothing without an answer, and else a page of the union of its answers.
pub Answered : ℕ → Bytes → List Element → Option (List KeyScoreMember) → Type 0
Answered limit k es o =
    ((answers_of k es ≡ []) × (o ≡ none))
    ⊎ ((answers_of k es ≢ [])
        × ((page : List KeyScoreMember) × (o ≡ some page)
            × IsPage limit (union_difference (answers_of k es)).0 page))

pub sets-Answered :
    (sort : List KeyScoreMember → List KeyScoreMember) (limit : ℕ) (k : Bytes) (es : List Element)
    (o : Option (List KeyScoreMember))
    → SortsFarm sort
    → o
      ≡ map_sets
          (λ sets. ordered_limited_slice sort limit (union_difference sets).0)
          (extended none (answers_of k es))
    → Answered limit k es o
unfolding Answered
sets-Answered sort limit k es o s e = go (answers_of k es) refl
  where
    cut : List TupleSet → Option (List KeyScoreMember)
    cut a =
        map_sets (λ sets. ordered_limited_slice sort limit (union_difference sets).0)
          (extended none a)

    go :
        (a : List TupleSet)
        → answers_of k es ≡ a
        → ((answers_of k es ≡ []) × (o ≡ none))
          ⊎ ((answers_of k es ≢ [])
              × ((page : List KeyScoreMember) × (o ≡ some page)
                  × IsPage limit (union_difference (answers_of k es)).0 page))
    go [] q = inl (q, e ∙ ap cut q)
    go (x ∷ xs) q = inr (
      (λ n. let c = sym n ∙ q in cc),
      (
        ordered_limited_slice sort limit (union_difference (answers_of k es)).0,
        e
            ∙ ap cut q
            ∙ sym (ap some (ap (λ a. ordered_limited_slice sort limit (union_difference a).0) q)),
        slice-IsPage sort limit (union_difference (answers_of k es)).0 s,
      ),
    )

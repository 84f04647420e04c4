-- ===== src/Farm/Sets.antt =====
-- tupleSet and keyMemberSet of roshi/farm/farm.go: Go maps with empty values, as lists of keys.
use mathlib.Core.List.{Memᴰ}
use er_pi_middleware25_artif.Base.{
  ℕ, ◌≡◌, refl, List, [], ◌∷◌, Bool, true, false, ite, if◌then◌else◌, length, take, arith, sym, ltb,
}
use er_pi_middleware25_artif.Common.{KeyScoreMember, KeyMember}

module _ {A : Type 0} (dec : Discrete A) where
  -- s[x] = struct{}{}
  unfoldable pub add : A → List A → List A
  add x [] = x ∷ []
  add x (y ∷ ys) = ite (dec y x) (y ∷ ys) (y ∷ add x ys)

  unfoldable pub has : A → List A → Bool
  has x [] = false
  has x (y ∷ ys) = ite (dec y x) true (has x ys)

  unfoldable pub add_many : List A → List A → List A
  add_many s [] = s
  add_many s (x ∷ xs) = add_many (add x s) xs

  unfoldable pub make_set : List A → List A
  unfolding add_many
  make_set xs = add_many [] xs

  pub has-add : (x j : A) (s : List A) → has j (add x s) ≡ ite (dec x j) true (has j s)
  unfolding has add
  has-add x j [] = refl
  has-add x j (y ∷ ys) = ground (arith, has-add x j ys)

  -- The set of the elements of a list has exactly these, and add_many is the union.
  pub has-add_many :
      (j : A) (s xs : List A) → has j (add_many s xs) ≡ (if has j s then true else has j xs)
  unfolding has add_many
  has-add_many j s [] = ground arith
  has-add_many j s (x ∷ xs) = ground (arith, has-add_many j (add x s) xs, has-add x j s)

  pub has-make_set : (j : A) (xs : List A) → has j (make_set xs) ≡ has j xs
  unfolding has make_set
  has-make_set j xs = has-add_many j [] xs

  pub has→Memᴰ : (x : A) (s : List A) → has x s ≡ true → Memᴰ x s
  unfolding has
  has→Memᴰ x [] h = cc
  has→Memᴰ x (y ∷ ys) h = elim (dec y x) [
    | yes p ↦ Memᴰ.head (sym p)
    | no p ↦ Memᴰ.tail (has→Memᴰ x ys (ground arith))
  ]

  pub Memᴰ→has : (x : A) (s : List A) → Memᴰ x s → has x s ≡ true
  unfolding has
  Memᴰ→has x [] h = elim h [ ]
  Memᴰ→has x (y ∷ ys) (Memᴰ.head p) = ground arith
  Memᴰ→has x (y ∷ ys) (Memᴰ.tail t) = ground (arith, Memᴰ→has x ys t)

  -- No element stands twice.
  abbrev pub Distinct : List A → Type 0
  Distinct [] = Unit
  Distinct (x ∷ xs) = (has x xs ≡ false) × Distinct xs

  pub add-Distinct : (x : A) (s : List A) → Distinct s → Distinct (add x s)
  unfolding has add
  add-Distinct x [] d = (refl, tt)
  add-Distinct x (y ∷ ys) d = ground (arith, add-Distinct x ys d.1, has-add x y ys)

  pub add_many-Distinct : (s xs : List A) → Distinct s → Distinct (add_many s xs)
  unfolding add_many
  add_many-Distinct s [] d = d
  add_many-Distinct s (x ∷ xs) d = add_many-Distinct (add x s) xs (add-Distinct x s d)

  pub make_set-Distinct : (xs : List A) → Distinct (make_set xs)
  unfolding make_set
  make_set-Distinct xs = add_many-Distinct [] xs tt

abbrev pub TupleSet : Type 0
TupleSet = List KeyScoreMember

abbrev pub KeyMemberSet : Type 0
KeyMemberSet = List KeyMember

-- sort.Sort(keyScoreMembers(a)) and the cut to the limit. The sort is a parameter; the theorems on what a read
-- returns assume of it what sort.Sort promises for Less of farm/farm.go, Server/Order.farm_less.
module _ (sort : List KeyScoreMember → List KeyScoreMember) where
  unfoldable pub ordered_limited_slice : ℕ → TupleSet → List KeyScoreMember
  ordered_limited_slice limit s = let a = sort s in if ltb limit (length a) then take limit a else a

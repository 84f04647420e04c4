-- ===== src/Cluster/Interleavings/Random/Visits.antt =====
-- The loop of randomInterleave in roshi/cluster/RandomIntls.go: what it prints, and when it ends.
use mathlib.Core.List.{Perm}
use er_pi_middleware25_artif.Base.{
  ℕ, zero, suc, ◌+◌, ◌*◌, ◌-◌, ◌%◌, ◌^◌, ◌<◌, ◌≤◌, ◌≡◌, inl, inr, refl, sym, ap, ◌∙◌, subst, List,
  [], ◌∷◌, ◌++◌, length, length-append, All, Bool-cases, false, ltb, lt→ltb, arith,
}
use er_pi_middleware25_artif.Common.{Bytes, Bytes-discrete}
use er_pi_middleware25_artif.Farm.Sets.{has, Distinct}
use er_pi_middleware25_artif.Cluster.Interleavings.{join, Search}
use er_pi_middleware25_artif.Cluster.Interleavings.Orders.{IsOrder, All-last}
use er_pi_middleware25_artif.Cluster.Interleavings.Random.{
  factorial, factorial_from, less_int, Outcome, runs, ends, visit, random_interleave,
}
use er_pi_middleware25_artif.Cluster.Interleavings.Random.Shuffled.{InRange, shuffle_array-Perm}

-- The product of the numbers from 1 to n.
abbrev pub product : ℕ → ℕ
product zero = 1
product (suc n) = suc n * product n

has-append_one :
    (x t : Bytes) (xs : List Bytes)
    → has Bytes-discrete t (xs ++ x ∷ []) ≡ has Bytes-discrete t (x ∷ xs)
unfolding has
has-append_one x t [] = refl
has-append_one x t (y ∷ ys) = ground (arith, has-append_one x t ys)

append_one-Distinct :
    (x : Bytes) (xs : List Bytes)
    → has Bytes-discrete x xs ≡ false
    → Distinct Bytes-discrete xs
    → Distinct Bytes-discrete (xs ++ x ∷ [])
unfolding has
append_one-Distinct x [] h d = (refl, tt)
append_one-Distinct x (y ∷ ys) h d =
    (has-append_one x y ys ∙ ground arith, append_one-Distinct x ys (ground arith) d.1)

module _ (events : List Bytes) where
  -- The lines are different orders of the events, those that are marked as visited.
  pub record IsKept (s : Search) : Type 0 where
    pub same : (t : Bytes) → has Bytes-discrete t s.printed ≡ has Bytes-discrete t s.visited
    pub count : length s.printed ≡ length s.visited
    pub distinct : Distinct Bytes-discrete s.printed
    pub orders : All (IsOrder events) s.printed

  kept :
      (path : List Bytes) (s : Search)
      → Perm path events
      → IsKept s
      → has Bytes-discrete (join path) s.visited ≡ false
      → IsKept (record { visited = join path ∷ s.visited; printed = s.printed ++ join path ∷ [] })
  unfolding has
  kept path s p k h = record {
    same = λ t. has-append_one (join path) t s.printed ∙ ground (arith, k.same t);
    count = length-append s.printed (join path ∷ []) ∙ omega (arith, k.count);
    distinct = append_one-Distinct (join path) s.printed (k.same (join path) ∙ h) k.distinct;
    orders = All-last events (IsOrder events) s.printed (join path) k.orders (path, p, refl);
  }

  visit-IsKept :
      (path : List Bytes) (s : Search) → Perm path events → IsKept s → IsKept (visit (join path) s)
  unfolding visit
  visit-IsKept path s p k = elim (Bool-cases (has Bytes-discrete (join path) s.visited)) [
    | inl h ↦ rw (h) k
    | inr h ↦ rw (h) (kept path s p k h)
  ]

  visit_counts :
      (path : Bytes) (s : Search) → length (visit path s).visited ≤ suc (length s.visited)
  unfolding visit
  visit_counts path s = ground arith

-- The bound of the loop.
at_least : (a p : ℕ) → p ≤ suc a * p
at_least a p = grind arith

add_suc : (n k : ℕ) → n + suc k ≡ suc n + k
add_suc n k = omega arith

product_grows : (n k : ℕ) → product n ≤ product (n + k)
product_grows n zero =
    let same : n ≡ n + 0 = omega arith in subst (λ m. product n ≤ product m) same (omega arith)
product_grows n (suc k) =
    subst (λ m. product n ≤ product m) (sym (add_suc n k))
      (omega (arith, product_grows (suc n) k, at_least n (product n)))

small : (x : ℕ) → x < 2 ^ 64 → x % 2 ^ 64 ≡ x
small x h = omega arith

mul_comm : (a b : ℕ) → a * b ≡ b * a
mul_comm a b = grind arith

factorial_from-product :
    (left i : ℕ)
    → product (i + left) < 2 ^ 64
    → factorial_from left (suc i) (product i) ≡ product (i + left)
unfolding factorial_from
factorial_from-product zero i h = ap product (omega arith)
factorial_from-product (suc left) i h =
    let bound : product (suc i + left) < 2 ^ 64 =
      subst (λ m. product m < 2 ^ 64) (add_suc i left) h in
    let word : product i * suc i % 2 ^ 64 ≡ product (suc i) =
      ap (λ x. x % 2 ^ 64) (mul_comm (product i) (suc i))
      ∙ small (product (suc i)) (omega (arith, product_grows (suc i) left)) in
    rw (word, add_suc i left) (factorial_from-product left (suc i) bound)

-- Up to 20 events the bound is no negative int.
product_bound : (n : ℕ) → n ≤ 20 → product n < 2 ^ 63
product_bound n h =
    let grows = product_grows n (20 - n) in
    let top : product (n + (20 - n)) ≡ product 20 =
      ap product {x = n + (20 - n)} {y = 20} (omega arith) in
    let limit : product 20 < 2 ^ 63 = omega arith in omega arith

factorial-product : (n : ℕ) → n ≤ 20 → factorial n ≡ product n
unfolding factorial factorial_from
factorial-product zero h = refl
factorial-product (suc n) h =
    let rounds : n ≡ suc n - 1 = omega arith in
    let one : 1 + n ≡ suc n = omega arith in
    let bound : product (1 + n) < 2 ^ 64 =
      subst (λ m. product m < 2 ^ 64) (sym one) (omega (arith, product_bound (suc n) h)) in
    subst (λ left. factorial_from left 2 1 ≡ product (suc n)) rounds
      (factorial_from-product n 1 bound ∙ ap product one)

-- Of at most 20 events: the loop goes on as long as fewer lines are printed than there are orders.
goes_on : (count n : ℕ) → n ≤ 20 → less_int count (factorial n) ≡ ltb count (product n)
unfolding less_int
goes_on count n h = rw (factorial-product n h, lt→ltb (product n) (2 ^ 63) (product_bound n h)) refl

module _ (events : List Bytes) where
  -- What the loop may come to: it still runs, with fewer lines than the orders, or it has ended with as
  -- many; it does not panic.
  pub data IsFair : Outcome → Type 0 where
    fair_runs :
        {s : Search}
        → IsKept events s
        → length s.printed < product (length events)
        → IsFair (runs s)
    fair_ends :
        {s : Search}
        → IsKept events s
        → length s.printed ≡ product (length events)
        → IsFair (ends s)

  stops :
      (s : Search)
      → length events ≤ 20
      → IsKept events s
      → length s.visited ≤ product (length events)
      → ltb (length s.visited) (product (length events)) ≡ false
      → IsFair (ends s)
  stops s n k l h = fair_ends k (ground (arith, k.count))

  random_interleave-IsFair :
      (rounds : List (ℕ → ℕ)) (s : Search)
      → length events ≤ 20
      → All InRange rounds
      → IsKept events s
      → length s.visited ≤ product (length events)
      → IsFair (random_interleave rounds events s)
  unfolding random_interleave
  random_interleave-IsFair [] s n r k l =
      let test = goes_on (length s.visited) (length events) n in
      elim (Bool-cases (ltb (length s.visited) (product (length events)))) [
        | inl h ↦ rw (test, h) (fair_runs k (ground (arith, k.count)))
        | inr h ↦ rw (test, h) (stops s n k l h)
      ]
  random_interleave-IsFair (rand ∷ rounds) s n r k l =
      let test = goes_on (length s.visited) (length events) n in
      let (path, e, p) = shuffle_array-Perm rand events r.0 in
      elim (Bool-cases (ltb (length s.visited) (product (length events)))) [
        | inl h ↦
            rw (test, h, e)
              (random_interleave-IsFair rounds (visit (join path) s) n r.1
                (visit-IsKept events path s p k)
                (ground (arith, visit_counts events (join path) s)))
        | inr h ↦ rw (test, h) (stops s n k l h)
      ]

  -- At most 20 events, random numbers as rand.Intn promises them: the loop of randomInterleave never
  -- panics. What it prints are different orders of the events. It still runs as long as there are fewer lines
  -- than the factorial of the number of events, and has ended if there are as many.
  pub random_interleave_lem :
      (rounds : List (ℕ → ℕ))
      → length events ≤ 20
      → All InRange rounds
      → IsFair (random_interleave rounds events (record { visited = []; printed = [] }))
  random_interleave_lem rounds n r =
      random_interleave-IsFair rounds (record { visited = []; printed = [] }) n r
        (record { same = λ t. refl; count = refl; distinct = tt; orders = tt }) (omega arith)

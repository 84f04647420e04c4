-- ===== src/Cluster/Interleavings/Random/Orders.antt =====
-- All orders of the events, as a list that is as long as there are orders of different events.
use mathlib.Core.Logic.{∥∥₁_elim, ∥∥₁_map}
use mathlib.Core.List.{Perm, Mem, Memᴰ, Mem-prop, not-mem-nil, perm_middle}
use mathlib.Core.List.Memᴰ
use mathlib.Core.List.Perm
use er_pi_middleware25_artif.Base.{
  ℕ, suc, ◌+◌, ◌*◌, ◌≡◌, refl, sym, ap, ◌∙◌, subst, List, [], ◌∷◌, ◌++◌, map, length, length-append,
  length-map, All, arith,
}
use er_pi_middleware25_artif.Common.{Bytes}
use er_pi_middleware25_artif.Cluster.Interleavings.Random.Visits.{product}

-- The element at every place of the list.
pub insertions : Bytes → List Bytes → List (List Bytes)
insertions x [] = (x ∷ []) ∷ []
insertions x (y ∷ ys) = (x ∷ y ∷ ys) ∷ map (λ zs. y ∷ zs) (insertions x ys)

pub all_insertions : Bytes → List (List Bytes) → List (List Bytes)
all_insertions x [] = []
all_insertions x (p ∷ ps) = insertions x p ++ all_insertions x ps

pub all_orders : List Bytes → List (List Bytes)
all_orders [] = [] ∷ []
all_orders (x ∷ xs) = all_insertions x (all_orders xs)

abbrev HasLength : ℕ → List (List Bytes) → Type 0
HasLength n ps = All (λ p. length p ≡ n) ps

length-insertions : (x : Bytes) (ys : List Bytes) → length (insertions x ys) ≡ suc (length ys)
unfolding insertions
length-insertions x [] = refl
length-insertions x (y ∷ ys) =
    ap suc (length-map (insertions x ys) (λ zs. y ∷ zs) ∙ length-insertions x ys)

deeper :
    (y : Bytes) (n : ℕ) (ps : List (List Bytes))
    → HasLength n ps
    → HasLength (suc n) (map (λ zs. y ∷ zs) ps)
deeper y n [] h = tt
deeper y n (p ∷ ps) h = (ap suc h.0, deeper y n ps h.1)

insertions-HasLength : (x : Bytes) (ys : List Bytes) → HasLength (suc (length ys)) (insertions x ys)
unfolding insertions
insertions-HasLength x [] = (refl, tt)
insertions-HasLength x (y ∷ ys) =
    (refl, deeper y (suc (length ys)) (insertions x ys) (insertions-HasLength x ys))

append-HasLength :
    (n : ℕ) (ps qs : List (List Bytes)) → HasLength n ps → HasLength n qs → HasLength n (ps ++ qs)
append-HasLength n [] qs h k = k
append-HasLength n (p ∷ ps) qs h k = (h.0, append-HasLength n ps qs h.1 k)

mul_suc : (m k : ℕ) → m + m * k ≡ m * suc k
mul_suc m k = grind arith

all_insertions-HasLength :
    (x : Bytes) (n : ℕ) (ps : List (List Bytes))
    → HasLength n ps
    → HasLength (suc n) (all_insertions x ps) × (length (all_insertions x ps) ≡ suc n * length ps)
unfolding all_insertions
all_insertions-HasLength x n [] h = (tt, omega arith)
all_insertions-HasLength x n (p ∷ ps) h =
    let (lengths, many) = all_insertions-HasLength x n ps h.1 in
    let here = length-insertions x p ∙ ap suc h.0 in
    (
      append-HasLength (suc n) (insertions x p) (all_insertions x ps)
          (subst (λ m. HasLength (suc m) (insertions x p)) h.0 (insertions-HasLength x p)) lengths,
      length-append (insertions x p) (all_insertions x ps)
          ∙ rw (here, many) (mul_suc (suc n) (length ps)),
    )

pub all_orders-HasLength :
    (xs : List Bytes)
    → HasLength (length xs) (all_orders xs) × (length (all_orders xs) ≡ product (length xs))
unfolding all_orders
all_orders-HasLength [] = ((refl, tt), refl)
all_orders-HasLength (x ∷ xs) =
    let (lengths, many) = all_orders-HasLength xs in
    let (longer, more) = all_insertions-HasLength x (length xs) (all_orders xs) lengths in
    (longer, more ∙ ap (λ n. suc (length xs) * n) many)

insertions_complete : (x : Bytes) (l r : List Bytes) → Memᴰ (l ++ x ∷ r) (insertions x (l ++ r))
unfolding insertions
insertions_complete x [] [] = Memᴰ.head refl
insertions_complete x [] (y ∷ r) = Memᴰ.head refl
insertions_complete x (y ∷ l) r = Memᴰ.tail (Memᴰ.map (λ zs. y ∷ zs) (insertions_complete x l r))

all_insertions_complete :
    (x : Bytes) (p q : List Bytes) (ps : List (List Bytes))
    → Memᴰ p ps
    → Memᴰ q (insertions x p)
    → Memᴰ q (all_insertions x ps)
unfolding all_insertions
all_insertions_complete x p q [] m i = elim m [ ]
all_insertions_complete x p q (y ∷ ps) (Memᴰ.head e) i =
    Memᴰ.append_left (all_insertions x ps) (subst (λ p. Memᴰ q (insertions x p)) e i)
all_insertions_complete x p q (y ∷ ps) (Memᴰ.tail m) i =
    Memᴰ.append_right (insertions x y) (all_insertions_complete x p q ps m i)

around :
    (x : Bytes) (q : List Bytes) → Memᴰ x q → (l : List Bytes) × (r : List Bytes) × (q ≡ l ++ x ∷ r)
around x [] m = elim m [ ]
around x (y ∷ q) (Memᴰ.head e) = ([], q, ap (λ z. z ∷ q) (sym e))
around x (y ∷ q) (Memᴰ.tail m) = let (l, r, e) = around x q m in (y ∷ l, r, ap (λ p. y ∷ p) e)

none_in : (y : Bytes) (q : List Bytes) → Perm (y ∷ q) [] → Mem (y ∷ q) (all_orders [])
none_in y q p = absurd (not-mem-nil ((Perm.mem_iff p).0 ∣ Memᴰ.head refl ∣₁))

pub all_orders_complete : (xs q : List Bytes) → Perm q xs → Mem q (all_orders xs)
unfolding all_orders
all_orders_complete [] [] p = ∣ Memᴰ.head refl ∣₁
all_orders_complete [] (y ∷ q) p = none_in y q p
all_orders_complete (x ∷ xs) q p =
    ∥∥₁_elim ((Perm.mem_iff (Perm.symm p)).0 ∣ Memᴰ.head refl ∣₁) Mem-prop (λ m.
      let (l, r, e) = around x q m in
      let rest : Perm (l ++ r) xs =
        Perm.cons_inv
          (Perm.trans (Perm.symm (perm_middle l r)) (subst (λ q. Perm q (x ∷ xs)) e p)) in
      ∥∥₁_map (all_orders_complete xs (l ++ r) rest) (λ i.
        subst (λ q. Memᴰ q (all_insertions x (all_orders xs))) (sym e)
          (all_insertions_complete x (l ++ r) (l ++ x ∷ r) (all_orders xs) i
            (insertions_complete x l r))))

insertions_head :
    (x : Bytes) (ys : List Bytes) → (ps : List (List Bytes)) × (insertions x ys ≡ (x ∷ ys) ∷ ps)
unfolding insertions
insertions_head x [] = ([], refl)
insertions_head x (y ∷ ys) = (map (λ zs. y ∷ zs) (insertions x ys), refl)

all_orders_head : (xs : List Bytes) → (ps : List (List Bytes)) × (all_orders xs ≡ xs ∷ ps)
unfolding all_orders all_insertions
all_orders_head [] = ([], refl)
all_orders_head (x ∷ xs) =
    let (ps, e) = all_orders_head xs in
    let (qs, f) = insertions_head x xs in (qs ++ all_insertions x ps, rw (e, f) refl)

-- Two equal events: an order stands twice.
pub all_orders_twice :
    (a : Bytes) (rest : List Bytes)
    → (ps : List (List Bytes)) × (all_orders (a ∷ a ∷ rest) ≡ (a ∷ a ∷ rest) ∷ (a ∷ a ∷ rest) ∷ ps)
unfolding all_orders all_insertions insertions
all_orders_twice a rest =
    let (ps, e) = all_orders_head (a ∷ rest) in
    let (qs, f) = insertions_head a rest in
    (map (λ zs. a ∷ zs) qs ++ all_insertions a ps, ap (all_insertions a) e ∙ rw (f) refl)

-- ===== src/Counter/Converge/Kept.antt =====
-- Sums and predicates over the replicas of the counter of Go_RDL/Library/pncounter.go.
use er_pi_middleware25_artif.Base.{ℕ, ◌+◌, ◌≡◌, refl, ap, List, [], ◌∷◌, ◌++◌, map, All, arith}
use er_pi_middleware25_artif.Common.{Bytes}
use er_pi_middleware25_artif.Counter.{new_counter}
use er_pi_middleware25_artif.Counter.Replicas.{Replica, fresh, write}
use er_pi_middleware25_artif.Counter.Converge.{total}

-- What the updates kept by all replicas add.
abbrev pub kept : List Replica → ℕ
kept [] = 0
kept (r ∷ rs) = total r.counter.updates + kept rs

pub kept-append : (xs ys : List Replica) → kept (xs ++ ys) ≡ kept xs + kept ys
kept-append [] ys = omega arith
kept-append (r ∷ xs) ys = omega (arith, kept-append xs ys)

pub kept-write : (m : Bytes) (rs : List Replica) → kept (map (write m) rs) ≡ kept rs
kept-write m [] = refl
kept-write m (r ∷ rs) = ap (λ k. total r.counter.updates + k) (kept-write m rs)

pub kept-fresh : (ids : List ℕ) → kept (map fresh ids) ≡ 0
unfolding new_counter
kept-fresh [] = refl
kept-fresh (i ∷ ids) = omega (arith, kept-fresh ids)

pub All-map :
    (P Q : Replica → Type 0) (f : Replica → Replica)
    → ((r : Replica) → P r → Q (f r))
    → (rs : List Replica) → All P rs
    → All Q (map f rs)
All-map P Q f h [] a = tt
All-map P Q f h (r ∷ rs) a = (h r a.0, All-map P Q f h rs a.1)

pub All-weaken :
    (P Q : Replica → Type 0)
    → ((r : Replica) → P r → Q r)
    → (rs : List Replica) → All P rs
    → All Q rs
All-weaken P Q h [] a = tt
All-weaken P Q h (r ∷ rs) a = (h r a.0, All-weaken P Q h rs a.1)

pub All-split :
    (P : Replica → Type 0) (before after : List Replica) (r : Replica)
    → All P (before ++ r ∷ after)
    → All P before × P r × All P after
All-split P [] after r a = (tt, a.0, a.1)
All-split P (b ∷ before) after r a =
    let (x, y, z) = All-split P before after r a.1 in ((a.0, x), y, z)

pub All-join :
    (P : Replica → Type 0) (before after : List Replica) (r : Replica)
    → All P before
    → P r
    → All P after
    → All P (before ++ r ∷ after)
All-join P [] after r x y z = (y, z)
All-join P (b ∷ before) after r x y z = (x.0, All-join P before after r x.1 y z)

-- ===== src/Cluster/Interleavings/Random/Ends.antt =====
-- When the loop of randomInterleave in roshi/cluster/RandomIntls.go has ended, and when it cannot end.
use mathlib.Core.Logic.{∥∥₁_elim}
use mathlib.Core.List.{Perm}
use mathlib.Core.List.Memᴰ
use mathlib.Core.List.Perm
use er_pi_middleware25_artif.Base.{
  ℕ, suc, ◌<◌, ◌≤◌, ◌≡◌, refl, sym, ap, ◌∙◌, subst, List, [], ◌∷◌, map, length, length-map,
  length-permᴰ, All, true, arith,
}
use er_pi_middleware25_artif.Common.{Bytes, Bytes-discrete}
use er_pi_middleware25_artif.Farm.Sets.{has, Memᴰ→has}
use er_pi_middleware25_artif.Cluster.Interleavings.{join, Search}
use er_pi_middleware25_artif.Cluster.Interleavings.Known.{IsPrinted}
use er_pi_middleware25_artif.Cluster.Interleavings.Orders.{IsOrder}
use er_pi_middleware25_artif.Cluster.Interleavings.Random.{Outcome, runs, ends, random_interleave}
use er_pi_middleware25_artif.Cluster.Interleavings.Random.Shuffled.{InRange}
use er_pi_middleware25_artif.Cluster.Interleavings.Random.Visits.{
  product, IsKept, IsFair, fair_runs, fair_ends, random_interleave_lem,
}
use er_pi_middleware25_artif.Cluster.Interleavings.Random.Pigeonhole.{
  IsWithin, length-IsWithin, IsWithin-full,
}
use er_pi_middleware25_artif.Cluster.Interleavings.Random.Orders.{
  all_orders, all_orders_complete, all_orders-HasLength, all_orders_twice,
}

texts : List Bytes → List Bytes
texts events = map join (all_orders events)

length-texts : (events : List Bytes) → length (texts events) ≡ product (length events)
unfolding texts
length-texts events = length-map (all_orders events) join ∙ (all_orders-HasLength events).1

order_in_texts :
    (events : List Bytes) (t : Bytes)
    → IsOrder events t
    → has Bytes-discrete t (texts events) ≡ true
unfolding texts
order_in_texts events t (q, p, e) = ∥∥₁_elim (all_orders_complete events q p) (hlevel) (λ m.
    subst (λ t. has Bytes-discrete t (map join (all_orders events)) ≡ true) (sym e)
      (Memᴰ→has Bytes-discrete (join q) (map join (all_orders events)) (Memᴰ.map join m)))

orders-IsWithin :
    (events printed : List Bytes) → All (IsOrder events) printed → IsWithin printed (texts events)
unfolding has
orders-IsWithin events [] a t h = cc
orders-IsWithin events (x ∷ printed) a t h = elim (Bytes-discrete x t) [
  | yes e ↦ subst (λ t. has Bytes-discrete t (texts events) ≡ true) e (order_in_texts events x a.0)
  | no n ↦ orders-IsWithin events printed a.1 t (ground arith)
]

once :
    (x t : Bytes) (ts : List Bytes)
    → has Bytes-discrete t (x ∷ x ∷ ts) ≡ true
    → has Bytes-discrete t (x ∷ ts) ≡ true
unfolding has
once x t ts h = ground arith

module _ (events : List Bytes) where
  all_printed :
      (s : Search)
      → IsKept events s
      → length s.printed ≡ product (length events)
      → (order : List Bytes) → Perm order events
      → IsPrinted s.printed (join order)
  all_printed s k l order p =
      let enough = length-texts events in
      IsWithin-full s.printed (texts events) k.distinct (orders-IsWithin events s.printed k.orders)
        (omega arith) (join order) (order_in_texts events (join order) (order, p, refl))

  reorder :
      (others printed : List Bytes)
      → Perm events others
      → All (IsOrder events) printed
      → All (IsOrder others) printed
  reorder others [] p a = tt
  reorder others (t ∷ printed) p a =
      (((a.0).0, Perm.trans (a.0).1 p, (a.0).2), reorder others printed p a.1)

  -- Two equal events leave fewer texts than the factorial.
  too_few :
      (a : Bytes) (rest : List Bytes) (s : Search)
      → Perm events (a ∷ a ∷ rest)
      → IsKept events s
      → length s.printed < product (length (a ∷ a ∷ rest))
  unfolding texts
  too_few a rest s p k =
      let (ps, e) = all_orders_twice a rest in
      let line = join (a ∷ a ∷ rest) in
      let twice : texts (a ∷ a ∷ rest) ≡ line ∷ line ∷ map join ps = ap (map join) e in
      let inside =
        orders-IsWithin (a ∷ a ∷ rest) s.printed (reorder (a ∷ a ∷ rest) s.printed p k.orders) in
      let bound = length-IsWithin s.printed (line ∷ map join ps) k.distinct (λ t h.
        once line t (map join ps)
          (subst (λ ts. has Bytes-discrete t ts ≡ true) twice (inside t h))) in
      let many : suc (suc (length (map join ps))) ≡ product (length (a ∷ a ∷ rest)) =
        sym (ap length twice) ∙ length-texts (a ∷ a ∷ rest) in
      subst (λ n. length s.printed < n) many (omega arith)

  complete :
      (o : Outcome) (s : Search)
      → IsFair events o
      → o ≡ ends s
      → (order : List Bytes) → Perm order events
      → IsPrinted s.printed (join order)
  complete _ s (fair_runs k l) e = cc
  complete _ s (fair_ends {s = t} k l) e =
      subst
        (λ (s : Search).
          (order : List Bytes) → Perm order events → IsPrinted s.printed (join order))
        {x = t} {y = s} (cc) (all_printed t k l)

  endless :
      (o : Outcome) (n : ℕ)
      → ((s : Search) → IsKept events s → length s.printed < n)
      → product (length events) ≡ n
      → IsFair events o
      → (s : Search) × (o ≡ runs s)
  endless _ n f e (fair_runs {s} k l) = (s, refl)
  endless _ n f e (fair_ends {s} k l) = absurd (let few = f s k in omega arith)

  -- At most 20 events and random numbers as rand.Intn promises them: when the loop of randomInterleave has
  -- ended, it has printed every order of the events.
  pub random_interleave_complete :
      (rounds : List (ℕ → ℕ)) (s : Search)
      → length events ≤ 20
      → All InRange rounds
      → random_interleave rounds events (record { visited = []; printed = [] }) ≡ ends s
      → (order : List Bytes) → Perm order events
      → IsPrinted s.printed (join order)
  random_interleave_complete rounds s n r e =
      complete (random_interleave rounds events (record { visited = []; printed = [] })) s
        (random_interleave_lem events rounds n r) e

  -- At most 20 events of which two are equal, and random numbers as rand.Intn promises them: the loop of
  -- randomInterleave never ends, whatever the random numbers are; it waits for more different lines than
  -- there are.
  pub random_interleave_endless :
      (a : Bytes) (rest : List Bytes) (rounds : List (ℕ → ℕ))
      → length events ≤ 20
      → Perm events (a ∷ a ∷ rest)
      → All InRange rounds
      → (s : Search) × (random_interleave rounds events (record { visited = []; printed = [] })
          ≡ runs s)
  random_interleave_endless a rest rounds n p r =
      endless (random_interleave rounds events (record { visited = []; printed = [] }))
        (product (length (a ∷ a ∷ rest))) (λ s k. too_few a rest s p k)
        (ap product (∥∥₁_elim p (hlevel) (length-permᴰ events (a ∷ a ∷ rest))))
        (random_interleave_lem events rounds n r)

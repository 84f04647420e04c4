-- ===== src/Cluster/Select/Covers.antt =====
-- Every key that is selected has an element.
use mathlib.Core.List.{Memᴰ}
use mathlib.Core.List.Memᴰ as M
use er_pi_middleware25_artif.Base.{
  ℕ, ◌≡◌, refl, sym, ap, subst, List, [], ◌∷◌, ◌++◌, Option, none, some, lookup, ℕ_discrete, if_pos,
  if_neg, ℤ,
}
use er_pi_middleware25_artif.Common.{Bytes, Bytes-discrete, Cursor}
use er_pi_middleware25_artif.Cluster.Buckets.{bucket, bucketize, routed, bucket-bucketize}
use er_pi_middleware25_artif.Cluster.Conn.{Error, Result, ok, err, Conn, M}
use er_pi_middleware25_artif.Cluster.Pipeline.{ResultMap, pipeline_range}
use er_pi_middleware25_artif.Cluster.Range.{pipeline_range_by_score}
use er_pi_middleware25_artif.Cluster.Select.Complete.{
  InMap, Complete, pipeline_range-Complete, pipeline_range_by_score-Complete,
}
use er_pi_middleware25_artif.Cluster.Select.{
  Element, error_elements, success_elements, bucket_elements, all_elements, select_common,
  select_offset, select_range,
}

-- An element of the list is for the key.
abbrev pub Covered : Bytes → List Element → Type 0
Covered k es = (e : Element) × Memᴰ e es × (e.key ≡ k)

error_elements-Covered :
    (k : Bytes) (keys : List Bytes) (e : Error) → Memᴰ k keys → Covered k (error_elements keys e)
unfolding error_elements
error_elements-Covered k [] e m = elim m [ ]
error_elements-Covered k (j ∷ keys) e (Memᴰ.head p) = (_, Memᴰ.head refl, sym p)
error_elements-Covered k (j ∷ keys) e (Memᴰ.tail m) =
    let (x, n, q) = error_elements-Covered k keys e m in (x, Memᴰ.tail n, q)

success_elements-Covered : (k : Bytes) (m : ResultMap) → InMap k m → Covered k (success_elements m)
unfolding success_elements lookup
success_elements-Covered k [] (xs, h) = cc
success_elements-Covered k ((j, ys) ∷ m) (xs, h) = elim (Bytes-discrete j k) [
  | yes p ↦ (_, Memᴰ.head refl, p)
  | no p ↦
      let (x, n, q) = success_elements-Covered k m (xs, rw (if_neg (Bytes-discrete j k) p) at h) in
      (x, Memᴰ.tail n, q)
]

bucket_elements-Covered :
    (r : Result Conn) (select : List Bytes → M ResultMap) (keys : List Bytes) (k : Bytes)
    → Complete select
    → Memᴰ k keys
    → Covered k (bucket_elements r select keys)
unfolding bucket_elements
bucket_elements-Covered (err e) select keys k full m = error_elements-Covered k keys e m
bucket_elements-Covered (ok c) select keys k full m = outcome (select keys c).0 refl
  where
    outcome :
        (o : Result ResultMap)
        → (select keys c).0 ≡ o
        → Covered k (elim o [ ok m ↦ success_elements m | err e ↦ error_elements keys e ])
    outcome (ok r) e = success_elements-Covered k r (full keys c r k e m)
    outcome (err x) e = error_elements-Covered k keys x m

Covered-left : (k : Bytes) (xs ys : List Element) → Covered k xs → Covered k (xs ++ ys)
Covered-left k xs ys (e, m, p) = (e, M.append_left ys m, p)

Covered-right : (k : Bytes) (xs ys : List Element) → Covered k ys → Covered k (xs ++ ys)
Covered-right k xs ys (e, m, p) = (e, M.append_right xs m, p)

all_elements-Covered :
    (conns : ℕ → Result Conn) (select : List Bytes → M ResultMap) (m : List (ℕ × List Bytes))
    (i : ℕ) (keys : List Bytes) (k : Bytes)
    → Complete select
    → lookup ℕ_discrete i m ≡ some keys
    → Memᴰ k keys
    → Covered k (all_elements conns select m)
unfolding lookup
all_elements-Covered conns select [] i keys k full h n = cc
all_elements-Covered conns select ((j, ks) ∷ m) i keys k full h n =
    let rest = all_elements conns select m in
    let first = bucket_elements (conns j) select ks in
    let after = λ (f : lookup ℕ_discrete i m ≡ some keys).
      all_elements-Covered conns select m i keys k full f n in
    elim (ℕ_discrete j i) [
      | yes p ↦ Covered-left k first rest (
          bucket_elements-Covered (conns j) select ks k full
            (subst (Memᴰ k) (same_keys keys ks (rw (if_pos (ℕ_discrete j i) p) at h)) n))
      | no p ↦ Covered-right k first rest (after (rw (if_neg (ℕ_discrete j i) p) at h))
    ]
  where
    same_keys : (a b : List Bytes) → some b ≡ some a → a ≡ b
    same_keys a b e = cc

routed-Memᴰ :
    (index : Bytes → ℕ) (k : Bytes) (keys : List Bytes)
    → Memᴰ k keys
    → Memᴰ k (routed index (index k) keys)
routed-Memᴰ index k [] m = elim m [ ]
routed-Memᴰ index k (j ∷ keys) (Memᴰ.head p) =
    rw (if_pos (ℕ_discrete (index j) (index k)) (ap index (sym p))) (Memᴰ.head p)
routed-Memᴰ index k (j ∷ keys) (Memᴰ.tail m) =
    let rest = routed-Memᴰ index k keys m in
    elim (ℕ_discrete (index j) (index k)) [
      | yes p ↦ rw (if_pos (ℕ_discrete (index j) (index k)) p) (Memᴰ.tail rest)
      | no p ↦ rw (if_neg (ℕ_discrete (index j) (index k)) p) rest
    ]

bucket-Memᴰ :
    (o : Option (List Bytes)) (k : Bytes)
    → Memᴰ k (bucket o)
    → (keys : List Bytes) × (o ≡ some keys) × Memᴰ k keys
bucket-Memᴰ none k m = elim m [ ]
bucket-Memᴰ (some keys) k m = (keys, refl, m)

select_common-Covered :
    (index : Bytes → ℕ) (conns : ℕ → Result Conn) (select : List Bytes → M ResultMap)
    (keys : List Bytes) (k : Bytes)
    → Complete select
    → Memᴰ k keys
    → Covered k (select_common index conns select keys)
unfolding select_common
select_common-Covered index conns select keys k full m =
    let b = bucketize index keys in
    let i = index k in
    let (ks, e, n) =
      bucket-Memᴰ (lookup ℕ_discrete i b) k
        (subst (Memᴰ k) (sym (bucket-bucketize index keys i)) (routed-Memᴰ index k keys m)) in
    all_elements-Covered conns select b i ks k full e n

-- Every key that is selected has an element: whatever fails on the way, a select by offset and a
-- select by cursors each send at least one element for every key they are given.
pub selects_cover :
    (index : Bytes → ℕ) (conns : ℕ → Result Conn) (keys : List Bytes) (k : Bytes) (offset : ℤ)
    (start stop : Cursor) (limit : ℤ)
    → Memᴰ k keys
    → Covered k (select_offset index conns offset limit keys)
      × Covered k (select_range index conns start stop limit keys)
unfolding select_offset select_range
selects_cover index conns keys k offset start stop limit m = (
  select_common-Covered index conns (pipeline_range offset limit) keys k
      (pipeline_range-Complete offset limit) m,
  select_common-Covered index conns (pipeline_range_by_score start stop limit) keys k
      (pipeline_range_by_score-Complete start stop limit) m,
)

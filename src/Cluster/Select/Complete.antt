-- ===== src/Cluster/Select/Complete.antt =====
-- The selects that succeed have an entry for every key.
use mathlib.Core.List.{Memᴰ}
use er_pi_middleware25_artif.Base.{
  ℕ, zero, suc, ◌≡◌, sym, ap, ◌∙◌, subst, arith, ◌⊎◌, inl, inr, List, [], ◌∷◌, some, map, lookup,
  insert, lookup-insert, if_pos, if_neg, ℤ, pos, negsuc, ltb_ℤ, Bool-cases, Option-cases,
}
use er_pi_middleware25_artif.Common.{Bytes, Bytes-discrete, KeyScoreMember, Cursor}
use er_pi_middleware25_artif.Cluster.Conn.{ok, Conn, M, ◌>>=◌, ◌>>◌, receive, send_all, flush}
use er_pi_middleware25_artif.Cluster.Pipeline.{
  ResultMap, pipeline_range, range_command, range_each, to_tuple, values,
}
use er_pi_middleware25_artif.Cluster.Pipeline.Writes.{>>=-eq-ok}
use er_pi_middleware25_artif.Cluster.Range.{
  pipeline_range_by_score, use_results, retry_keys, attempts, read_each, next_limit, select_command,
  max_attempts,
}

abbrev pub InMap : Bytes → ResultMap → Type 0
InMap k m = (xs : List KeyScoreMember) × (lookup Bytes-discrete k m ≡ some xs)

-- A select that succeeds has an entry for every key.
abbrev pub Complete : (List Bytes → M ResultMap) → Type 0
Complete select =
    (keys : List Bytes) (c : Conn) (m : ResultMap) (k : Bytes)
    → (select keys c).0 ≡ ok m
    → Memᴰ k keys
    → InMap k m

insert-InMap :
    (k j : Bytes) (xs : List KeyScoreMember) (m : ResultMap)
    → (k ≡ j) ⊎ InMap k m
    → InMap k (insert Bytes-discrete j xs m)
insert-InMap k j xs m h = elim (Bytes-discrete j k) [
  | yes p ↦ (xs, lookup-insert Bytes-discrete j k xs m ∙ if_pos (Bytes-discrete j k) p _ _)
  | no p ↦ elim h [
    | inl q ↦ absurd (p (sym q))
    | inr (ys, e) ↦
        (ys, lookup-insert Bytes-discrete j k xs m ∙ if_neg (Bytes-discrete j k) p _ _ ∙ e)
  ]
]

ok_inj : {A : Type 0} → (a b : A) → ok a ≡ ok b → a ≡ b
ok_inj a b e = ground arith

range_each-InMap :
    (acc : ResultMap) (keys : List Bytes) (c : Conn) (m : ResultMap) (k : Bytes)
    → (range_each acc keys c).0 ≡ ok m
    → Memᴰ k keys ⊎ InMap k acc
    → InMap k m
unfolding range_each
range_each-InMap acc [] c m k h (inl n) = elim n [ ]
range_each-InMap acc [] c m k h (inr n) = subst (InMap k) (ok_inj acc m h) n
range_each-InMap acc (j ∷ keys) c m k h n =
    let stored = λ (xs : List (Bytes × ℤ)). insert Bytes-discrete j (map (to_tuple j) xs) acc in
    let (r, e, f) =
      >>=-eq-ok receive
        (λ r.
          values r >>= λ xs. range_each (insert Bytes-discrete j (map (to_tuple j) xs) acc) keys)
        c h in
    let (xs, e', f') =
      >>=-eq-ok (values r)
        (λ xs. range_each (insert Bytes-discrete j (map (to_tuple j) xs) acc) keys) (receive c).1
        (ap (λ o. o.0) (sym f) ∙ h) in
    range_each-InMap (stored xs) keys (values r (receive c).1).1 m k
      (ap (λ o. o.0) (sym (f ∙ f')) ∙ h) (kept xs n)
  where
    kept :
        (xs : List (Bytes × ℤ))
        → Memᴰ k (j ∷ keys) ⊎ InMap k acc
        → Memᴰ k keys ⊎ InMap k (insert Bytes-discrete j (map (to_tuple j) xs) acc)
    kept xs (inl (Memᴰ.head p)) = inr (insert-InMap k j (map (to_tuple j) xs) acc (inl p))
    kept xs (inl (Memᴰ.tail q)) = inl q
    kept xs (inr q) = inr (insert-InMap k j (map (to_tuple j) xs) acc (inr q))

pub pipeline_range-Complete : (offset limit : ℤ) → Complete (pipeline_range offset limit)
unfolding pipeline_range
pipeline_range-Complete offset limit keys c m k h n = elim (Bool-cases (ltb_ℤ limit (pos 0))) [
  | inl b ↦ absurd (ground arith)
  | inr b ↦
      let (_, e, f) =
        >>=-eq-ok (send_all (range_command offset limit) keys) (λ _. flush >> range_each [] keys) c
          (rw b at h) in
      let (_, e', f') =
        >>=-eq-ok flush (λ _. range_each [] keys) _ (ap (λ o. o.0) (sym f) ∙ rw b at h) in
      range_each-InMap [] keys _ m k (ap (λ o. o.0) (sym (f ∙ f')) ∙ rw b at h) (inl n)
]

use_results-keep :
    (m : ResultMap) (keys : List Bytes) (results : ResultMap) (k : Bytes)
    → InMap k results
    → InMap k (use_results m keys results)
unfolding use_results
use_results-keep m [] results k h = h
use_results-keep m (j ∷ keys) results k h = elim (Option-cases (lookup Bytes-discrete j m)) [
  | inl e ↦ rw (e, use_results) (use_results-keep m keys results k h)
  | inr (a, e) ↦
      rw (e, use_results)
        (use_results-keep m keys (insert Bytes-discrete j a results) k
          (insert-InMap k j a results (inr h)))
]

-- A key of an attempt is served or tried again.
served_or_retried :
    (m : ResultMap) (keys : List Bytes) (results : ResultMap) (k : Bytes)
    → Memᴰ k keys
    → InMap k (use_results m keys results) ⊎ Memᴰ k (retry_keys m keys)
unfolding use_results retry_keys
served_or_retried m [] results k n = elim n [ ]
served_or_retried m (j ∷ keys) results k n = elim (Option-cases (lookup Bytes-discrete j m)) [
  | inl e ↦
      rw (e, use_results, retry_keys)
        (elim n [
          | Memᴰ.head p ↦ inr (Memᴰ.head p)
          | Memᴰ.tail q ↦ elim (served_or_retried m keys results k q) [
            | inl x ↦ inl x
            | inr x ↦ inr (Memᴰ.tail x)
          ]
        ])
  | inr (a, e) ↦
      rw (e, use_results, retry_keys)
        (elim n [
          | Memᴰ.head p ↦ inl (
              use_results-keep m keys (insert Bytes-discrete j a results) k
                (insert-InMap k j a results (inl p)))
          | Memᴰ.tail q ↦ served_or_retried m keys (insert Bytes-discrete j a results) k q
        ])
]

attempts-InMap :
    (start stop : Cursor) (limit n select_limit : ℕ) (keys : List Bytes) (results : ResultMap)
    (c : Conn) (m : ResultMap) (k : Bytes)
    → (attempts start stop limit n select_limit keys results c).0 ≡ ok m
    → InMap k results ⊎ Memᴰ k keys
    → InMap k m
unfolding attempts
attempts-InMap start stop limit zero select_limit [] results c m k h d = finished d
  where
    finished : InMap k results ⊎ Memᴰ k [] → InMap k m
    finished (inl x) = subst (InMap k) (ok_inj results m h) x
    finished (inr x) = elim x [ ]
attempts-InMap start stop limit zero select_limit (j ∷ keys) results c m k h d =
    absurd (ground arith)
attempts-InMap start stop limit (suc n) select_limit [] results c m k h d = finished d
  where
    finished : InMap k results ⊎ Memᴰ k [] → InMap k m
    finished (inl x) = subst (InMap k) (ok_inj results m h) x
    finished (inr x) = elim x [ ]
attempts-InMap start stop limit (suc n) select_limit (j ∷ keys) results c m k h d =
    let ks = j ∷ keys in
    let read : M ResultMap = read_each start stop limit select_limit [] ks in
    let next : ResultMap → M ResultMap = λ m.
      attempts start stop limit n (next_limit select_limit) (retry_keys m ks)
        (use_results m ks results) in
    let (_, e, f) =
      >>=-eq-ok (send_all (select_command start select_limit) ks) (λ _. flush >> (read >>= next)) c
        h in
    let (_, e', f') = >>=-eq-ok flush (λ _. read >>= next) _ (ap (λ o. o.0) (sym f) ∙ h) in
    let (got, e'', f'') = >>=-eq-ok read next _ (ap (λ o. o.0) (sym (f ∙ f')) ∙ h) in
    attempts-InMap start stop limit n (next_limit select_limit) (retry_keys got ks)
      (use_results got ks results) _ m k (ap (λ o. o.0) (sym (f ∙ f' ∙ f'')) ∙ h)
      (elim d [
        | inl x ↦ inl (use_results-keep got ks results k x)
        | inr x ↦ served_or_retried got ks results k x
      ])

pub pipeline_range_by_score-Complete :
    (start stop : Cursor) (limit : ℤ) → Complete (pipeline_range_by_score start stop limit)
unfolding pipeline_range_by_score
pipeline_range_by_score-Complete start stop (pos limit) keys c m k h n =
    attempts-InMap start stop limit max_attempts limit keys [] c m k h (inr n)
pipeline_range_by_score-Complete start stop (negsuc x) keys c m k h n = absurd (ground arith)

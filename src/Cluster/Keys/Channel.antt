-- ===== src/Cluster/Keys/Channel.antt =====
-- The channel of Keys of roshi/cluster/cluster.go: what one instance sends on it, and what all do.
use mathlib.Core.List.{append_assoc, append-nil}
use er_pi_middleware25_artif.Base.{
  ℕ, ◌≤◌, ◌<◌, max, ◌≡◌, refl, sym, ap, ◌∙◌, List, [], ◌∷◌, ◌++◌, some, ℤ, pos, length, map, true,
  All, arith, ltb, if◌then◌else◌,
}
use er_pi_middleware25_artif.Common.{Bytes}
use er_pi_middleware25_artif.Cluster.Conn.{Result}
use er_pi_middleware25_artif.Cluster.Keys.{
  State, finished, decode, scan, send_rest, start, keys_from,
}
use er_pi_middleware25_artif.Cluster.Keys.Batches.{
  concat, concat-append, Completes, page_keys, cursors, scan-Filling,
}

-- The batch that is sent at the end, if it is not empty.
abbrev pub rest_batch : List Bytes → List (List Bytes)
rest_batch [] = []
rest_batch (key ∷ keys) = (key ∷ keys) ∷ []

-- The batches hold `keys` in order: full ones, and at the end one that is not full and not empty,
-- if there is a rest.
pub record IsBatched (n : ℕ) (batches : List (List Bytes)) (keys : List Bytes) : Type 0 where
  pub full : List (List Bytes)
  pub rest : List Bytes
  pub splits : batches ≡ full ++ rest_batch rest
  pub holds : concat full ++ rest ≡ keys
  pub sizes : All (λ b. length b ≡ max 1 n) full
  pub below : length rest < max 1 n

send_nonempty :
    (xs : List (List Bytes)) (r : List Bytes)
    → (if ltb 0 (length r) then xs ++ r ∷ [] else xs) ≡ xs ++ rest_batch r
send_nonempty xs [] = sym (append-nil xs)
send_nonempty xs (key ∷ r) = ground arith

send_rest-append :
    (s : State) (before full : List (List Bytes))
    → s.sent ≡ before ++ full
    → send_rest s ≡ before ++ (full ++ rest_batch s.batch)
unfolding send_rest
send_rest-append s before full e =
    send_nonempty s.sent s.batch ∙ rw (e) (append_assoc before full (rest_batch s.batch))

-- The scan of one instance, when the attempts lead it to its end: each attempt asks for the cursor
-- of the last page read, a failed one again for the same, and what is sent on the channel are
-- the keys of all pages that have the insert suffix, without it, each as often as the pages have
-- it and in their order, in batches of batchSize keys of which only the last may be smaller.
pub scan_lem :
    (n : ℕ) (before : List (List Bytes)) (attempts : List (Result (ℤ × List Bytes)))
    → Completes attempts
    → (t : State) × (scan n (start before) attempts ≡ finished t)
      × (t.asked ≡ cursors (pos 0) attempts)
      × (b : List (List Bytes)) × (send_rest t ≡ before ++ b)
      × IsBatched n b (page_keys attempts)
scan_lem n before attempts c =
    let (t, e, f, a) = scan-Filling n before attempts (start before) [] c (record {
      full = [];
      sends = sym (append-nil before);
      holds = refl;
      sizes = tt;
      rest = omega arith;
    }) in
    (
      t,
      e,
      a,
      _,
      send_rest-append t before f.full f.sends,
      record {
        full = f.full;
        rest = t.batch;
        splits = refl;
        holds = f.holds;
        sizes = f.sizes;
        below = f.rest;
      },
    )

concat-IsBatched :
    (n : ℕ) (b : List (List Bytes)) (keys : List Bytes) → IsBatched n b keys → concat b ≡ keys
concat-IsBatched n b keys h =
    rw (h.splits, concat-append, ← h.holds) (ap (λ x. concat h.full ++ x) (last h.rest))
  where
    last : (r : List Bytes) → concat (rest_batch r) ≡ r
    last [] = refl
    last (x ∷ r) = append-nil (x ∷ r)

pub All-append :
    (P : List Bytes → Type 0) (xs ys : List (List Bytes)) → All P xs → All P ys → All P (xs ++ ys)
All-append P [] ys a b = b
All-append P (x ∷ xs) ys a b = (a.0, All-append P xs ys a.1 b)

-- A batch is not empty, and has at most batchSize keys.
abbrev pub IsBatch : ℕ → List Bytes → Type 0
IsBatch n b = (0 < length b) × (length b ≤ max 1 n)

All-IsBatch :
    (n : ℕ) (b : List (List Bytes)) (keys : List Bytes) → IsBatched n b keys → All (IsBatch n) b
All-IsBatch n b keys h =
    rw (h.splits) (All-append (IsBatch n) h.full _ (fulls h.full h.sizes) (last h.rest h.below))
  where
    fulls : (bs : List (List Bytes)) → All (λ x. length x ≡ max 1 n) bs → All (IsBatch n) bs
    fulls [] a = tt
    fulls (x ∷ bs) a = ((omega (arith, a.0), omega (arith, a.0)), fulls bs a.1)

    last : (r : List Bytes) → length r < max 1 n → All (IsBatch n) (rest_batch r)
    last [] l = tt
    last (x ∷ r) l = ((omega arith, omega arith), tt)

module _ {Value : Type 0} (to_int : Value → Result ℤ) (to_strings : Value → Result (List Bytes))
    (n : ℕ) (attempts : ℕ → List (Result (List Value))) where
  abbrev pub decoded : ℕ → List (Result (ℤ × List Bytes))
  decoded i = map (decode to_int to_strings) (attempts i)

  -- The keys of the instances, one after the other.
  abbrev pub all_keys : List ℕ → List Bytes
  all_keys [] = []
  all_keys (i ∷ order) = page_keys (decoded i) ++ all_keys order

  -- When the attempts at each instance lead to the end of its scan, Keys closes its channel, and has
  -- sent on it the stripped keys of all instances, instance after instance, with none lost or
  -- repeated, in batches that are not empty and not larger than batchSize.
  pub keys_from_lem :
      (order : List ℕ) (before : List (List Bytes))
      → All (λ i. Completes (decoded i)) order
      → (b : List (List Bytes)) × (keys_from to_int to_strings n attempts order before
          ≡ some (before ++ b, true))
        × (concat b ≡ all_keys order)
        × All (IsBatch n) b
  unfolding keys_from
  keys_from_lem [] before c = ([], rw (append-nil) refl, refl, tt)
  keys_from_lem (i ∷ order) before c =
      let (t, e, a, b, s, h) = scan_lem n before (decoded i) c.0 in
      let (b', e', s', h') = keys_from_lem order (before ++ b) c.1 in
      (
        b ++ b',
        rw (e, s, keys_from) (e' ∙ rw (append_assoc before b b') refl),
        concat-append b b' ∙ rw (s', concat-IsBatched n b _ h) refl,
        All-append (IsBatch n) b b' (All-IsBatch n b _ h) h',
      )

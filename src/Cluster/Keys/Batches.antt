-- ===== src/Cluster/Keys/Batches.antt =====
-- What Keys of roshi/cluster/cluster.go sends on its channel.
use mathlib.Core.List.{append_assoc, append-nil}
use er_pi_middleware25_artif.Base.{
  ℕ, ◌<◌, max, ◌≡◌, ◌≢◌, refl, sym, ◌∙◌, List, [], ◌∷◌, ◌++◌, Option, none, some, ℤ, pos, negsuc,
  eqb_ℤ, length, length-append, get_elem?, take, ◌==◌, if◌then◌else◌, true, All, arith, Bool-cases,
  inl, inr, ◌⊎◌, ◌↔◌, subst,
}
use er_pi_middleware25_artif.Common.{Bytes}
use er_pi_middleware25_artif.Cluster.Conn.{Result, ok, err}
use er_pi_middleware25_artif.Cluster.Keys.{insert_suffix, State, add_key, add_keys, finished, scan}

-- The key of a set of inserts, by its name in Redis: what stands before a final +.
abbrev pub strip : Bytes → Option Bytes
strip [] = none
strip (x ∷ []) = if x == insert_suffix then some [] else none
strip (x ∷ y ∷ key) = elim (strip (y ∷ key)) [ none ↦ none | some k ↦ some (x ∷ k) ]

abbrev pub select_keys : List Bytes → List Bytes
select_keys [] = []
select_keys (key ∷ keys) = elim (strip key) [
  | none ↦ select_keys keys
  | some k ↦ k ∷ select_keys keys
]

abbrev pub concat : List (List Bytes) → List Bytes
concat [] = []
concat (b ∷ bs) = b ++ concat bs

pub concat-append : (xs ys : List (List Bytes)) → concat (xs ++ ys) ≡ concat xs ++ concat ys
concat-append [] ys = refl
concat-append (x ∷ xs) ys = rw (concat-append xs ys) (sym (append_assoc x (concat xs) (concat ys)))

-- The last byte of a key decides whether it is emitted.
last_byte :
    (x : ℕ) (xs : Bytes)
    → (c : ℕ) × (get_elem? (x ∷ xs) (length xs) ≡ some c)
      × (strip (x ∷ xs) ≡ (if c == insert_suffix then some (take (length xs) (x ∷ xs)) else none))
last_byte x [] = (x, refl, refl)
last_byte x (y ∷ xs) = let (c, e, s) = last_byte y xs in (c, e, ground arith)

module _ (batch_size : ℕ) (before : List (List Bytes)) where
  -- `all` is what is sent after `before`, in full batches, and what is in the batch.
  pub record Filling (s : State) (all : List Bytes) : Type 0 where
    pub full : List (List Bytes)
    pub sends : s.sent ≡ before ++ full
    pub holds : concat full ++ s.batch ≡ all
    pub sizes : All (λ b. length b ≡ max 1 batch_size) full
    pub rest : length s.batch < max 1 batch_size

  All-append :
      (xs ys : List (List Bytes))
      → All (λ b. length b ≡ max 1 batch_size) xs
      → All (λ b. length b ≡ max 1 batch_size) ys
      → All (λ b. length b ≡ max 1 batch_size) (xs ++ ys)
  All-append [] ys a b = b
  All-append (x ∷ xs) ys a b = (a.0, All-append xs ys a.1 b)

  add_key_cases :
      (key : Bytes) (s : State)
      → length s.batch < max 1 batch_size
      → let batch = s.batch ++ key ∷ [] in
        ((add_key batch_size key s ≡ record s { batch = []; sent = s.sent ++ batch ∷ [] })
          × (length batch ≡ max 1 batch_size))
        ⊎ ((add_key batch_size key s ≡ record s { batch = batch })
            × (length batch < max 1 batch_size))
  unfolding add_key
  add_key_cases key s h = ground (arith, length-append s.batch (key ∷ []))

  add_key-Filling :
      (key : Bytes) (s : State) (all : List Bytes)
      → Filling s all
      → Filling (add_key batch_size key s) (all ++ key ∷ [])
  add_key-Filling key s all f = elim (add_key_cases key s f.rest) [
    | inl (e, l) ↦ rw (e) (record {
      full = f.full ++ (s.batch ++ key ∷ []) ∷ [];
      sends = ground (arith, f.sends, append_assoc before f.full ((s.batch ++ key ∷ []) ∷ []));
      holds = rw (append-nil, concat-append, append-nil, ← f.holds, append_assoc) refl;
      sizes = All-append f.full _ f.sizes (l, tt);
      rest = omega arith;
    })
    | inr (e, l) ↦ rw (e) (record {
      full = f.full;
      sends = f.sends;
      holds = rw (← f.holds, append_assoc) refl;
      sizes = f.sizes;
      rest = l;
    })
  ]

  add_key-asked : (key : Bytes) (s : State) → (add_key batch_size key s).asked ≡ s.asked
  unfolding add_key
  add_key-asked key s = ground arith

  add_keys_cases :
      (key : Bytes) (keys : List Bytes) (s : State)
      → key ≢ []
      → ((select_keys (key ∷ keys) ≡ select_keys keys)
          × (add_keys batch_size (key ∷ keys) s ≡ add_keys batch_size keys s))
        ⊎ ((k : Bytes) × (select_keys (key ∷ keys) ≡ k ∷ select_keys keys)
            × (add_keys batch_size (key ∷ keys) s
                ≡ add_keys batch_size keys (add_key batch_size k s)))
  unfolding add_keys
  add_keys_cases [] keys s n = absurd (n refl)
  add_keys_cases (x ∷ xs) keys s n =
      let (c, e, p) = last_byte x xs in
      elim (Bool-cases (c == insert_suffix)) [
        | inl q ↦ inr (take (length xs) (x ∷ xs), ground arith, ground arith)
        | inr q ↦ inl (ground arith, ground arith)
      ]

  add_keys-Filling :
      (keys : List Bytes) (s : State) (all : List Bytes)
      → All (λ k. k ≢ []) keys
      → Filling s all
      → (t : State) × (add_keys batch_size keys s ≡ some t)
        × Filling t (all ++ select_keys keys)
        × (t.asked ≡ s.asked)
  unfolding add_keys
  add_keys-Filling [] s all a f = (s, refl, rw (append-nil) f, refl)
  add_keys-Filling (key ∷ keys) s all a f = elim (add_keys_cases key keys s a.0) [
    | inl (p, e) ↦ rw (e, p) (add_keys-Filling keys s all a.1 f)
    | inr (k, p, e) ↦
        let (t, q, g, h) =
          add_keys-Filling keys (add_key batch_size k s) (all ++ k ∷ []) a.1
            (add_key-Filling k s all f) in
        (t, e ∙ q, rw (p, ← append_assoc all (k ∷ []) (select_keys keys)) g, h ∙ add_key-asked k s)
  ]

-- The attempts lead the scan to its end: the last, and no other, is a page with cursor 0. Those
-- before it may fail. No key is empty.
abbrev pub Completes : List (Result (ℤ × List Bytes)) → Type 0
Completes [] = ⊥
Completes (err e ∷ attempts) = Completes attempts
Completes (ok (cursor, keys) ∷ attempts) =
    All (λ k. k ≢ []) keys
    × (((cursor ≡ pos 0) × (attempts ≡ [])) ⊎ ((cursor ≢ pos 0) × Completes attempts))

-- The keys of all pages.
abbrev pub page_keys : List (Result (ℤ × List Bytes)) → List Bytes
page_keys [] = []
page_keys (err e ∷ attempts) = page_keys attempts
page_keys (ok (cursor, keys) ∷ attempts) = select_keys keys ++ page_keys attempts

-- The cursor that each attempt asks for: that of the last page read.
abbrev pub cursors : ℤ → List (Result (ℤ × List Bytes)) → List ℤ
cursors c [] = []
cursors c (err e ∷ attempts) = c ∷ cursors c attempts
cursors c (ok (cursor, keys) ∷ attempts) = c ∷ cursors cursor attempts

eqb_ℤ_iff : (a : ℤ) → (eqb_ℤ a (pos 0) ≡ true) ↔ (a ≡ pos 0)
eqb_ℤ_iff (pos n) = ground arith
eqb_ℤ_iff (negsuc n) = ground arith

scan_page :
    (n : ℕ) (s t : State) (cursor : ℤ) (keys : List Bytes)
    (attempts : List (Result (ℤ × List Bytes)))
    → add_keys n keys (record s { asked = s.asked ++ s.cursor ∷ [] }) ≡ some t
    → let u = record t { cursor = cursor } in
      (cursor ≡ pos 0 → scan n s (ok (cursor, keys) ∷ attempts) ≡ finished u)
      × (cursor ≢ pos 0 → scan n s (ok (cursor, keys) ∷ attempts) ≡ scan n u attempts)
unfolding scan
scan_page n s t cursor keys attempts e = ground (arith, eqb_ℤ_iff cursor)

-- Only the batch and what is sent count.
refill :
    {n : ℕ} {before : List (List Bytes)} {s t : State} {all : List Bytes}
    → s.sent ≡ t.sent
    → s.batch ≡ t.batch
    → Filling n before s all
    → Filling n before t all
refill {n = n} p q f = record {
  full = f.full;
  sends = sym p ∙ f.sends;
  holds = rw (← q) f.holds;
  sizes = f.sizes;
  rest = subst (λ b. length b < max 1 n) q f.rest;
}

pub scan-Filling :
    (n : ℕ) (before : List (List Bytes)) (attempts : List (Result (ℤ × List Bytes))) (s : State)
    (all : List Bytes)
    → Completes attempts
    → Filling n before s all
    → (t : State) × (scan n s attempts ≡ finished t)
      × Filling n before t (all ++ page_keys attempts)
      × (t.asked ≡ s.asked ++ cursors s.cursor attempts)
unfolding scan
scan-Filling n before [] s all c f = absurd c
scan-Filling n before (err e ∷ attempts) s all c f =
    let (t, e, g, q) =
      scan-Filling n before attempts (record s { asked = s.asked ++ s.cursor ∷ [] }) all c
        (refill refl refl f) in
    (t, e, g, q ∙ append_assoc s.asked (s.cursor ∷ []) (cursors s.cursor attempts))
scan-Filling n before (ok (cursor, keys) ∷ attempts) s all c f =
    let (t, e, g, q) =
      add_keys-Filling n before keys (record s { asked = s.asked ++ s.cursor ∷ [] }) all c.0
        (refill refl refl f) in
    let g' = refill {t = record t { cursor = cursor }} refl refl g in
    let (last, more) = scan_page n s t cursor keys attempts e in
    elim c.1 [
      | inl (z, l) ↦ (record t { cursor = cursor }, last z, rw (l, append-nil) g', rw (l) q)
      | inr (z, l) ↦
          let (u, d, h, r) =
            scan-Filling n before attempts (record t { cursor = cursor }) (all ++ select_keys keys)
              l g' in
          (
            u,
            more z ∙ d,
            rw (← append_assoc all (select_keys keys) (page_keys attempts)) h,
            r ∙ rw (q) (append_assoc s.asked (s.cursor ∷ []) (cursors cursor attempts)),
          )
    ]

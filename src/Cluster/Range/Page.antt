-- ===== src/Cluster/Range/Page.antt =====
-- One page of a cursor-based select.
use er_pi_middleware25_artif.Base.{
  ℕ, zero, suc, ◌+◌, ◌≤◌, ◌<◌, ◌≡◌, refl, sym, ap, List, [], ◌∷◌, ◌++◌, none, some, ℤ, ltb_ℤ, eqb_ℤ,
  true, false, ◌&&◌, if◌then◌else◌, take, length, All, arith, length-take, ◌⊎◌, inr,
}
use mathlib.Core.List.{append_assoc, append-nil}
use er_pi_middleware25_artif.Common.{Bytes, bytes_ltb, bytes_ltb_trans, KeyScoreMember, Cursor}
use er_pi_middleware25_artif.Cluster.Pipeline.{to_tuple}
use er_pi_middleware25_artif.Cluster.Range.{past_start, before_stop, Scan, scan, page}

-- The order in which Redis lists a sorted set in reverse: by score, and within a score by member.
abbrev pub Follows : Bytes × ℤ → Bytes × ℤ → Type 0
Follows (m, s) (i, t) = (if ltb_ℤ t s then true else (eqb_ℤ t s && bytes_ltb i m)) ≡ true

abbrev pub IsDescending : List (Bytes × ℤ) → Type 0
IsDescending [] = Unit {0}
IsDescending (x ∷ xs) = All (Follows x) xs × IsDescending xs

append_nil_of {ℓ} : {A : Type ℓ} (xs ys : List A) → ys ≡ [] → xs ≡ xs ++ ys
append_nil_of xs ys h = rw (h, append-nil)

before_stop_mono :
    (stop : Cursor) (m i : Bytes) (s t : ℤ)
    → Follows (m, s) (i, t)
    → before_stop stop s m ≡ false
    → before_stop stop t i ≡ false
before_stop_mono stop m i s t f h = ground (arith, bytes_ltb_trans stop.member i m)

module _ (start stop : Cursor) (key : Bytes) where
  -- The members strictly between the two cursors.
  abbrev pub between : List (Bytes × ℤ) → List KeyScoreMember
  between [] = []
  between ((m, s) ∷ xs) =
      let rest = between xs in
      if past_start start s m && before_stop stop s m then to_tuple key (m, s) ∷ rest else rest

  between_after :
      (m : Bytes) (s : ℤ) (xs : List (Bytes × ℤ))
      → before_stop stop s m ≡ false
      → All (Follows (m, s)) xs
      → between xs ≡ []
  between_after m s [] h a = refl
  between_after m s ((i, t) ∷ xs) h a =
      ground (arith, between_after m s xs h a.1, before_stop_mono stop m i s t a.0)

  -- What the loop over the first `n` of the values `xs` leaves, from a state with `v` validated.
  abbrev pub Scanned : ℕ → List (Bytes × ℤ) → Scan → Scan → Type 0
  Scanned n xs s r =
      ((r.hit_stop ≡ true) × (r.validated ≡ s.validated ++ between xs))
      ⊎ ((r.hit_stop ≡ false)
          × (r.collected ≡ s.collected + length (take n xs))
          × (r.validated ≡ s.validated ++ between (take n xs)))

  scan_lem :
      (n : ℕ) (xs : List (Bytes × ℤ)) (s : Scan)
      → IsDescending xs
      → s.hit_stop ≡ false
      → Scanned n xs s (scan start stop key (take n xs) s)
  unfolding scan
  scan_lem zero xs s d h = inr (h, omega arith, sym (append-nil _))
  scan_lem (suc n) [] s d h = inr (h, omega arith, sym (append-nil _))
  scan_lem (suc n) ((m, t) ∷ xs) s d h =
      let e = to_tuple key (m, t) in
      let s' = record s { collected = s.collected + 1 } in
      ground (
        arith,
        scan_lem n xs s' d.1 h,
        scan_lem n xs (record s' { validated = s.validated ++ e ∷ [] }) d.1 h,
        between_after m t xs,
        append_nil_of s.validated (between xs),
        append_assoc s.validated (e ∷ []) (between xs),
        append_assoc s.validated (e ∷ []) (between (take n xs)),
      )

  between-take_le :
      (n : ℕ) (xs : List (Bytes × ℤ)) → length (between (take n xs)) ≤ length (between xs)
  between-take_le zero xs = omega arith
  between-take_le (suc n) [] = omega arith
  between-take_le (suc n) ((m, t) ∷ xs) = ground (arith, between-take_le n xs)

  -- A page that is full of members between the cursors is the page of the whole list.
  take-between_full :
      (limit n : ℕ) (xs : List (Bytes × ℤ))
      → limit ≤ length (between (take n xs))
      → take limit (between (take n xs)) ≡ take limit (between xs)
  take-between_full zero n xs h = refl
  take-between_full (suc l) zero xs h = absurd (omega arith)
  take-between_full (suc l) (suc n) [] h = refl
  take-between_full (suc l) (suc n) ((m, t) ∷ xs) h =
      ground (arith, take-between_full l n xs, take-between_full (suc l) n xs)

  take-all : (n : ℕ) (xs : List (Bytes × ℤ)) → length (take n xs) < n → take n xs ≡ xs
  take-all zero xs h = absurd (omega arith)
  take-all (suc n) [] h = refl
  take-all (suc n) (x ∷ xs) h = ap (◌∷◌ x) (take-all n xs (omega arith))

  -- For the reply to ZREVRANGEBYSCORE with any LIMIT, out of a list in Redis' order, the page is
  -- the first `limit` members strictly between the cursors, or there is no page, and then the
  -- reply had all of LIMIT members and fewer than `limit` of them are between the cursors.
  pub page_lem :
      (limit n : ℕ) (xs : List (Bytes × ℤ))
      → IsDescending xs
      → (page start stop limit n key (take n xs) ≡ some (take limit (between xs)))
        ⊎ ((page start stop limit n key (take n xs) ≡ none)
            × (n ≤ length xs)
            × (length (between (take n xs)) < limit))
  unfolding page
  page_lem limit n xs d = ground (
    arith,
    scan_lem n xs (record { collected = 0; validated = []; hit_stop = false }) d refl,
    take-between_full limit n xs,
    take-all n xs,
    length-take n xs,
  )

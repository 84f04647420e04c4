-- ===== src/Farm/Repair/Permits.antt =====
-- The permitters, RateLimited and NoRepairs of roshi/farm/repair_strategies.go.
use er_pi_middleware25_artif.Base.{
  ℕ, ◌+◌, ◌-◌, ◌≤◌, ◌<◌, min, ◌≡◌, refl, List, [], ◌∷◌, ℤ, pos, negsuc, ltb_ℤ, pos_part, Bool, true,
  false, ltb, leb, if◌then◌else◌, length, arith, ◌⊎◌, inl, inr, Bool-cases, subst, sym, leb→le, map,
  ◌≤ℤ◌, ◌<ℤ◌,
}
use er_pi_middleware25_artif.Common.{KeyMember}

-- Package tb: a token bucket that is made with freq -1, so that nothing fills it by the clock.
pub record Buckets : Type 1 where
  pub Bucket : Type 0
  pub new_bucket : ℕ → Bucket
  pub take : ℕ → Bucket → ℕ × Bucket
  pub put : ℕ → Bucket → Bucket
  pub capacity : Bucket → ℕ
  pub tokens : Bucket → ℕ
  -- A new bucket is full.
  pub capacity-new : (c : ℕ) → capacity (new_bucket c) ≡ c
  pub tokens-new : (c : ℕ) → tokens (new_bucket c) ≡ c
  -- Take takes what is there, at most n; Put adds what there is room for.
  pub take_got : (n : ℕ) (b : Bucket) → (take n b).0 ≡ min n (tokens b)
  pub take_left : (n : ℕ) (b : Bucket) → tokens (take n b).1 ≡ tokens b - n
  pub capacity-take : (n : ℕ) (b : Bucket) → capacity (take n b).1 ≡ capacity b
  pub tokens-put : (n : ℕ) (b : Bucket) → tokens (put n b) ≡ min (tokens b + n) (capacity b)
  pub capacity-put : (n : ℕ) (b : Bucket) → capacity (put n b) ≡ capacity b

-- What becomes of a repair request.
pub data Fate : Type 0 where
  repaired : List KeyMember → Fate
  discarded : ℕ → Fate

abbrev pub repaired_total : List Fate → ℕ
repaired_total [] = 0
repaired_total (repaired kms ∷ fates) = length kms + repaired_total fates
repaired_total (discarded n ∷ fates) = repaired_total fates

-- Each request is repaired as it is, or counted as discarded.
abbrev pub Accounts : List (List KeyMember) → List Fate → Type 0
Accounts [] [] = Unit
Accounts [] (f ∷ fates) = ⊥
Accounts (kms ∷ requests) [] = ⊥
Accounts (kms ∷ requests) (repaired xs ∷ fates) = (xs ≡ kms) × Accounts requests fates
Accounts (kms ∷ requests) (discarded n ∷ fates) = (n ≡ length kms) × Accounts requests fates

-- A request by its size alone.
abbrev pub by_size : ℕ → List KeyMember → Fate
by_size n kms = if leb (length kms) n then repaired kms else discarded (length kms)

not_leb : (a b : ℕ) → leb a b ≡ false → b < a
not_leb a b h = ground arith

module _ (k : Buckets) where
  open k use {Bucket, new_bucket, take, put, capacity, tokens}

  pub data Permitter : Type 0 where
    allow_all : Permitter
    token_bucket : Bucket → Permitter

  unfoldable pub can_has : ℕ → Permitter → Bool × Permitter
  can_has n allow_all = (true, allow_all)
  can_has n (token_bucket b) =
      let r = take n b in
      if ltb r.0 n then (false, token_bucket (put r.0 r.1)) else (true, token_bucket r.1)

  -- permits of RateLimited
  unfoldable pub new_permitter : ℤ → Permitter
  new_permitter max_elements =
      if ltb_ℤ max_elements (pos 0)
      then allow_all
      else token_bucket (new_bucket (pos_part max_elements))

  unfoldable pub rate_limited : List KeyMember → Permitter → Fate × Permitter
  unfolding can_has
  rate_limited kms p =
      let r = can_has (length kms) p in (if r.0 then repaired kms else discarded (length kms), r.1)

  -- The requests one after the other.
  unfoldable pub rate_limited_all : List (List KeyMember) → Permitter → List Fate × Permitter
  rate_limited_all [] p = ([], p)
  rate_limited_all (kms ∷ requests) p =
      let r = rate_limited kms p in
      let rest = rate_limited_all requests r.1 in (r.0 ∷ rest.0, rest.1)

  -- What Nonblocking makes of RateLimited: it calls the strategy again for every request that its goroutine
  -- receives, so each request meets a permitter of its own.
  unfoldable pub nonblocking_limited : ℤ → List (List KeyMember) → List Fate
  unfolding rate_limited new_permitter
  nonblocking_limited max_elements requests =
      map (λ kms. (rate_limited kms (new_permitter max_elements)).0) requests

  -- Tokens are there within the capacity.
  abbrev pub IsBucket : Bucket → Type 0
  IsBucket b = tokens b ≤ capacity b

  granted :
      (n : ℕ) (b : Bucket)
      → n ≤ tokens b
      → can_has n (token_bucket b) ≡ (true, token_bucket (take n b).1)
  unfolding can_has
  granted n b h = ground (arith, k.take_got n b)

  refused :
      (n : ℕ) (b : Bucket)
      → tokens b < n
      → can_has n (token_bucket b) ≡ (false, token_bucket (put (take n b).0 (take n b).1))
  unfolding can_has
  refused n b h = ground (arith, k.take_got n b)

  -- A token bucket grants a request for n tokens just when it has n, and is then n tokens poorer;
  -- it refuses any other and keeps all its tokens.
  pub can_has_lem :
      (n : ℕ) (b : Bucket)
      → IsBucket b
      → (c : Bucket) × IsBucket c
        × (((n ≤ tokens b)
              × (can_has n (token_bucket b) ≡ (true, token_bucket c))
              × (tokens c + n ≡ tokens b))
            ⊎ ((tokens b < n)
                × (can_has n (token_bucket b) ≡ (false, token_bucket c))
                × (tokens c ≡ tokens b)))
  can_has_lem n b h = elim (Bool-cases (leb n (tokens b))) [
    | inl e ↦
        let l = leb→le _ _ e in
        (
          (take n b).1,
          omega (arith, k.take_left n b, k.capacity-take n b),
          inl (l, granted n b l, omega (arith, k.take_left n b)),
        )
    | inr e ↦
        let l = not_leb n (tokens b) e in
        let got = (take n b).0 in
        let rest = (take n b).1 in
        let back : tokens (put got rest) ≡ tokens b =
          omega
            (arith, k.tokens-put got rest, k.take_left n b, k.take_got n b, k.capacity-take n b) in
        (
          put got rest,
          omega (arith, back, k.capacity-put got rest, k.capacity-take n b),
          inr (l, refused n b l, back),
        )
  ]

  bucket_total :
      (requests : List (List KeyMember)) (b : Bucket)
      → IsBucket b
      → repaired_total (rate_limited_all requests (token_bucket b)).0 ≤ tokens b
  unfolding rate_limited_all rate_limited
  bucket_total [] b h = omega arith
  bucket_total (kms ∷ requests) b h =
      let (c, v, cases) = can_has_lem (length kms) b h in
      elim cases [
        | inl (l, e, t) ↦ rw (e) (omega (arith, bucket_total requests c v, t))
        | inr (l, e, t) ↦ rw (e) (omega (arith, bucket_total requests c v, t))
      ]

  accounts :
      (requests : List (List KeyMember)) (p : Permitter)
      → Accounts requests (rate_limited_all requests p).0
  unfolding rate_limited_all rate_limited
  accounts [] p = tt
  accounts (kms ∷ requests) p =
      go _ (can_has (length kms) p).0 (accounts requests (can_has (length kms) p).1)
    where
      go :
          (fates : List Fate) (b : Bool)
          → Accounts requests fates
          → Accounts (kms ∷ requests) ((if b then repaired kms else discarded (length kms)) ∷ fates)
      go fates true a = (refl, a)
      go fates false a = (refl, a)

  unlimited :
      (requests : List (List KeyMember))
      → (rate_limited_all requests allow_all).0 ≡ map repaired requests
  unfolding rate_limited_all rate_limited can_has
  unlimited [] = refl
  unlimited (kms ∷ requests) = rw (unlimited requests) refl

  new_limited : (n : ℕ) → new_permitter (pos n) ≡ token_bucket (new_bucket n)
  unfolding new_permitter
  new_limited n = ground arith

  new_unlimited : (n : ℕ) → new_permitter (negsuc n) ≡ allow_all
  unfolding new_permitter
  new_unlimited n = ground arith

  -- A request alone: it is repaired if it has at most as many elements as the limit, and else discarded.
  one_limited :
      (n : ℕ) (kms : List KeyMember) → (rate_limited kms (new_permitter (pos n))).0 ≡ by_size n kms
  unfolding rate_limited
  one_limited n kms =
      let (c, v, cases) =
        can_has_lem (length kms) (new_bucket n) (omega (arith, k.tokens-new n, k.capacity-new n)) in
      elim cases [
        | inl (l, e, t) ↦ rw (new_limited n, e) (ground (arith, k.tokens-new n))
        | inr (l, e, t) ↦ rw (new_limited n, e) (ground (arith, k.tokens-new n))
      ]

  all_apart :
      (n : ℕ) (requests : List (List KeyMember))
      → nonblocking_limited (pos n) requests ≡ map (by_size n) requests
  unfolding nonblocking_limited
  all_apart n [] = refl
  all_apart n (kms ∷ requests) = rw (one_limited n kms, all_apart n requests) refl

  -- One core of RateLimited treats each request as a whole: it is repaired, or dropped and counted as
  -- discarded. A limit that is not negative bounds the elements of all requests that this core ever repairs,
  -- not those of each second, since nothing refills the bucket; a negative limit repairs all. Under Nonblocking
  -- no number of requests exhausts such a limit: each request is repaired or discarded by its own size, so
  -- requests that are all within the limit are all repaired.
  pub rate_limited_lem :
      (max_elements : ℤ) (requests : List (List KeyMember))
      → let fates = (rate_limited_all requests (new_permitter max_elements)).0 in
        Accounts requests fates
        × (pos 0 ≤ℤ max_elements → repaired_total fates ≤ pos_part max_elements)
        × (max_elements <ℤ pos 0 → fates ≡ map repaired requests)
        × ((n : ℕ)
            → max_elements ≡ pos n
            → nonblocking_limited max_elements requests ≡ map (by_size n) requests)
  rate_limited_lem max_elements requests = (
    accounts requests (new_permitter max_elements),
    limited max_elements,
    free max_elements,
    apart max_elements,
  )
    where
      apart :
          (m : ℤ) (n : ℕ) → m ≡ pos n → nonblocking_limited m requests ≡ map (by_size n) requests
      apart m n e =
          subst (λ m. nonblocking_limited m requests ≡ map (by_size n) requests) (sym e)
            (all_apart n requests)

      limited :
          (m : ℤ)
          → pos 0 ≤ℤ m
          → repaired_total (rate_limited_all requests (new_permitter m)).0 ≤ pos_part m
      limited (pos n) h = rw (new_limited n) (
          subst
            (λ m. repaired_total (rate_limited_all requests (token_bucket (new_bucket n))).0 ≤ m)
            (k.tokens-new n)
            (bucket_total requests (new_bucket n)
              (omega (arith, k.tokens-new n, k.capacity-new n))))
      limited (negsuc n) h = absurd (omega arith)

      free :
          (m : ℤ)
          → m <ℤ pos 0
          → (rate_limited_all requests (new_permitter m)).0 ≡ map repaired requests
      free (pos n) h = absurd (omega arith)
      free (negsuc n) h = rw (new_unlimited n) (unlimited requests)

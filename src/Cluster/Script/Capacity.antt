-- ===== src/Cluster/Script/Capacity.antt =====
-- What the script does when a set has maxSize members, and which calls it refuses.
use er_pi_middleware25_artif.Base.{
  ℕ, ◌≤◌, ◌≡◌, refl, ◌↔◌, ℤ, ◌<ℤ◌, negsuc, Option, none, some, ◌⊎◌, inl, inr, arith, leb→le, ap,
  Bool, ◌||◌, ◌&&◌, true, ◌≢◌,
}
use er_pi_middleware25_artif.Common.{Bytes}
use er_pi_middleware25_artif.Redis.{Redis}
use er_pi_middleware25_artif.Cluster.Script.{
  inserts, deletes, Call, KeyState, add_set, rem_set, accept, script, older, Side,
}
use er_pi_middleware25_artif.Cluster.Script.Invariant.{IsConsistent, script_cases, refuses}

or_cases : (a b : Bool) → (a || b) ≡ true → (a ≡ true) ⊎ (b ≡ true)
or_cases a b h = ground arith

and_true : (a b : Bool) → (a && b) ≡ true → (a ≡ true) × (b ≡ true)
and_true a b h = ground arith

module _ (r : Redis) where
  open r use {Zset, IsZset, zcard, zscore, zrange_first, zadd, zremrangebyrank}

  -- The call is older than what one of the sets holds of its member, or than the oldest member of
  -- a full set.
  abbrev pub IsStale : ℕ → Call → KeyState r → Type 0
  IsStale max_size c st =
      ((max_size ≤ zcard (add_set r c.side st))
        × ((o : ℤ) × (zrange_first (add_set r c.side st) ≡ some o) × (c.score <ℤ o)))
      ⊎ ((s : ℤ) × (zscore st.inserted c.member ≡ some s) × (c.score <ℤ s))
      ⊎ ((s : ℤ) × (zscore st.deleted c.member ≡ some s) × (c.score <ℤ s))

  older_iff : (ts : ℤ) (o : Option ℤ) → older ts o ≡ true → (s : ℤ) × (o ≡ some s) × (ts <ℤ s)
  older_iff ts none h = cc
  older_iff ts (some s) h = (s, refl, ground arith)

  refuses→IsStale :
      (max_size : ℕ) (c : Call) (st : KeyState r)
      → refuses r max_size c st ≡ true
      → IsStale max_size c st
  refuses→IsStale max_size c st h = elim (or_cases _ _ h) [
    | inl full ↦
        let (bound, old) = and_true _ _ full in
        inl (leb→le _ _ bound, older_iff c.score (zrange_first (add_set r c.side st)) old)
    | inr known ↦ elim (or_cases _ _ known) [
      | inl old ↦ inr (inl (older_iff c.score (zscore st.inserted c.member) old))
      | inr old ↦ inr (inr (older_iff c.score (zscore st.deleted c.member) old))
    ]
  ]

  IsStale→refuses :
      (max_size : ℕ) (c : Call) (st : KeyState r)
      → IsStale max_size c st
      → refuses r max_size c st ≡ true
  IsStale→refuses max_size c st (inl (full, (o, e, h))) = rw e (ground arith)
  IsStale→refuses max_size c st (inr (inl (s, e, h))) = rw e (ground arith)
  IsStale→refuses max_size c st (inr (inr (s, e, h))) = rw e (ground arith)

  -- The script answers -1 exactly for stale calls, and then it has changed nothing. A call is stale if its score
  -- is below that of its member in one of the sets, or below the lowest of the full set that it adds to; a call
  -- of an equal score is not refused.
  pub script_refuses_iff :
      (max_size : ℕ) (c : Call) (st : KeyState r)
      → (((script r max_size c st).1 ≡ negsuc 0) ↔ IsStale max_size c st)
        × ((script r max_size c st).1 ≡ negsuc 0 → (script r max_size c st).0 ≡ st)
  unfolding accept
  script_refuses_iff max_size c st = elim (script_cases r max_size c st) [
    | inl (h, e) ↦
        ((λ _. refuses→IsStale max_size c st h, λ _. ap (λ p. p.1) e), λ _. ap (λ p. p.0) e)
    | inr (h, e) ↦
        let accepted : (script r max_size c st).1 ≢ negsuc 0 = λ d. cc (ap (λ p. p.1) e) in
        (
          (λ d. absurd (accepted d), λ stale. cc (IsStale→refuses max_size c st stale)),
          λ d. absurd (accepted d),
        )
  ]

  -- Where one member too many is in the set, only the lowest goes.
  kept_above :
      (max_size : ℕ) (z : Zset) (ts a : ℤ) (m i : Bytes)
      → IsZset z
      → zcard z ≤ max_size
      → i ≢ m
      → zscore z i ≡ some a
      → a <ℤ ts
      → zscore (zremrangebyrank (zadd z ts m) max_size) m ≡ some ts
  kept_above max_size z ts a m i v bound n e h = ground (
    arith,
    r.zscore-zremrangebyrank (zadd z ts m) max_size m (r.zadd-IsZset z ts m v),
    r.zscore-zadd z ts m m v,
    r.zscore-zadd z ts m i v,
    r.zrank_mono (zadd z ts m) i m a ts (r.zadd-IsZset z ts m v),
    r.zcard-zadd z ts m v,
  )

  -- A call that is accepted leaves its member in the set of its side with its score, and out of
  -- the other set, whenever some other member of that set is older: the trim takes an older one.
  pub script_retains :
      (max_size : ℕ) (c : Call) (st : KeyState r) (i : Bytes) (a : ℤ)
      → IsConsistent r max_size st
      → (script r max_size c st).1 ≢ negsuc 0
      → i ≢ c.member
      → zscore (add_set r c.side st) i ≡ some a
      → a <ℤ c.score
      → (zscore (add_set r c.side (script r max_size c st).0) c.member ≡ some c.score)
        × (zscore (rem_set r c.side (script r max_size c st).0) c.member ≡ none)
  unfolding accept
  script_retains max_size c st i a v accepted n e h = elim (script_cases r max_size c st) [
    | inl (_, stale) ↦ absurd (accepted (ap (λ p. p.1) stale))
    | inr (_, taken) ↦ rw taken (go c.side e)
  ]
    where
      open c use {score, member}

      go :
          (s : Side)
          → zscore (add_set r s st) i ≡ some a
          → let st' = (accept r max_size (record c { side = s }) st).0 in
            (zscore (add_set r s st') member ≡ some score)
            × (zscore (rem_set r s st') member ≡ none)
      go inserts e = (
        kept_above max_size st.inserted score a member i v.inserted_set v.inserted_bounded n e h,
        ground (arith, r.zscore-zrem st.deleted member member),
      )
      go deletes e = (
        kept_above max_size st.deleted score a member i v.deleted_set v.deleted_bounded n e h,
        ground (arith, r.zscore-zrem st.inserted member member),
      )

-- ===== src/Cluster/Script/Invariant.antt =====
-- What the script keeps, and when it refuses a call.
use er_pi_middleware25_artif.Base.{
  ℕ, ◌≤◌, ◌≡◌, ℤ, negsuc, none, ◌⊎◌, inl, inr, arith, leb, Bool, ◌&&◌, ◌||◌, if◌then◌else◌, true,
  false, refl,
}
use er_pi_middleware25_artif.Common.{Bytes}
use er_pi_middleware25_artif.Redis.{Redis}
use er_pi_middleware25_artif.Cluster.Script.{
  Side, inserts, deletes, Call, KeyState, add_set, accept, script, older,
}

swap_sum {ℓ} : {A B : Type ℓ} → A ⊎ B → B ⊎ A
swap_sum (inl a) = inr a
swap_sum (inr b) = inl b

nested_if {ℓ} :
    {A : Type ℓ} (a b c : Bool) (x y : A)
    → (((a || (b || c)) ≡ true) × ((if a then x else if b then x else if c then x else y) ≡ x))
      ⊎ (((a || (b || c)) ≡ false) × ((if a then x else if b then x else if c then x else y) ≡ y))
nested_if true b c x y = inl (refl, refl)
nested_if false true c x y = inl (refl, refl)
nested_if false false true x y = inl (refl, refl)
nested_if false false false x y = inr (refl, refl)

module _ (r : Redis) where
  open r use {Zset, IsZset, zcard, zscore, zrank, zrange_first, zrem, zadd, zremrangebyrank}

  -- No member is in both sets, and neither set has more than `max_size` members.
  pub record IsConsistent (max_size : ℕ) (st : KeyState r) : Type 0 where
    pub inserted_set : IsZset st.inserted
    pub deleted_set : IsZset st.deleted
    pub disjoint : (j : Bytes) → (zscore st.inserted j ≡ none) ⊎ (zscore st.deleted j ≡ none)
    pub inserted_bounded : zcard st.inserted ≤ max_size
    pub deleted_bounded : zcard st.deleted ≤ max_size

  -- The sets after a call that was accepted.
  module _ (max_size : ℕ) (ts : ℤ) (m : Bytes) (add rem : Zset) where
    pub added_absent :
        (j : Bytes)
        → IsZset add
        → (zscore add j ≡ none) ⊎ (zscore rem j ≡ none)
        → (zscore (zremrangebyrank (zadd add ts m) max_size) j ≡ none)
          ⊎ (zscore (zrem rem m) j ≡ none)
    added_absent j v d = ground (
      arith,
      r.zscore-zrem rem m j,
      r.zscore-zremrangebyrank (zadd add ts m) max_size j (r.zadd-IsZset add ts m v),
      r.zscore-zadd add ts m j v,
    )

    pub zcard_added : zcard (zremrangebyrank (zadd add ts m) max_size) ≤ max_size
    zcard_added = omega (arith, r.zcard-zremrangebyrank (zadd add ts m) max_size)

  accept-IsConsistent :
      (max_size : ℕ) (c : Call) (st : KeyState r)
      → IsConsistent max_size st
      → IsConsistent max_size (accept r max_size c st).0
  unfolding accept
  accept-IsConsistent max_size c st v = go c.side
    where
      open c use {score, member}

      go : (s : Side) → IsConsistent max_size (accept r max_size (record c { side = s }) st).0
      go inserts = record {
        inserted_set =
            r.zremrangebyrank-IsZset _ max_size
              (r.zadd-IsZset st.inserted score member v.inserted_set);
        deleted_set = r.zrem-IsZset st.deleted member v.deleted_set;
        disjoint = λ j.
            added_absent max_size score member st.inserted st.deleted j v.inserted_set
              (v.disjoint j);
        inserted_bounded = zcard_added max_size score member st.inserted st.deleted;
        deleted_bounded = omega (arith, r.zcard-zrem st.deleted member, v.deleted_bounded);
      }
      go deletes = record {
        inserted_set = r.zrem-IsZset st.inserted member v.inserted_set;
        deleted_set =
            r.zremrangebyrank-IsZset _ max_size
              (r.zadd-IsZset st.deleted score member v.deleted_set);
        disjoint = λ j. swap_sum (
            added_absent max_size score member st.deleted st.inserted j v.deleted_set
              (swap_sum (v.disjoint j)));
        inserted_bounded = omega (arith, r.zcard-zrem st.inserted member, v.inserted_bounded);
        deleted_bounded = zcard_added max_size score member st.deleted st.inserted;
      }

  -- The three tests of the script, in one.
  abbrev pub refuses : ℕ → Call → KeyState r → Bool
  refuses max_size c st =
      (leb max_size (zcard (add_set r c.side st))
        && older c.score (zrange_first (add_set r c.side st)))
      || (older c.score (zscore st.inserted c.member) || older c.score (zscore st.deleted c.member))

  pub script_cases :
      (max_size : ℕ) (c : Call) (st : KeyState r)
      → ((refuses max_size c st ≡ true) × (script r max_size c st ≡ (st, negsuc 0)))
        ⊎ ((refuses max_size c st ≡ false) × (script r max_size c st ≡ accept r max_size c st))
  unfolding script
  script_cases max_size c st =
      nested_if
        (leb max_size (zcard (add_set r c.side st))
          && older c.score (zrange_first (add_set r c.side st)))
        (older c.score (zscore st.inserted c.member)) (older c.score (zscore st.deleted c.member)) _
        _

  -- Every call of the insert or the delete script, accepted or refused, keeps the two sets of a
  -- key apart and each within maxSize.
  pub script-IsConsistent :
      (max_size : ℕ) (c : Call) (st : KeyState r)
      → IsConsistent max_size st
      → IsConsistent max_size (script r max_size c st).0
  script-IsConsistent max_size c st v = elim (script_cases max_size c st) [
    | inl (_, e) ↦ rw e v
    | inr (_, e) ↦ rw e (accept-IsConsistent max_size c st v)
  ]

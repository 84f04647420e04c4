-- ===== src/Cluster/Script/Register.antt =====
-- The sets of a key as a last-write-wins register for each member, and the order of calls.
use mathlib.Core.List.Permᴰ
use mathlib.Core.List.{Mem, Perm, Permᴰ, mem-cons_self, mem-cons_of_mem}
use mathlib.Core.Logic.{∥∥₁_elim}
use er_pi_middleware25_artif.Base.{
  ℕ, ◌+◌, ◌≤◌, ◌<◌, ◌≡◌, refl, ◌∙◌, ap, ℤ, ltb_ℤ, Option, none, some, List, [], ◌∷◌, arith, ite,
  if◌then◌else◌, length, length-permᴰ, suc, sym, eq_of_le_le,
}
use er_pi_middleware25_artif.Common.{Bytes, Bytes-discrete}
use er_pi_middleware25_artif.Redis.{Redis}
use er_pi_middleware25_artif.Cluster.Script.{
  Side, inserts, deletes, Call, KeyState, add_set, accept, script, run_scripts,
}
use er_pi_middleware25_artif.Cluster.Script.Invariant.{IsConsistent, script-IsConsistent}

-- The side and the score of the newest call that a member has seen.
abbrev pub Entry : Type 0
Entry = Side × ℤ

-- A call wins unless it is older than what is there: one of the same score wins too, although README.md and the
-- comments in cluster/cluster.go say that a score must be larger.
unfoldable pub merge : Side → ℤ → Option Entry → Entry
merge side ts none = (side, ts)
merge side ts (some (k, s)) = if ltb_ℤ ts s then (k, s) else (side, ts)

abbrev pub entry : Option ℤ → Option ℤ → Option Entry
entry (some s) d = some (inserts, s)
entry none (some s) = some (deletes, s)
entry none none = none

module _ (r : Redis) where
  open r use {Zset, IsZset, zcard, zscore, zrank, zrange_first, zrem, zadd, zremrangebyrank}

  -- What the two sets hold of a member.
  unfoldable pub stored : KeyState r → Bytes → Option Entry
  stored st j = entry (zscore st.inserted j) (zscore st.deleted j)

  -- With room for one more member the trim removes nothing.
  zscore_added :
      (max_size : ℕ) (z : Zset) (ts : ℤ) (m j : Bytes)
      → IsZset z
      → zcard z < max_size
      → zscore (zremrangebyrank (zadd z ts m) max_size) j
        ≡ ite (Bytes-discrete m j) (some ts) (zscore z j)
  zscore_added max_size z ts m j v room = ground (
    arith,
    r.zscore-zremrangebyrank (zadd z ts m) max_size j (r.zadd-IsZset z ts m v),
    r.zscore-zadd z ts m j v,
    r.zcard-zadd z ts m v,
  )

  -- While the set that a call adds to is not full, the call updates the register of its member
  -- by `merge`, in which a score that is equal to the stored one wins as a larger one does, and leaves every
  -- other member as it was.
  pub stored-script :
      (max_size : ℕ) (c : Call) (st : KeyState r) (j : Bytes)
      → IsConsistent r max_size st
      → zcard (add_set r c.side st) < max_size
      → stored (script r max_size c st).0 j
        ≡ ite
            (Bytes-discrete c.member j)
            (some (merge c.side c.score (stored st c.member)))
            (stored st j)
  unfolding script accept stored merge
  stored-script max_size c st j v room = go c.side room
    where
      open c use {score, member}

      go :
          (s : Side)
          → zcard (add_set r s st) < max_size
          → stored (script r max_size (record c { side = s }) st).0 j
            ≡ ite (Bytes-discrete member j) (some (merge s score (stored st member))) (stored st j)
      go inserts h = ground (
        arith,
        zscore_added max_size st.inserted score member j v.inserted_set h,
        r.zscore-zrem st.deleted member j,
        v.disjoint j,
        v.disjoint member,
      )
      go deletes h = ground (
        arith,
        zscore_added max_size st.deleted score member j v.deleted_set h,
        r.zscore-zrem st.inserted member j,
        v.disjoint j,
        v.disjoint member,
      )

-- The register of one member after a list of calls.
unfoldable pub replay : List Call → Bytes → Option Entry → Option Entry
replay [] j e = e
replay (c ∷ cs) j e =
    replay cs j (ite (Bytes-discrete c.member j) (some (merge c.side c.score e)) e)

-- No two calls for one member have the same score on different sides.
abbrev pub Settled : List Call → Type 0
Settled cs =
    (a b : Call) → Mem a cs → Mem b cs → a.member ≡ b.member → a.score ≡ b.score → a.side ≡ b.side

merge_comm :
    (k i : Side) (a b : ℤ) (e : Option Entry)
    → (a ≡ b → k ≡ i)
    → merge k a (some (merge i b e)) ≡ merge i b (some (merge k a e))
unfolding merge
merge_comm k i a b none h = ground (arith, h, eq_of_le_le a b)
merge_comm k i a b (some (l, c)) h = ground (arith, h, eq_of_le_le a b)

replay_swap :
    (a b : Call) (cs : List Call) (j : Bytes) (e : Option Entry)
    → (a.member ≡ b.member → a.score ≡ b.score → a.side ≡ b.side)
    → replay (b ∷ a ∷ cs) j e ≡ replay (a ∷ b ∷ cs) j e
unfolding replay
replay_swap a b cs j e h =
    ap (replay cs j) (ground (arith, merge_comm a.side b.side a.score b.score e))

replay-perm :
    (cs ds : List Call) (j : Bytes) (e : Option Entry)
    → Permᴰ cs ds
    → Settled cs
    → replay cs j e ≡ replay ds j e
unfolding replay
replay-perm _ _ j e Permᴰ.nil h = refl
replay-perm _ _ j e (Permᴰ.cons {a} {b} {l₁ = cs} {l₂ = ds} p q) h =
    rw (← p)
      (replay-perm cs ds j _ q (λ x y mx my. h x y (mem-cons_of_mem a mx) (mem-cons_of_mem a my)))
replay-perm _ _ j e (Permᴰ.swap {a} {b} {l} p q) h =
    rw (← p, ← q)
      (replay_swap b a l j e (λ m s. h b a (mem-cons_of_mem a mem-cons_self) mem-cons_self m s))
replay-perm cs ds j e (Permᴰ.trans {l₂ = bs} p q) h =
    replay-perm cs bs j e p h
    ∙ replay-perm bs ds j e q
        (λ x y mx my. h x y (Permᴰ.mem (Permᴰ.symm p) mx) (Permᴰ.mem (Permᴰ.symm p) my))

module _ (r : Redis) where
  open r use {zcard}

  -- Neither set of a key grows by more than one member.
  zcard-script :
      (max_size : ℕ) (c : Call) (st : KeyState r)
      → IsConsistent r max_size st
      → (zcard (script r max_size c st).0.inserted ≤ zcard st.inserted + 1)
        × (zcard (script r max_size c st).0.deleted ≤ zcard st.deleted + 1)
  unfolding script accept
  zcard-script max_size c st v = go c.side
    where
      open c use {score, member}

      go :
          (s : Side)
          → (zcard (script r max_size (record c { side = s }) st).0.inserted
              ≤ zcard st.inserted + 1)
            × (zcard (script r max_size (record c { side = s }) st).0.deleted
                ≤ zcard st.deleted + 1)
      go inserts = ground (
        arith,
        r.zcard-zremrangebyrank (r.zadd st.inserted score member) max_size,
        r.zcard-zadd st.inserted score member v.inserted_set,
        r.zcard-zrem st.deleted member,
      )
      go deletes = ground (
        arith,
        r.zcard-zremrangebyrank (r.zadd st.deleted score member) max_size,
        r.zcard-zadd st.deleted score member v.deleted_set,
        r.zcard-zrem st.inserted member,
      )

  -- There is room for `n` more members in both sets.
  abbrev pub HasRoom : ℕ → ℕ → KeyState r → Type 0
  HasRoom max_size n st = (zcard st.inserted + n ≤ max_size) × (zcard st.deleted + n ≤ max_size)

  HasRoom-add :
      (max_size n : ℕ) (s : Side) (st : KeyState r)
      → HasRoom max_size (suc n) st
      → zcard (add_set r s st) < max_size
  HasRoom-add max_size n inserts st h = omega arith
  HasRoom-add max_size n deletes st h = omega arith

  -- While there is room, a list of calls takes every register through its `merge`s, in which a call wins over
  -- an earlier one of a lower or an equal score.
  pub stored-run_scripts :
      (max_size : ℕ) (cs : List Call) (st : KeyState r) (j : Bytes)
      → IsConsistent r max_size st
      → HasRoom max_size (length cs) st
      → stored r (run_scripts r max_size cs st) j ≡ replay cs j (stored r st j)
  unfolding run_scripts replay
  stored-run_scripts max_size [] st j v room = refl
  stored-run_scripts max_size (c ∷ cs) st j v room =
      let grown = zcard-script max_size c st v in
      stored-run_scripts max_size cs (script r max_size c st).0 j
        (script-IsConsistent r max_size c st v) (omega arith, omega arith)
      ∙ ap (replay cs j) (
          ground (
            arith,
            stored-script r max_size c st j v (HasRoom-add max_size (length cs) c.side st room),
          ))

  -- Replicas of a key converge: the same calls in another order leave every member in the same
  -- register, when there is room for them all and calls of one score for one member are on one
  -- side.
  pub run_scripts-perm :
      (max_size : ℕ) (cs ds : List Call) (st : KeyState r) (j : Bytes)
      → IsConsistent r max_size st
      → HasRoom max_size (length cs) st
      → Settled cs
      → Perm cs ds
      → stored r (run_scripts r max_size cs st) j ≡ stored r (run_scripts r max_size ds st) j
  run_scripts-perm max_size cs ds st j v room h p = ∥∥₁_elim p (Option_set _ _) λ q.
      let same = length-permᴰ cs ds q in
      stored-run_scripts max_size cs st j v room
      ∙ replay-perm cs ds j (stored r st j) q h
      ∙ sym (stored-run_scripts max_size ds st j v (omega arith, omega arith))
    where
      Option_set : IsSet (Option Entry)
      Option_set = hlevel

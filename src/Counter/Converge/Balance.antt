-- ===== src/Counter/Converge/Balance.antt =====
-- The replicas of the counter of Go_RDL/Library/pncounter.go agree once all messages are exchanged.
use er_pi_middleware25_artif.Base.{
  ℕ, ◌+◌, ◌-◌, ◌%◌, ◌<◌, ◌≡◌, refl, sym, ap, ◌∙◌, List, [], ◌∷◌, ◌++◌, Option, none, some, map,
  false, All, arith, subst,
}
use er_pi_middleware25_artif.Common.{Bytes}
use er_pi_middleware25_artif.Common.Digits.{print_uint64, IsAscii, print_uint64-IsAscii}
use er_pi_middleware25_artif.Counter.{
  int_mod, inc_name, dec_name, set_val, Counter, new_counter, inc, dec, merge, Received, panics,
  receives, to_marshal, from_marshal,
}
use er_pi_middleware25_artif.Counter.Replicas.{
  Replica, fresh, act, write, handle, Run, starts, increments, decrements, broadcasts, reads,
  overwrites,
}
use er_pi_middleware25_artif.Counter.Converge.{total, merge_lem, inc_lem, dec_lem}
use er_pi_middleware25_artif.Counter.Converge.Kept.{
  kept, kept-append, kept-write, kept-fresh, All-map, All-weaken, All-split, All-join,
}

pub some_injective : {c d : Counter} → some c ≡ some d → c ≡ d
some_injective e = cc

abbrev pub names_of : Received → List Bytes
names_of panics = []
names_of (receives rid names) = names

inc-IsAscii : IsAscii inc_name
inc-IsAscii = (omega arith, (omega arith, (omega arith, tt)))

dec-IsAscii : IsAscii dec_name
dec-IsAscii = (omega arith, (omega arith, (omega arith, tt)))

names-IsAscii :
    (name : Bytes) (names : List Bytes)
    → IsAscii name
    → All IsAscii names
    → All IsAscii (names ++ name ∷ [])
names-IsAscii name [] h a = (h, tt)
names-IsAscii name (x ∷ names) h a = (a.0, names-IsAscii name names h a.1)

-- Nothing is on its way.
abbrev pub IsQuiet : Replica → Type 0
IsQuiet r = (r.inbox ≡ []) × (r.counter.updates ≡ [])

-- incs - decs as an int.
abbrev pub difference : ℕ → ℕ → ℕ
difference incs decs = (incs + (int_mod - decs % int_mod)) % int_mod

module _ (marshal : List Bytes → Bytes) (unmarshal : Bytes → Option (List Bytes))
    (json : (names : List Bytes) → All IsAscii names → unmarshal (marshal names) ≡ some names) where
  -- What the messages of an inbox add.
  abbrev pub arriving : List Bytes → ℕ
  arriving [] = 0
  arriving (m ∷ ms) = total (names_of (from_marshal marshal unmarshal m)) + arriving ms

  pub arriving-append : (xs ys : List Bytes) → arriving (xs ++ ys) ≡ arriving xs + arriving ys
  arriving-append [] ys = omega arith
  arriving-append (x ∷ xs) ys = omega (arith, arriving-append xs ys)

  -- A replica's value, what is on its way to it and what the others keep amount to all the operations.
  pub record IsBalanced (incs decs all : ℕ) (r : Replica) : Type 0 where
    pub small : r.counter.value < int_mod
    pub sums :
        (r.counter.value + arriving r.inbox + all + decs) % int_mod
        ≡ (incs + total r.counter.updates) % int_mod
    pub ascii : All IsAscii r.counter.updates

  pub shift-IsBalanced :
      (incs decs all incs' decs' all' : ℕ)
      → (all' + decs' + incs) % int_mod ≡ (all + decs + incs') % int_mod
      → (r : Replica) → IsBalanced incs decs all r
      → IsBalanced incs' decs' all' r
  shift-IsBalanced incs decs all incs' decs' all' e r b = record {
    small = b.small;
    sums = omega (arith, e, b.sums);
    ascii = b.ascii;
  }

  pub arriving-marshal :
      (c : Counter)
      → All IsAscii c.updates
      → arriving ((to_marshal marshal unmarshal c).0 ∷ []) ≡ total c.updates
  unfolding to_marshal from_marshal
  arriving-marshal c a =
      rw (json (print_uint64 c.id ∷ c.updates) (print_uint64-IsAscii c.id, a), from_marshal)
        (omega arith)

  pub write-IsBalanced :
      (incs decs all all' : ℕ) (c : Counter)
      → all ≡ total c.updates + all'
      → All IsAscii c.updates
      → (r : Replica) → IsBalanced incs decs all r
      → IsBalanced incs decs all' (write (to_marshal marshal unmarshal c).0 r)
  write-IsBalanced incs decs all all' c e a r b =
      let m = (to_marshal marshal unmarshal c).0 in
      record {
        small = b.small;
        sums = omega (arith, e, b.sums, arriving-append r.inbox (m ∷ []), arriving-marshal c a);
        ascii = b.ascii;
      }

  pub kept_middle :
      (before after : List Replica) (r : Replica)
      → kept (before ++ r ∷ after) ≡ kept before + total r.counter.updates + kept after
  kept_middle before after r = omega (arith, kept-append before (r ∷ after))

  -- An operation on one counter.
  pub act-IsBalanced :
      (incs decs incs' decs' n : ℕ) (before after : List Replica) (r : Replica)
      (f : Counter → Counter)
      → (f r.counter).value ≡ (r.counter.value + n) % int_mod
      → total (f r.counter).updates ≡ total r.counter.updates + n
      → (All IsAscii r.counter.updates → All IsAscii (f r.counter).updates)
      → (n + decs' + incs) % int_mod ≡ (decs + incs') % int_mod
      → All (IsBalanced incs decs (kept (before ++ r ∷ after))) (before ++ r ∷ after)
      → All (IsBalanced incs' decs' (kept (before ++ act f r ∷ after))) (before ++ act f r ∷ after)
  act-IsBalanced incs decs incs' decs' n before after r f v u plain e a =
      let old = kept (before ++ r ∷ after) in
      let new = kept (before ++ act f r ∷ after) in
      let grows : new ≡ old + n =
        omega (arith, kept_middle before after r, kept_middle before after (act f r), u) in
      let (x, y, z) = All-split (IsBalanced incs decs old) before after r a in
      let others = shift-IsBalanced incs decs old incs' decs' new (omega (arith, grows, e)) in
      All-join _ before after (act f r) (All-weaken _ _ others before x)
        (record {
          small = omega (arith, v);
          sums = omega (arith, v, u, e, grows, y.sums);
          ascii = plain y.ascii;
        })
        (All-weaken _ _ others after z)

  pub fresh-IsBalanced :
      (all : ℕ) → all ≡ 0 → (ids : List ℕ) → All (IsBalanced 0 0 all) (map fresh ids)
  unfolding new_counter
  fresh-IsBalanced all e [] = tt
  fresh-IsBalanced all e (i ∷ ids) = (
    record { small = omega arith; sums = omega (arith, e); ascii = tt },
    fresh-IsBalanced all e ids,
  )

  pub marshal_keeps :
      (c : Counter)
      → ((to_marshal marshal unmarshal c).1.value ≡ c.value)
        × ((to_marshal marshal unmarshal c).1.updates ≡ [])
  unfolding to_marshal
  marshal_keeps c = (refl, refl)

  pub broadcast-IsBalanced :
      (incs decs : ℕ) (before after : List Replica) (r : Replica)
      → All (IsBalanced incs decs (kept (before ++ r ∷ after))) (before ++ r ∷ after)
      → let w = map (write (to_marshal marshal unmarshal r.counter).0) in
        let rs =
          w before ++ record r { counter = (to_marshal marshal unmarshal r.counter).1 } ∷ w after in
        All (IsBalanced incs decs (kept rs)) rs
  broadcast-IsBalanced incs decs before after r a =
      let m = (to_marshal marshal unmarshal r.counter).0 in
      let s : Replica = record r { counter = (to_marshal marshal unmarshal r.counter).1 } in
      let old = kept (before ++ r ∷ after) in
      let new = kept (map (write m) before ++ s ∷ map (write m) after) in
      let (v, u) = marshal_keeps r.counter in
      let empties : total s.counter.updates ≡ 0 = rw (u) refl in
      let falls : old ≡ total r.counter.updates + new = omega (
        arith,
        kept_middle before after r,
        kept_middle (map (write m) before) (map (write m) after) s,
        kept-write m before,
        kept-write m after,
        empties,
      ) in
      let (x, y, z) = All-split (IsBalanced incs decs old) before after r a in
      let others = write-IsBalanced incs decs old new r.counter falls y.ascii in
      All-join _ (map (write m) before) (map (write m) after) s
        (All-map _ _ (write m) others before x)
        (record {
          small = omega (arith, v, y.small);
          sums = omega (arith, v, empties, falls, y.sums);
          ascii = subst (All IsAscii) (sym u) tt;
        })
        (All-map _ _ (write m) others after z)

  pub handle_lem :
      (line : Bytes) (c c' : Counter)
      → c.value < int_mod
      → handle marshal unmarshal line c ≡ some c'
      → (c'.value ≡ (c.value + arriving (line ∷ [])) % int_mod) × (c'.updates ≡ c.updates)
  unfolding handle
  handle_lem line c c' h e = go (from_marshal marshal unmarshal line) e
    where
      go :
          (x : Received)
          → elim x as (λ _. Option Counter) [
            | panics ↦ none
            | receives rid names ↦ some (merge names c)
          ]
            ≡ some c'
          → (c'.value ≡ (c.value + (total (names_of x) + 0)) % int_mod) × (c'.updates ≡ c.updates)
      go panics f = cc
      go (receives rid names) f =
          let (v, u) = merge_lem names c h in
          let g : merge names c ≡ c' = some_injective f in
          (ap (λ d. d.value) (sym g) ∙ v ∙ omega arith, ap (λ d. d.updates) (sym g) ∙ u)

  pub read-IsBalanced :
      (incs decs : ℕ) (before after : List Replica) (r : Replica) (earlier later : List Bytes)
      (line : Bytes) (c : Counter)
      → r.inbox ≡ earlier ++ line ∷ later
      → handle marshal unmarshal line r.counter ≡ some c
      → All (IsBalanced incs decs (kept (before ++ r ∷ after))) (before ++ r ∷ after)
      → let rs = before ++ record { counter = c; inbox = earlier ++ later } ∷ after in
        All (IsBalanced incs decs (kept rs)) rs
  read-IsBalanced incs decs before after r earlier later line c e h a =
      let s : Replica = record { counter = c; inbox = earlier ++ later } in
      let old = kept (before ++ r ∷ after) in
      let new = kept (before ++ s ∷ after) in
      let (x, y, z) = All-split (IsBalanced incs decs old) before after r a in
      let (v, u) = handle_lem line r.counter c y.small h in
      let same : new ≡ old =
        omega (arith, kept_middle before after r, kept_middle before after s, ap total u) in
      let others = shift-IsBalanced incs decs old incs decs new (omega (arith, same)) in
      All-join _ before after s (All-weaken _ _ others before x)
        (record {
          small = omega (arith, v);
          sums = omega (
            arith,
            v,
            ap total u,
            same,
            y.sums,
            ap arriving e,
            arriving-append earlier (line ∷ later),
            arriving-append earlier later,
          );
          ascii = subst (All IsAscii) (sym u) y.ascii;
        })
        (All-weaken _ _ others after z)

  pub Run-IsBalanced :
      {incs decs : ℕ} (rs : List Replica)
      → Run marshal unmarshal false incs decs rs
      → All (IsBalanced incs decs (kept rs)) rs
  unfolding inc dec set_val
  Run-IsBalanced _ (starts ids) = fresh-IsBalanced (kept (map fresh ids)) (kept-fresh ids) ids
  Run-IsBalanced _ (increments {incs = i} {decs = d} before after r run) =
      act-IsBalanced i d (i + 1) d 1 before after r inc (inc_lem r.counter).0 (inc_lem r.counter).1
        (names-IsAscii inc_name r.counter.updates inc-IsAscii) (omega arith) (Run-IsBalanced _ run)
  Run-IsBalanced _ (decrements {incs = i} {decs = d} before after r run) =
      act-IsBalanced i d i (d + 1) (int_mod - 1) before after r dec (dec_lem r.counter).0
        (dec_lem r.counter).1 (names-IsAscii dec_name r.counter.updates dec-IsAscii) (omega arith)
        (Run-IsBalanced _ run)
  Run-IsBalanced _ (broadcasts {incs = i} {decs = d} before after r run) =
      broadcast-IsBalanced i d before after r (Run-IsBalanced _ run)
  Run-IsBalanced _ (reads {incs = i} {decs = d} before after r earlier later line c e h run) =
      read-IsBalanced i d before after r earlier later line c e h (Run-IsBalanced _ run)
  Run-IsBalanced _
        (overwrites before after r earlier middle later line other name rid rid' names o e f g
          run) =
      cc

  pub quiet-kept : (rs : List Replica) → All IsQuiet rs → kept rs ≡ 0
  quiet-kept [] a = refl
  quiet-kept (r ∷ rs) a = omega (arith, quiet-kept rs a.1, ap total a.0.1)

  -- In runs without overlapping operations of a replica, and when JSON reads back lists of ASCII strings:
  -- whatever the order of operations, broadcasts and reads at any number of replicas, once every
  -- update was broadcast and every message was read each replica has the same value: the number of
  -- increments less that of decrements made at all replicas, as an int.
  pub replicas_converge :
      {incs decs : ℕ} (rs : List Replica)
      → Run marshal unmarshal false incs decs rs
      → All IsQuiet rs
      → All (λ r. r.counter.value ≡ difference incs decs) rs
  replicas_converge {incs = incs} {decs = decs} rs run quiet =
      go rs (quiet-kept rs quiet) (Run-IsBalanced rs run) quiet
    where
      go :
          (xs : List Replica)
          → kept rs ≡ 0
          → All (IsBalanced incs decs (kept rs)) xs
          → All IsQuiet xs
          → All (λ r. r.counter.value ≡ difference incs decs) xs
      go [] e a q = tt
      go (r ∷ xs) e a q = (
        omega (arith, e, a.0.small, a.0.sums, ap arriving q.0.0, ap total q.0.1),
        go xs e a.1 q.1,
      )

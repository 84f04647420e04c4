-- ===== src/Server/Pages.antt =====
-- The pages of a coalesced select, and those of the farm, against the orders that they are cut from.
use mathlib.Core.List.{Perm}
use mathlib.Core.List.Perm
use er_pi_middleware25_artif.Base.{
  ℕ, zero, suc, ◌+◌, none, leb, ltb, ◌||◌, length, if◌then◌else◌, ℤ, some, sym, subst, ◌∙◌, ◌≡◌,
  refl, ap, List, [], ◌∷◌, pos, true, false, map, take, drop, arith,
}
use er_pi_middleware25_artif.Common.{Bytes, bytes_ltb, KeyScoreMember, Cursor}
use er_pi_middleware25_artif.Cluster.Range.{past_start, page, Scan, scan}
use er_pi_middleware25_artif.Cluster.Range.Page.{IsDescending}
use er_pi_middleware25_artif.Farm.Sets.{ordered_limited_slice}
use er_pi_middleware25_artif.Farm.Reads.{Response}
use er_pi_middleware25_artif.Server.{returns, all_members, flatten}
use er_pi_middleware25_artif.Server.Selects.{flatten-page}
use er_pi_middleware25_artif.Server.Order.{
  cursor, less, farm_less, IsOrdered, ordered_agree, bytes_asymm, bytes_irrefl,
}

map-take : (n : ℕ) (xs : List KeyScoreMember) → map cursor (take n xs) ≡ take n (map cursor xs)
map-take zero xs = refl
map-take (suc n) [] = refl
map-take (suc n) (x ∷ xs) = ap (λ ys. cursor x ∷ ys) (map-take n xs)

map-drop : (n : ℕ) (xs : List KeyScoreMember) → map cursor (drop n xs) ≡ drop n (map cursor xs)
map-drop zero xs = refl
map-drop (suc n) [] = refl
map-drop (suc n) (x ∷ xs) = map-drop n xs

-- What sort.Sort promises of a list, given the order of the server.
pub record Sorts (sort : List KeyScoreMember → List KeyScoreMember) (xs : List KeyScoreMember)
    : Type 0 where
  pub permutes : Perm (sort xs) xs
  pub orders : IsOrdered less (sort xs)

-- A coalesced page does not depend on the order in which Go ranges over the response, nor on how
-- sort.Sort treats ties: for the same tuples any two runs return the same scores and members, in
-- the same order. Only the key of tuples that agree in both may differ.
pub flatten_determined :
    (sort sort' : List KeyScoreMember → List KeyScoreMember) (m m' : Response) (offset limit : ℕ)
    → Sorts sort (all_members m)
    → Sorts sort' (all_members m')
    → Perm (all_members m) (all_members m')
    → (a b : List KeyScoreMember) × (flatten sort m (pos offset) (pos limit) ≡ returns a)
      × (flatten sort' m' (pos offset) (pos limit) ≡ returns b)
      × (map cursor a ≡ map cursor b)
flatten_determined sort sort' m m' offset limit s s' p =
    let xs = sort (all_members m) in
    let ys = sort' (all_members m') in
    let agree =
      ordered_agree xs ys s.orders s'.orders
        (Perm.trans s.permutes (Perm.trans p (Perm.symm s'.permutes))) in
    (
      take limit (drop offset xs),
      take limit (drop offset ys),
      flatten-page sort m offset limit,
      flatten-page sort' m' offset limit,
      rw (map-take, map-take, map-drop, map-drop, agree) refl,
    )

farm_ties : (a b : KeyScoreMember) → a.score ≡ b.score → farm_less a b ≡ false
farm_ties a b e = ground arith

-- A tuple as the clusters' sorted sets list it.
abbrev pub listed_as : KeyScoreMember → Bytes × ℤ
listed_as t = (t.member, t.score)

not_accepted :
    (a b : KeyScoreMember)
    → a.score ≡ b.score
    → bytes_ltb a.member b.member ≡ false
    → past_start (cursor b) a.score a.member ≡ false
not_accepted a b e k = ground arith

-- A value that is not past the start is only counted.
scan_past :
    (start stop : Cursor) (key m : Bytes) (t : ℤ) (xs : List (Bytes × ℤ)) (s : Scan)
    → past_start start t m ≡ false
    → scan start stop key ((m, t) ∷ xs) s
      ≡ scan start stop key xs (record s { collected = s.collected + 1 })
unfolding scan
scan_past start stop key m t xs s h = rw (scan, h) refl

empty_page :
    (limit : ℕ)
    → (if leb limit 0 || (ltb (0 + 1 + 1) 3 || false)
        then some (take {A = KeyScoreMember} limit [])
        else none)
      ≡ some []
empty_page zero = refl
empty_page (suc limit) = ground arith

next_page :
    (a b : KeyScoreMember) (stop : Cursor) (limit : ℕ) (key : Bytes)
    → a.score ≡ b.score
    → bytes_ltb a.member b.member ≡ false
    → page (cursor b) stop limit 3 key (listed_as a ∷ listed_as b ∷ []) ≡ some []
unfolding page scan
next_page a b stop limit key e k =
    let s : Scan = record { collected = 0; validated = []; hit_stop = false } in
    let two =
      scan_past (cursor b) stop key a.member a.score (listed_as b ∷ []) s (not_accepted a b e k)
      ∙ scan_past (cursor b) stop key b.member b.score [] (record s { collected = 0 + 1 })
          (not_accepted b b refl (bytes_irrefl b.member)) in
    subst
      (λ (s : Scan).
        (if leb limit (length s.validated) || (ltb s.collected 3 || s.hit_stop)
          then some (take limit s.validated)
          else none)
        ≡ some [])
      (sym two) (empty_page limit)

-- The farm orders by score alone. Of two tuples with one score, of which the clusters list `a` first, its sort
-- may put `b` first. A page of one tuple is then `b`, and the page that starts at its cursor, from a reply with both, is empty, for any
-- stop, limit and key: `a` is on neither page.
pub ties_lost :
    (sort : List KeyScoreMember → List KeyScoreMember) (a b : KeyScoreMember) (stop : Cursor)
    (limit : ℕ) (key : Bytes)
    → a.score ≡ b.score
    → bytes_ltb b.member a.member ≡ true
    → sort (a ∷ b ∷ []) ≡ b ∷ a ∷ []
    → IsDescending (listed_as a ∷ listed_as b ∷ [])
      × IsOrdered farm_less (sort (a ∷ b ∷ []))
      × (ordered_limited_slice sort 1 (a ∷ b ∷ []) ≡ b ∷ [])
      × (page (cursor b) stop limit 3 key (listed_as a ∷ listed_as b ∷ []) ≡ some [])
unfolding ordered_limited_slice
ties_lost sort a b stop limit key e h s =
    let k = bytes_asymm b.member a.member h in
    (
      ((ground arith, tt), (tt, tt)),
      subst (IsOrdered farm_less) (sym s) ((farm_ties a b e, tt), (tt, tt)),
      rw (s) refl,
      next_page a b stop limit key e k,
    )

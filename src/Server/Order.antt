-- ===== src/Server/Order.antt =====
-- The orders by which tuples are sorted: Less of roshi-server/main.go and of farm/farm.go.

use mathlib.Core.Logic.{∥∥₁_elim}
use mathlib.Core.List.{Perm}
use mathlib.Core.List.Perm
use er_pi_middleware25_artif.Base.{
  ◌≡◌, refl, sym, ap, subst, List, [], ◌∷◌, ℤ, ltb_ℤ, eqb_ℤ, Bool, true, false, not, if◌then◌else◌,
  All, map, arith, eq_of_le_le,
}
use er_pi_middleware25_artif.Common.{Bytes, bytes_ltb, KeyScoreMember, Cursor}
use er_pi_middleware25_artif.Cluster.Score.Merge.{All-permᴰ}

-- KeyScoreMember.Cursor
abbrev pub cursor : KeyScoreMember → Cursor
cursor t = record { score = t.score; member = t.member }

-- Less of the server, on what it reads of two tuples: a higher score comes first, and of equal
-- scores the greater member.
abbrev pub less_cursor : Cursor → Cursor → Bool
less_cursor a b =
    if not (eqb_ℤ a.score b.score) then ltb_ℤ b.score a.score else bytes_ltb b.member a.member

abbrev pub less : KeyScoreMember → KeyScoreMember → Bool
less a b = less_cursor (cursor a) (cursor b)

-- Less of the farm.
abbrev pub farm_less : KeyScoreMember → KeyScoreMember → Bool
farm_less a b = ltb_ℤ b.score a.score

-- What sort.Sort makes of a list: no element is less than one that stands before it.
module _ {A : Type 0} (less : A → A → Bool) where
  abbrev pub IsOrdered : List A → Type 0
  IsOrdered [] = Unit
  IsOrdered (x ∷ xs) = All (λ y. less y x ≡ false) xs × IsOrdered xs

bytes_antisymm : (a b : Bytes) → bytes_ltb a b ≡ false → bytes_ltb b a ≡ false → a ≡ b
bytes_antisymm [] [] h k = refl
bytes_antisymm [] (y ∷ b) h k = cc
bytes_antisymm (x ∷ a) [] h k = cc
bytes_antisymm (x ∷ a) (y ∷ b) h k = ground (arith, bytes_antisymm a b)

-- What comes before does not come after.
pub bytes_asymm : (a b : Bytes) → bytes_ltb a b ≡ true → bytes_ltb b a ≡ false
bytes_asymm [] [] h = cc
bytes_asymm [] (y ∷ b) h = refl
bytes_asymm (x ∷ a) [] h = cc
bytes_asymm (x ∷ a) (y ∷ b) h = ground (arith, bytes_asymm a b)

pub bytes_irrefl : (a : Bytes) → bytes_ltb a a ≡ false
bytes_irrefl [] = refl
bytes_irrefl (x ∷ a) = ground (arith, bytes_irrefl a)

scores_antisymm : (a b : ℤ) → ltb_ℤ a b ≡ false → ltb_ℤ b a ≡ false → a ≡ b
scores_antisymm a b h k = eq_of_le_le a b (ground arith) (ground arith)

eqb_ℤ_self : (a : ℤ) → eqb_ℤ a a ≡ true
eqb_ℤ_self a = ground arith

not_less :
    (a b : Cursor)
    → less_cursor a b ≡ false
    → (ltb_ℤ b.score a.score ≡ false) × (a.score ≡ b.score → bytes_ltb b.member a.member ≡ false)
not_less a b h = (not_less_scores a b h, λ e. ground (arith, eqb_ℤ_self a.score))
  where
    not_less_scores : (a b : Cursor) → less_cursor a b ≡ false → ltb_ℤ b.score a.score ≡ false
    not_less_scores a b h = ground arith

same_cursor : (a b : Cursor) → a.score ≡ b.score → a.member ≡ b.member → a ≡ b
same_cursor a b p q = cc

cursors_antisymm : (a b : Cursor) → less_cursor a b ≡ false → less_cursor b a ≡ false → a ≡ b
cursors_antisymm a b h k =
    let (s, m) = not_less a b h in
    let (t, n) = not_less b a k in
    let e = scores_antisymm a.score b.score t s in
    same_cursor a b e (bytes_antisymm a.member b.member (n (sym e)) (m e))

cursors_irrefl : (a : Cursor) → less_cursor a a ≡ false
cursors_irrefl a = ground (arith, eqb_ℤ_self a.score, bytes_irrefl a.member)

-- The first of an ordered list against that of another order of it.
heads :
    (x y : Cursor) (xs ys : List Cursor)
    → IsOrdered less_cursor (x ∷ xs)
    → Perm (x ∷ xs) (y ∷ ys)
    → less_cursor y x ≡ false
heads x y xs ys s p =
    ∥∥₁_elim p (hlevel)
      (λ q. (All-permᴰ (λ z. less_cursor z x ≡ false) q (cursors_irrefl x, s.0)).0)

-- An ordered list is determined by what it holds.
pub ordered_unique :
    (xs ys : List Cursor)
    → IsOrdered less_cursor xs
    → IsOrdered less_cursor ys
    → Perm xs ys
    → xs ≡ ys
ordered_unique [] ys s t p = Perm.nil-eq p
ordered_unique (x ∷ xs) [] s t p = Perm.eq-nil p
ordered_unique (x ∷ xs) (y ∷ ys) s t p =
    let e = cursors_antisymm x y (heads y x ys xs t (Perm.symm p)) (heads x y xs ys s p) in
    let q = Perm.cons_inv (subst (λ z. Perm (x ∷ xs) (z ∷ ys)) (sym e) p) in
    rw (e) (ap (λ zs. y ∷ zs) (ordered_unique xs ys s.1 t.1 q))

map-IsOrdered :
    (xs : List KeyScoreMember) → IsOrdered less xs → IsOrdered less_cursor (map cursor xs)
map-IsOrdered [] s = tt
map-IsOrdered (x ∷ xs) s = (go xs s.0, map-IsOrdered xs s.1)
  where
    go :
        (ys : List KeyScoreMember)
        → All (λ y. less y x ≡ false) ys
        → All (λ y. less_cursor y (cursor x) ≡ false) (map cursor ys)
    go [] a = tt
    go (y ∷ ys) a = (a.0, go ys a.1)

-- Two orders of the same tuples agree in scores and members.
pub ordered_agree :
    (xs ys : List KeyScoreMember)
    → IsOrdered less xs
    → IsOrdered less ys
    → Perm xs ys
    → map cursor xs ≡ map cursor ys
ordered_agree xs ys s t p =
    ordered_unique (map cursor xs) (map cursor ys) (map-IsOrdered xs s) (map-IsOrdered ys t)
      (Perm.map cursor p)

-- ===== src/Tests/Sorting.antt =====
-- A sort that keeps what sort.Sort promises for the order of roshi/farm/farm.go.
use mathlib.Core.List.{Perm}
use mathlib.Core.List.Perm
use er_pi_middleware25_artif.Base.{
  ◌≡◌, List, [], ◌∷◌, Bool-cases, true, false, inl, inr, if◌then◌else◌, All, arith,
}
use er_pi_middleware25_artif.Common.{KeyScoreMember}
use er_pi_middleware25_artif.Farm.Reads.Responses.Page.{SortsFarm}
use er_pi_middleware25_artif.Server.Order.{farm_less, IsOrdered}

abbrev insert_sorted : KeyScoreMember → List KeyScoreMember → List KeyScoreMember
insert_sorted x [] = x ∷ []
insert_sorted x (y ∷ ys) =
    let behind = insert_sorted x ys in if farm_less y x then y ∷ behind else x ∷ y ∷ ys

abbrev pub sorting : List KeyScoreMember → List KeyScoreMember
sorting [] = []
sorting (x ∷ xs) = insert_sorted x (sorting xs)

insert_sorted-Perm :
    (x : KeyScoreMember) (ys : List KeyScoreMember) → Perm (insert_sorted x ys) (x ∷ ys)
insert_sorted-Perm x [] = Perm.refl _
insert_sorted-Perm x (y ∷ ys) = elim (Bool-cases (farm_less y x)) [
  | inl h ↦ rw (h) (Perm.trans (Perm.cons y (insert_sorted-Perm x ys)) (Perm.swap x y ys))
  | inr h ↦ rw (h) (Perm.refl _)
]

All-insert_sorted :
    (z x : KeyScoreMember) (ys : List KeyScoreMember)
    → farm_less x z ≡ false
    → All (λ y. farm_less y z ≡ false) ys
    → All (λ y. farm_less y z ≡ false) (insert_sorted x ys)
All-insert_sorted z x [] h a = (h, tt)
All-insert_sorted z x (y ∷ ys) h a = elim (Bool-cases (farm_less y x)) [
  | inl q ↦ rw (q) (a.0, All-insert_sorted z x ys h a.1)
  | inr q ↦ rw (q) (h, a)
]

not_less_trans :
    (x y z : KeyScoreMember) → farm_less y x ≡ false → farm_less z y ≡ false → farm_less z x ≡ false
not_less_trans x y z h k = ground arith

All-trans :
    (x y : KeyScoreMember) (ys : List KeyScoreMember)
    → farm_less y x ≡ false
    → All (λ z. farm_less z y ≡ false) ys
    → All (λ z. farm_less z x ≡ false) ys
All-trans x y [] h a = tt
All-trans x y (z ∷ ys) h a = (not_less_trans x y z h a.0, All-trans x y ys h a.1)

flipped : (x y : KeyScoreMember) → farm_less y x ≡ true → farm_less x y ≡ false
flipped x y h = ground arith

insert_sorted-IsOrdered :
    (x : KeyScoreMember) (ys : List KeyScoreMember)
    → IsOrdered farm_less ys
    → IsOrdered farm_less (insert_sorted x ys)
insert_sorted-IsOrdered x [] o = (tt, tt)
insert_sorted-IsOrdered x (y ∷ ys) o = elim (Bool-cases (farm_less y x)) [
  | inl h ↦ rw (h) (All-insert_sorted y x ys (flipped x y h) o.0, insert_sorted-IsOrdered x ys o.1)
  | inr h ↦ rw (h) ((h, All-trans x y ys h o.0), o)
]

sorting-Perm : (xs : List KeyScoreMember) → Perm (sorting xs) xs
sorting-Perm [] = Perm.refl []
sorting-Perm (x ∷ xs) =
    Perm.trans (insert_sorted-Perm x (sorting xs)) (Perm.cons x (sorting-Perm xs))

sorting-IsOrdered : (xs : List KeyScoreMember) → IsOrdered farm_less (sorting xs)
sorting-IsOrdered [] = tt
sorting-IsOrdered (x ∷ xs) = insert_sorted-IsOrdered x (sorting xs) (sorting-IsOrdered xs)

pub sorting-SortsFarm : SortsFarm sorting
sorting-SortsFarm = record { permutes = sorting-Perm; orders = sorting-IsOrdered }

-- ===== src/Cluster/Interleavings/Random/Pigeonhole.antt =====
-- Lists of different lines that are contained in each other, compared by length.
use er_pi_middleware25_artif.Base.{
  suc, ◌≤◌, ◌≡◌, ◌≢◌, inl, inr, sym, List, [], ◌∷◌, length, Bool, true, false, Bool-cases, ite,
  arith, subst,
}
use er_pi_middleware25_artif.Common.{Bytes, Bytes-discrete}
use er_pi_middleware25_artif.Farm.Sets.{has, Distinct}

has_head : (x : Bytes) (xs : List Bytes) → has Bytes-discrete x (x ∷ xs) ≡ true
unfolding has
has_head x xs = ground arith

has_tail :
    (t x : Bytes) (xs : List Bytes)
    → has Bytes-discrete t xs ≡ true
    → has Bytes-discrete t (x ∷ xs) ≡ true
unfolding has
has_tail t x xs h = ground arith

-- Every line of the first list is one of the second.
abbrev pub IsWithin : List Bytes → List Bytes → Type 0
IsWithin xs ys = (t : Bytes) → has Bytes-discrete t xs ≡ true → has Bytes-discrete t ys ≡ true

remove : Bytes → List Bytes → List Bytes
remove x [] = []
remove x (y ∷ ys) = ite (Bytes-discrete y x) ys (y ∷ remove x ys)

length-remove :
    (x : Bytes) (ys : List Bytes)
    → has Bytes-discrete x ys ≡ true
    → suc (length (remove x ys)) ≡ length ys
unfolding has remove
length-remove x [] h = cc
length-remove x (y ∷ ys) h = ground (arith, length-remove x ys)

has-remove :
    (x t : Bytes) (ys : List Bytes)
    → x ≢ t
    → has Bytes-discrete t ys ≡ true
    → has Bytes-discrete t (remove x ys) ≡ true
unfolding has remove
has-remove x t [] n h = h
has-remove x t (y ∷ ys) n h = ground (arith, has-remove x t ys n)

differs : {b : Bool} → b ≡ true → b ≡ false → ⊥
differs h k = cc

pub length-IsWithin :
    (xs ys : List Bytes) → Distinct Bytes-discrete xs → IsWithin xs ys → length xs ≤ length ys
unfolding has
length-IsWithin [] ys d w = omega arith
length-IsWithin (x ∷ xs) ys d w =
    let inside = w x (has_head x xs) in
    let rest : IsWithin xs (remove x ys) = λ t h.
      let apart : x ≢ t =
        λ e. differs (subst (λ t. has Bytes-discrete t xs ≡ true) (sym e) h) d.0 in
      has-remove x t ys apart (w t (has_tail t x xs h)) in
    omega (arith, length-IsWithin xs (remove x ys) d.1 rest, length-remove x ys inside)

-- A list of different lines that is as long as one that it is contained in has all lines of that one.
pub IsWithin-full :
    (xs ys : List Bytes)
    → Distinct Bytes-discrete xs
    → IsWithin xs ys
    → length ys ≤ length xs
    → IsWithin ys xs
unfolding has
IsWithin-full xs ys d w l t h = elim (Bool-cases (has Bytes-discrete t xs)) [
  | inl k ↦ k
  | inr k ↦
      let more : IsWithin (t ∷ xs) ys = λ u m. elim (Bytes-discrete t u) [
        | yes e ↦ subst (λ u. has Bytes-discrete u ys ≡ true) e h
        | no n ↦ w u (ground arith)
      ] in
      let longer = length-IsWithin (t ∷ xs) ys (k, d) more in absurd (omega arith)
]

-- ===== src/Common.antt =====
-- roshi/common/key_score_member.go and the Cursor of roshi/common/cursor.go.
pub mod Digits
pub mod Base64
pub mod Cursors
use er_pi_middleware25_artif.Base.{
  ℕ, ℤ, List, [], ◌∷◌, ℕ_discrete, Bool, true, false, ltb, ◌==◌, ◌||◌, ◌&&◌, ◌≡◌, refl, arith,
}

-- A Go string: its bytes.
abbrev pub Bytes : Type 0
Bytes = List ℕ

pub record KeyMember : Type 0 where
  pub key : Bytes
  pub member : Bytes

pub record KeyScoreMember : Type 0 where
  pub key : Bytes
  pub score : ℤ
  pub member : Bytes

pub record Cursor : Type 0 where
  pub score : ℤ
  pub member : Bytes

unfoldable pub Bytes-discrete : Discrete Bytes
unfolding ℕ_discrete
Bytes-discrete = hlevel ℕ_discrete

unfoldable pub KeyMember-discrete : Discrete KeyMember
unfolding ℕ_discrete
KeyMember-discrete = hlevel ℕ_discrete

unfoldable pub KeyScoreMember-discrete : Discrete KeyScoreMember
unfolding ℕ_discrete
KeyScoreMember-discrete = hlevel ℕ_discrete

-- Go's order of strings.
abbrev pub bytes_ltb : Bytes → Bytes → Bool
bytes_ltb [] [] = false
bytes_ltb [] (y ∷ ys) = true
bytes_ltb (x ∷ xs) [] = false
bytes_ltb (x ∷ xs) (y ∷ ys) = let rest = bytes_ltb xs ys in ltb x y || (x == y && rest)

pub bytes_ltb_trans :
    (a b c : Bytes) → bytes_ltb a b ≡ true → bytes_ltb b c ≡ true → bytes_ltb a c ≡ true
bytes_ltb_trans [] [] c h k = cc
bytes_ltb_trans [] (y ∷ b) [] h k = cc
bytes_ltb_trans [] (y ∷ b) (z ∷ c) h k = refl
bytes_ltb_trans (x ∷ a) [] c h k = cc
bytes_ltb_trans (x ∷ a) (y ∷ b) [] h k = cc
bytes_ltb_trans (x ∷ a) (y ∷ b) (z ∷ c) h k = ground (arith, bytes_ltb_trans a b c)

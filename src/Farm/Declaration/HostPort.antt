-- ===== src/Farm/Declaration/HostPort.antt =====
-- The instances that roshi/farm/parse_farm_string.go accepts: a host and a port.
use er_pi_middleware25_artif.Base.{
  ℕ, ◌+◌, ◌-◌, ◌*◌, ◌^◌, ◌≤◌, ◌<◌, ◌≡◌, ◌≢◌, refl, ap, ◌∙◌, sym, subst, arith, ◌⊎◌, inl, inr, List,
  [], ◌∷◌, ◌++◌, All, Option, none, some, Option-cases, Bool-cases, ◌==◌, ==_iff, if◌then◌else◌,
}
use er_pi_middleware25_artif.Common.{Bytes}
use er_pi_middleware25_artif.Common.Digits.{parse_digits, parse_uint, below, is_digit}
use er_pi_middleware25_artif.Farm.Declaration.{split, cons_first, check_host_port}

-- The number that decimal digits stand for, after the number `n`.
abbrev pub number : Bytes → ℕ → ℕ
number [] n = n
number (c ∷ cs) n = number cs (n * 10 + (c - b'0'))

abbrev pub IsDigits : Bytes → Type 0
IsDigits s = All (λ c. (b'0' ≤ c) × (c ≤ b'9')) s

-- Decimal digits, at least one, of a number below 65536.
abbrev pub IsPort : Bytes → Type 0
IsPort port = (port ≢ []) × IsDigits port × (number port 0 < 65_536)

-- A host and a port with one colon between them; neither has a colon.
abbrev pub IsValid : Bytes → Type 0
IsValid host_port =
    (host : Bytes) × (port : Bytes) × (host_port ≡ host ++ b':' ∷ port)
    × All (λ c. c ≢ b':') host
    × IsPort port

parse_digits-number :
    (s : Bytes) (n v : ℕ) → parse_digits s n ≡ some v → IsDigits s × (number s n ≡ v)
unfolding parse_digits
parse_digits-number [] n v e = (tt, cc)
parse_digits-number (c ∷ s) n v e = elim (Bool-cases (is_digit c)) [
  | inl d ↦
      let (a, f) = parse_digits-number s (n * 10 + (c - b'0')) v (rw (d) at e) in
      (((ground arith, ground arith), a), f)
  | inr d ↦ absurd (ground arith)
]

below_some :
    (bound : ℕ) (o : Option ℕ) (v : ℕ) → below bound o ≡ some v → (o ≡ some v) × (v < bound)
below_some bound none v e = cc
below_some bound (some n) v e = (ground arith, ground arith)

parse_uint-IsPort : (s : Bytes) (v : ℕ) → parse_uint 16 s ≡ some v → IsPort s
unfolding parse_uint
parse_uint-IsPort [] v e = cc
parse_uint-IsPort (c ∷ s) v e =
    let (h, small) = below_some (2 ^ 16) (parse_digits (c ∷ s) 0) v e in
    let (a, f) = parse_digits-number (c ∷ s) 0 v h in
    ((λ n. cc), a, subst (λ m. m < 65_536) (sym f) small)

-- The split of a text in terms of that of the text behind its first byte.
abbrev put : ℕ → List Bytes → List Bytes
put c rest = if c == b':' then [] ∷ rest else cons_first c rest

split_cons : (s : Bytes) → (x : Bytes) × (xs : List Bytes) × (split b':' s ≡ x ∷ xs)
unfolding split
split_cons [] = ([], [], refl)
split_cons (c ∷ s) =
    let (x, xs, e) = split_cons s in
    elim (Bool-cases (c == b':')) [
      | inl h ↦ ([], x ∷ xs, ap (put c) e ∙ rw (h) refl)
      | inr h ↦ (c ∷ x, xs, ap (put c) e ∙ rw (h) refl)
    ]

put_one :
    (c : ℕ) (x a : Bytes) (xs : List Bytes) → put c (x ∷ xs) ≡ a ∷ [] → (a ≡ c ∷ x) × (xs ≡ [])
put_one c x a xs e = elim (Bool-cases (c == b':')) [
  | inl h ↦ absurd (let f = rw (h) at e in cc)
  | inr h ↦ let f = rw (h) at e in (cc, cc)
]

put_two :
    (c : ℕ) (x a b : Bytes) (xs : List Bytes)
    → put c (x ∷ xs) ≡ a ∷ b ∷ []
    → ((c ≡ b':') × (a ≡ []) × (x ≡ b) × (xs ≡ [])) ⊎ ((c ≢ b':') × (a ≡ c ∷ x) × (xs ≡ b ∷ []))
put_two c x a b xs e = elim (Bool-cases (c == b':')) [
  | inl h ↦ let f = rw (h) at e in inl ((==_iff c b':').0 h, cc, cc, cc)
  | inr h ↦ let f = rw (h) at e in inr ((λ q. ground arith), cc, cc)
]

split_one : (s a : Bytes) → split b':' s ≡ a ∷ [] → s ≡ a
unfolding split
split_one [] a e = cc
split_one (c ∷ s) a e =
    let (x, xs, f) = split_cons s in
    let (g, h) = put_one c x a xs (sym (ap (put c) f) ∙ e) in
    ap (λ t. c ∷ t) (split_one s x (f ∙ ap (λ ys. x ∷ ys) h)) ∙ sym g

split_two :
    (s a b : Bytes) → split b':' s ≡ a ∷ b ∷ [] → (s ≡ a ++ b':' ∷ b) × All (λ c. c ≢ b':') a
unfolding split
split_two [] a b e = cc
split_two (c ∷ s) a b e =
    let (x, xs, f) = split_cons s in
    elim (put_two c x a b xs (sym (ap (put c) f) ∙ e)) [
      | inl (q, g, h, n) ↦
          let behind = split_one s b (f ∙ rw (h, n) refl) in
          (rw (q, g, behind) refl, subst (All (λ c. c ≢ b':')) (sym g) tt)
      | inr (q, g, h) ↦
          let (behind, plain) = split_two s x b (f ∙ ap (λ ys. x ∷ ys) h) in
          (rw (g) (ap (λ t. c ∷ t) behind), subst (All (λ c. c ≢ b':')) (sym g) (q, plain))
    ]

accepted-IsPort :
    (host_port host port : Bytes)
    → check_host_port host_port (host ∷ port ∷ []) ≡ none
    → IsPort port
accepted-IsPort host_port host port h = elim (Option-cases (parse_uint 16 port)) [
  | inl e ↦ absurd (let f = rw (check_host_port, e) at h in cc)
  | inr (v, e) ↦ parse_uint-IsPort port v e
]

accepted :
    (host_port : Bytes) (parts : List Bytes)
    → split b':' host_port ≡ parts
    → check_host_port host_port parts ≡ none
    → IsValid host_port
accepted host_port [] e h = cc
accepted host_port (host ∷ []) e h = cc
accepted host_port (host ∷ port ∷ []) e h =
    let (q, plain) = split_two host_port host port e in
    (host, port, q, plain, accepted-IsPort host_port host port h)
accepted host_port (host ∷ port ∷ x ∷ rest) e h = cc

pub check-IsValid :
    (host_port : Bytes)
    → check_host_port host_port (split b':' host_port) ≡ none
    → IsValid host_port
check-IsValid host_port h = accepted host_port (split b':' host_port) refl h

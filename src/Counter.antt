-- ===== src/Counter.antt =====
-- Go_RDL/Library/pncounter.go: a replicated counter, and the messages by which its replicas merge.
pub mod Actions
pub mod Schedule
pub mod Replicas
pub mod Converge
use er_pi_middleware25_artif.Base.{
  ℕ, ◌+◌, ◌-◌, ◌%◌, ◌^◌, ◌<◌, ◌≡◌, refl, List, [], ◌∷◌, ◌++◌, Option, none, some, ℤ, pos, negsuc,
  ite, arith, if◌then◌else◌, ◌==◌, All,
}
use er_pi_middleware25_artif.Common.{Bytes, Bytes-discrete}
use er_pi_middleware25_artif.Common.Digits.{
  print_uint64, digits_after, parse_int64, parse_int64-print_uint64, IsAscii, print_uint64-IsAscii,
}

-- A Go int is its bit pattern.
abbrev pub int_mod : ℕ
int_mod = 2 ^ 64

abbrev pub inc_name : Bytes
inc_name = b'I' ∷ b'n' ∷ b'c' ∷ []

abbrev pub dec_name : Bytes
dec_name = b'D' ∷ b'e' ∷ b'c' ∷ []

pub record Counter : Type 0 where
  pub id : ℕ
  pub value : ℕ
  pub updates : List Bytes

unfoldable pub new_counter : ℕ → Counter
new_counter id = record { id = id; value = 0; updates = [] }

abbrev pub plus_one : ℕ → ℕ
plus_one v = (v + 1) % int_mod

abbrev pub minus_one : ℕ → ℕ
minus_one v = (v + (int_mod - 1)) % int_mod

unfoldable pub set_val : ℕ → Bytes → Counter → Counter
set_val new_val name c = record c { value = new_val; updates = c.updates ++ name ∷ [] }

unfoldable pub set_remote_val : Bytes → Counter → Counter
set_remote_val name c =
    ite (Bytes-discrete name inc_name) (record c { value = plus_one c.value })
      (ite (Bytes-discrete name dec_name) (record c { value = minus_one c.value }) c)

unfoldable pub inc : Counter → Counter
unfolding set_val
inc c = set_val (plus_one c.value) inc_name c

unfoldable pub dec : Counter → Counter
unfolding set_val
dec c = set_val (minus_one c.value) dec_name c

unfoldable pub merge : List Bytes → Counter → Counter
merge [] c = c
merge (name ∷ names) c = merge names (set_remote_val name c)

-- What FromMarshalData comes to: the updates of a message, or a panic for an empty list.
pub data Received : Type 0 where
  panics : Received
  receives : ℤ → List Bytes → Received

-- The value of strconv.Atoi with its error ignored: 0 for a text that is no number, and the nearest
-- int for one out of range.
abbrev pub nearest : ℤ → Option ℕ → ℤ
nearest bound none = pos 0
nearest bound (some n) = bound

abbrev pub out_of_range : Bytes → ℤ
out_of_range [] = pos 0
out_of_range (c ∷ cs) =
    if c == b'-'
    then nearest (negsuc (2 ^ 63 - 1)) (digits_after cs)
    else if c == b'+'
    then nearest (pos (2 ^ 63 - 1)) (digits_after cs)
    else nearest (pos (2 ^ 63 - 1)) (digits_after (c ∷ cs))

abbrev pub int_or : ℤ → Option ℤ → ℤ
int_or default none = default
int_or default (some i) = i

unfoldable pub atoi : Bytes → ℤ
atoi s = int_or (out_of_range s) (parse_int64 s)

abbrev pub received : Option (List Bytes) → Received
received none = receives (negsuc 0) []
received (some []) = panics
received (some (id ∷ names)) = receives (atoi id) names

-- encoding/json on lists of strings.
module _ (marshal : List Bytes → Bytes) (unmarshal : Bytes → Option (List Bytes)) where
  unfoldable pub to_marshal : Counter → Bytes × Counter
  to_marshal c = (marshal (print_uint64 c.id ∷ c.updates), record c { updates = [] })

  unfoldable pub from_marshal : Bytes → Received
  from_marshal bytes = received (unmarshal bytes)

  -- What a counter sends is read back as its id and its updates, in order, and is gone from the
  -- counter.
  pub from_marshal-to_marshal :
      ((names : List Bytes) → All IsAscii names → unmarshal (marshal names) ≡ some names)
      → (c : Counter) → c.id < 2 ^ 63
      → All IsAscii c.updates
      → (from_marshal (to_marshal c).0 ≡ receives (pos c.id) c.updates)
        × ((to_marshal c).1.updates ≡ [])
        × ((to_marshal c).1.value ≡ c.value)
  unfolding from_marshal to_marshal atoi
  from_marshal-to_marshal json c h a = (
    rw
        (
          json (print_uint64 c.id ∷ c.updates) (print_uint64-IsAscii c.id, a),
          parse_int64-print_uint64 c.id h,
        )
        refl,
    refl,
    refl,
  )

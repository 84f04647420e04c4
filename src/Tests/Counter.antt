-- ===== src/Tests/Counter.antt =====
-- The counter of Go_RDL/Library/pncounter.go and its replicas on small inputs.
use er_pi_middleware25_artif.Base.{
  ℕ, zero, true, false, suc, ◌≡◌, refl, List, [], ◌∷◌, ◌++◌, Option, none, some, map, All,
}
use er_pi_middleware25_artif.Common.{Bytes, Bytes-discrete}
use er_pi_middleware25_artif.Common.Digits.{print_uint64, digits_of}
use er_pi_middleware25_artif.Counter.{
  inc_name, Counter, new_counter, set_val, set_remote_val, inc, merge, to_marshal, from_marshal,
}
use er_pi_middleware25_artif.Counter.Replicas.{
  Replica, fresh, handle, message, Run, starts, increments, broadcasts, reads, overwrites,
}
use er_pi_middleware25_artif.Counter.Converge.Balance.{difference, replicas_converge}

-- Texts of lists of strings: each byte is moved up by one, and a zero ends a string.
abbrev end_string : List Bytes → Bytes
end_string [] = []
end_string (name ∷ names) = map suc name ++ 0 ∷ end_string names

abbrev start_string : Option (List Bytes) → Option (List Bytes)
start_string none = none
start_string (some names) = some ([] ∷ names)

abbrev add_byte : ℕ → Option (List Bytes) → Option (List Bytes)
add_byte c none = none
add_byte c (some []) = none
add_byte c (some (name ∷ names)) = some ((c ∷ name) ∷ names)

abbrev split_strings : Bytes → Option (List Bytes)
split_strings [] = some []
split_strings (zero ∷ text) = start_string (split_strings text)
split_strings (suc c ∷ text) = add_byte c (split_strings text)

split_string :
    (name text : Bytes) (names : List Bytes)
    → split_strings text ≡ some names
    → split_strings (map suc name ++ 0 ∷ text) ≡ some (name ∷ names)
split_string [] text names h = rw (h) refl
split_string (c ∷ name) text names h = rw (split_string name text names h) refl

split_strings-end_string : (names : List Bytes) → split_strings (end_string names) ≡ some names
split_strings-end_string [] = refl
split_strings-end_string (name ∷ names) =
    split_string name (end_string names) names (split_strings-end_string names)

abbrev counted : Counter
counted = record { id = 7; value = 1; updates = inc_name ∷ [] }

-- Replica 1 counts up and broadcasts; replica 2 reads.
abbrev told : Bytes
told = message end_string split_strings (record { counter = inc (new_counter 1); inbox = [] })

abbrev first : Replica
first = record {
  counter = (to_marshal end_string split_strings (inc (new_counter 1))).1;
  inbox = [];
}

abbrev second : Replica
second = record { counter = merge (inc_name ∷ []) (new_counter 2); inbox = [] }

exchange : Run end_string split_strings false 1 0 (first ∷ second ∷ [])
unfolding handle from_marshal to_marshal inc set_val new_counter print_uint64 digits_of
exchange =
    reads (first ∷ []) [] (record { counter = new_counter 2; inbox = told ∷ [] }) [] [] told
      (merge (inc_name ∷ []) (new_counter 2)) refl refl
      (broadcasts [] (fresh 2 ∷ []) (record { counter = inc (new_counter 1); inbox = [] })
        (increments [] (fresh 2 ∷ []) (fresh 1) (starts (1 ∷ 2 ∷ []))))

replicas_converge_example : All (λ r. r.counter.value ≡ difference 1 0) (first ∷ second ∷ [])
unfolding to_marshal inc set_val new_counter merge set_remote_val Bytes-discrete
replicas_converge_example =
    replicas_converge end_string split_strings (λ names a. split_strings-end_string names)
      (first ∷ second ∷ []) exchange ((refl, refl), ((refl, refl), tt))

-- Replicas 1 and 2 count up and broadcast. The goroutines of replica 3 overlap, and it counts one of the two.
abbrev both_told : Replica
both_told = record {
  counter = new_counter 3;
  inbox =
      message end_string split_strings (record { counter = inc (new_counter 1); inbox = [] })
      ∷ message end_string split_strings (record { counter = inc (new_counter 2); inbox = [] })
      ∷ [];
}

abbrev behind : Replica
behind = record { counter = set_remote_val inc_name (new_counter 3); inbox = [] }

update_lost :
    (before : List Replica)
    → Run end_string split_strings true 2 0 (before ++ both_told ∷ [])
    → Run end_string split_strings true 2 0 (before ++ behind ∷ []) × (behind.counter.value ≡ 1)
unfolding from_marshal to_marshal inc set_val set_remote_val new_counter print_uint64 digits_of
    Bytes-discrete
update_lost before run = (
  overwrites before [] both_told [] [] [] _ _ inc_name _ _ (inc_name ∷ []) refl refl refl refl run,
  refl,
)

-- ===== src/Counter/Converge.antt =====
-- What the operations of Go_RDL/Library/pncounter.go add to a value.
pub mod Kept
pub mod Balance
use mathlib.Core.List.{Memᴰ}
use er_pi_middleware25_artif.Base.{
  ℕ, zero, suc, ◌+◌, ◌-◌, ◌%◌, ◌^◌, ◌<◌, ◌≡◌, ◌≢◌, refl, sym, ap, ◌∙◌, List, [], ◌∷◌, ◌++◌, Option,
  none, some, map, ite, All, arith, subst,
}
use er_pi_middleware25_artif.Common.{Bytes, Bytes-discrete}
use er_pi_middleware25_artif.Common.Digits.{print_uint64}
use er_pi_middleware25_artif.Counter.{
  int_mod, inc_name, dec_name, Counter, new_counter, plus_one, minus_one, set_val, set_remote_val,
  inc, dec, merge, Received, panics, receives, received, to_marshal, from_marshal,
}
use er_pi_middleware25_artif.Counter.Replicas.{
  Replica, fresh, act, write, handle, Run, starts, increments, decrements, broadcasts, reads,
}

-- What an update adds to a value, modulo 2^64.
abbrev pub delta : Bytes → ℕ
delta name =
    ite (Bytes-discrete name inc_name) 1 (ite (Bytes-discrete name dec_name) (int_mod - 1) 0)

abbrev pub total : List Bytes → ℕ
total [] = 0
total (name ∷ names) = delta name + total names

pub total-append : (xs ys : List Bytes) → total (xs ++ ys) ≡ total xs + total ys
total-append [] ys = omega arith
total-append (x ∷ xs) ys = omega (arith, total-append xs ys)

pub remote_lem :
    (name : Bytes) (c : Counter)
    → c.value < int_mod
    → ((set_remote_val name c).value ≡ (c.value + delta name) % int_mod)
      × ((set_remote_val name c).updates ≡ c.updates)
unfolding set_remote_val
remote_lem name c h = elim (Bytes-discrete name inc_name) [
  | yes e ↦ ground arith
  | no n ↦ elim (Bytes-discrete name dec_name) [ yes e ↦ ground arith | no m ↦ ground arith ]
]

pub merge_lem :
    (names : List Bytes) (c : Counter)
    → c.value < int_mod
    → ((merge names c).value ≡ (c.value + total names) % int_mod)
      × ((merge names c).updates ≡ c.updates)
unfolding merge
merge_lem [] c h = (omega arith, refl)
merge_lem (name ∷ names) c h =
    let (v, u) = remote_lem name c h in
    let (w, t) = merge_lem names (set_remote_val name c) (omega (arith, v)) in
    (omega (arith, v, w), t ∙ u)

pub inc_lem :
    (c : Counter)
    → ((inc c).value ≡ (c.value + 1) % int_mod) × (total (inc c).updates ≡ total c.updates + 1)
unfolding inc set_val Bytes-discrete
inc_lem c = (refl, total-append c.updates (inc_name ∷ []))

pub dec_lem :
    (c : Counter)
    → ((dec c).value ≡ (c.value + (int_mod - 1)) % int_mod)
      × (total (dec c).updates ≡ total c.updates + (int_mod - 1))
unfolding dec set_val Bytes-discrete
dec_lem c = (refl, total-append c.updates (dec_name ∷ []))

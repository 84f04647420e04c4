-- ===== src/Counter/Actions.antt =====
-- The actions of an interleaving, as do_actions of Go_RDL/Library/server.go reads and performs them.
use mathlib.Core.List.{Memᴰ}
use er_pi_middleware25_artif.Base.{
  ℕ, ◌+◌, ◌≤◌, ◌≡◌, ◌≢◌, inl, inr, refl, sym, List, [], ◌∷◌, Option, none, some, ℤ, ite, length,
  ◌*◌, ◌-◌, ◌==◌, if◌then◌else◌, Bool-cases, subst, if_neg, ==_iff, arith,
}
use er_pi_middleware25_artif.Common.{Bytes, Bytes-discrete}
use er_pi_middleware25_artif.Common.Digits.{parse_digits, digits_after, parse_int64}
use er_pi_middleware25_artif.Farm.Declaration.{split, cons_first}
use er_pi_middleware25_artif.Counter.{Counter, inc_name, dec_name, inc, dec, to_marshal, atoi}

abbrev pub broadcast_name : Bytes
broadcast_name = b'B' ∷ b'r' ∷ b'o' ∷ b'a' ∷ b'd' ∷ b'c' ∷ b'a' ∷ b's' ∷ b't' ∷ []

-- An action, its operation, the replica that performs it and its logical time.
pub record Action : Type 0 where
  pub text : Bytes
  pub operation : Bytes
  pub replica : ℤ
  pub time : ℤ

-- opt_info[0], opt_info[1] and opt_info[2]; none if one is missing, which panics.
abbrev pub action_of : Bytes → List Bytes → Option Action
action_of text (operation ∷ replica ∷ time ∷ rest) =
    some (record { text = text; operation = operation; replica = atoi replica; time = atoi time })
action_of text _ = none

unfoldable pub read_action : Bytes → Option Action
read_action text = action_of text (split b'_' text)

-- What performing an action comes to: a panic, a counter, a counter and a message for the others,
-- or a sleep of some seconds.
pub data Done : Type 0 where
  panics : Done
  counts : Counter → Done
  sends : Bytes → Counter → Done
  sleeps : ℤ → Done

abbrev pub delay : Option ℤ → Done
delay none = panics
delay (some seconds) = sleeps seconds

module _ (marshal : List Bytes → Bytes) (unmarshal : Bytes → Option (List Bytes)) where
  unfoldable pub perform : Action → Counter → Done
  perform a c =
      let message = to_marshal marshal unmarshal c in
      ite (Bytes-discrete a.operation inc_name) (counts (inc c)) (
        ite (Bytes-discrete a.operation dec_name) (counts (dec c)) (
          ite (Bytes-discrete a.operation broadcast_name) (sends message.0 message.1)
            (delay (parse_int64 a.text))))

not_digits : (s : Bytes) (n : ℕ) → Memᴰ b'_' s → parse_digits s n ≡ none
unfolding parse_digits
not_digits [] n h = elim h [ ]
not_digits (c ∷ s) n (Memᴰ.head e) = ground arith
not_digits (c ∷ s) n (Memᴰ.tail h) = ground (arith, not_digits s (n * 10 + (c - b'0')) h)

not_after : (s : Bytes) → Memᴰ b'_' s → digits_after s ≡ none
not_after [] h = elim h [ ]
not_after (c ∷ s) h = not_digits (c ∷ s) 0 h

not_int : (s : Bytes) → Memᴰ b'_' s → parse_int64 s ≡ none
unfolding parse_int64
not_int [] h = elim h [ ]
not_int (c ∷ s) (Memᴰ.head e) = subst (λ d. parse_int64 (d ∷ s) ≡ none) e refl
not_int (c ∷ s) (Memᴰ.tail h) = ground (arith, not_after s h, not_digits (c ∷ s) 0 (Memᴰ.tail h))

longer : (c : ℕ) (rest : List Bytes) → 2 ≤ length (cons_first c rest) → 2 ≤ length rest
longer c [] h = absurd (omega arith)
longer c (t ∷ ts) h = h

parts :
    (text : Bytes) (ps : List Bytes) (a : Action)
    → action_of text ps ≡ some a
    → (2 ≤ length ps) × (a.text ≡ text)
parts text [] a e = cc
parts text (p ∷ []) a e = cc
parts text (p ∷ q ∷ []) a e = cc
parts text (p ∷ q ∷ r ∷ ps) a e = (omega arith, ground arith)

-- A text that splits has a separator.
split_separates : (s : Bytes) → 2 ≤ length (split b'_' s) → Memᴰ b'_' s
unfolding split
split_separates [] h = absurd (omega arith)
split_separates (c ∷ s) h = elim (Bool-cases (c == b'_')) [
  | inl e ↦ Memᴰ.head (sym ((==_iff c b'_').0 e))
  | inr e ↦ Memᴰ.tail (
      split_separates s (
        longer c (split b'_' s) (
          subst (λ b. 2 ≤ length (if b then [] ∷ split b'_' s else cons_first c (split b'_' s))) e
            h)))
]

-- An action that is neither Inc, Dec nor Broadcast is taken for a delay, whose length is read from
-- the whole text of the action; since that has the separators of its parts, it is never a number,
-- and every such action ends in a panic.
pub delay_panics :
    (marshal : List Bytes → Bytes) (unmarshal : Bytes → Option (List Bytes)) (text : Bytes)
    (a : Action) (c : Counter)
    → read_action text ≡ some a
    → a.operation ≢ inc_name
    → a.operation ≢ dec_name
    → a.operation ≢ broadcast_name
    → perform marshal unmarshal a c ≡ panics
unfolding perform read_action
delay_panics marshal unmarshal text a c e i d b =
    let (p, q) = parts text (split b'_' text) a e in
    rw (if_neg _ i, if_neg _ d, if_neg _ b, q, not_int text (split_separates text p)) refl

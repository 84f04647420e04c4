-- ===== src/Cluster/Conn.antt =====
-- A connection of the Redis client as roshi/cluster/cluster.go uses it: commands are sent, flushed
-- and answered in order, and each of these can fail.
use er_pi_middleware25_artif.Base.{ℕ, List, [], ◌∷◌, ◌++◌, Option, none, some, ℤ, length}
use er_pi_middleware25_artif.Common.{Bytes}
use er_pi_middleware25_artif.Cluster.Script.{Side, Call}

-- A Go error, by its text.
abbrev pub Error : Type 0
Error = Bytes

pub data Result {ℓ} (A : Type ℓ) : Type ℓ where
  ok : A → Result A
  err : Error → Result A

-- The commands of the package. A script call carries its key and maxSize.
pub data Command : Type 0 where
  eval_script : Bytes → Call → ℕ → Command
  zscore : Bytes → Side → Bytes → Command
  zrevrange : Bytes → ℤ → ℤ → Command
  zrevrangebyscore : Bytes → ℤ → ℕ → Command

-- The replies, as the client decodes them.
pub data Reply : Type 0 where
  nil : Reply
  integer : ℤ → Reply
  float : ℤ → Reply
  members : List (Bytes × ℤ) → Reply

-- `send_error n` is what sending fails with after `n` sends. A reply that does not come is an
-- error among the replies; past their end the connection is closed.
pub record Conn : Type 0 where
  pub send_error : ℕ → Option Error
  pub flush_error : Option Error
  pub replies : List (Result Reply)
  pub sent : List Command

abbrev pub M : Type 0 → Type 0
M A = Conn → Result A × Conn

infixl 5 ◌>>=◌ ◌>>◌
abbrev pub ◌>>=◌ : {A B : Type 0} → M A → (A → M B) → M B
◌>>=◌ m f c = let r = m c in elim r.0 [ ok a ↦ f a r.1 | err e ↦ (err e, r.1) ]

abbrev pub ◌>>◌ : {B : Type 0} → M (Unit {0}) → M B → M B
m >> k = m >>= λ _. k

abbrev pub return : {A : Type 0} → A → M A
return a c = (ok a, c)

abbrev pub throw : {A : Type 0} → Error → M A
throw e c = (err e, c)

unfoldable pub send : Command → M (Unit {0})
send cmd c = elim (c.send_error (length c.sent)) [
  | none ↦ (ok tt, record c { sent = c.sent ++ cmd ∷ [] })
  | some e ↦ (err e, c)
]

unfoldable pub flush : M (Unit {0})
flush c = elim c.flush_error [ none ↦ (ok tt, c) | some e ↦ (err e, c) ]

-- The error of a connection with no more replies.
abbrev pub eof : Error
eof = b'E' ∷ b'O' ∷ b'F' ∷ []

unfoldable pub receive : M Reply
receive c = elim c.replies [ [] ↦ (err eof, c) | r ∷ rest ↦ (r, record c { replies = rest }) ]

module _ {A : Type 0} (command : A → Command) where
  -- for _, x := range xs { if err := conn.Send(...); err != nil { return ..., err } }
  unfoldable pub send_all : List A → M (Unit {0})
  send_all [] = return tt
  send_all (x ∷ xs) = send (command x) >> send_all xs

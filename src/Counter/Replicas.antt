-- ===== src/Counter/Replicas.antt =====
-- Replicas of the counter of Go_RDL/Library/pncounter.go that broadcast to each other (broadcast of
-- client.go, handleConnection of server.go), in any interleaving of whole operations. The code locks Inc and
-- Dec but not Merge; of the overlaps that this allows, one way of losing updates is a step of its own.
use er_pi_middleware25_artif.Base.{
  ℕ, ◌+◌, ◌≡◌, List, [], ◌∷◌, ◌++◌, Option, none, some, map, Bool, true, ℤ,
}
use er_pi_middleware25_artif.Common.{Bytes}
use er_pi_middleware25_artif.Counter.{
  Counter, new_counter, inc, dec, set_remote_val, merge, panics, receives, to_marshal, from_marshal,
}

-- A replica, with the messages written to its connections that it has not read.
pub record Replica : Type 0 where
  pub counter : Counter
  pub inbox : List Bytes

abbrev pub fresh : ℕ → Replica
fresh id = record { counter = new_counter id; inbox = [] }

abbrev pub act : (Counter → Counter) → Replica → Replica
act f r = record r { counter = f r.counter }

-- The line is written to the connection.
abbrev pub write : Bytes → Replica → Replica
write message r = record r { inbox = r.inbox ++ message ∷ [] }

module _ (marshal : List Bytes → Bytes) (unmarshal : Bytes → Option (List Bytes)) where
  -- The body of handleConnection for a line; none if it panics.
  unfoldable pub handle : Bytes → Counter → Option Counter
  handle message c = elim (from_marshal marshal unmarshal message) [
    | panics ↦ none
    | receives rid names ↦ some (merge names c)
  ]

  abbrev pub message : Replica → Bytes
  message r = (to_marshal marshal unmarshal r.counter).0

  -- One replica acts, between those before and after it: it counts, it broadcasts to all others, or
  -- it reads one of the messages sent to it. If operations of one replica may overlap, since Merge does not lock,
  -- then also: the goroutine of a message with the single update `name` loads the value, that of another message
  -- merges all its updates, and then the first one stores the value that it changed, over these updates.
  pub data Run (overlap : Bool) : ℕ → ℕ → List Replica → Type 0 where
    starts : (ids : List ℕ) → Run overlap 0 0 (map fresh ids)
    increments :
        {incs decs : ℕ} (before after : List Replica) (r : Replica)
        → Run overlap incs decs (before ++ r ∷ after)
        → Run overlap (incs + 1) decs (before ++ act inc r ∷ after)
    decrements :
        {incs decs : ℕ} (before after : List Replica) (r : Replica)
        → Run overlap incs decs (before ++ r ∷ after)
        → Run overlap incs (decs + 1) (before ++ act dec r ∷ after)
    broadcasts :
        {incs decs : ℕ} (before after : List Replica) (r : Replica)
        → Run overlap incs decs (before ++ r ∷ after)
        → Run overlap incs decs (
            map (write (message r)) before
            ++ record r { counter = (to_marshal marshal unmarshal r.counter).1 }
              ∷ map (write (message r)) after)
    reads :
        {incs decs : ℕ} (before after : List Replica) (r : Replica) (earlier later : List Bytes)
        (line : Bytes) (c : Counter)
        → r.inbox ≡ earlier ++ line ∷ later
        → handle line r.counter ≡ some c
        → Run overlap incs decs (before ++ r ∷ after)
        → Run overlap incs decs (before ++ record { counter = c; inbox = earlier ++ later } ∷ after)
    overwrites :
        {incs decs : ℕ} (before after : List Replica) (r : Replica)
        (earlier middle later : List Bytes) (line other name : Bytes) (rid rid' : ℤ)
        (names : List Bytes)
        → overlap ≡ true
        → r.inbox ≡ earlier ++ line ∷ (middle ++ other ∷ later)
        → from_marshal marshal unmarshal line ≡ receives rid (name ∷ [])
        → from_marshal marshal unmarshal other ≡ receives rid' names
        → Run overlap incs decs (before ++ r ∷ after)
        → Run overlap incs decs (
            before
            ++ record {
              counter = set_remote_val name r.counter;
              inbox = earlier ++ (middle ++ later);
            }
              ∷ after)

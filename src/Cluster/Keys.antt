-- ===== src/Cluster/Keys.antt =====
-- Keys of roshi/cluster/cluster.go: the scan of the keys of all instances, in batches.
pub mod Batches
pub mod Channel
use er_pi_middleware25_artif.Base.{
  ℕ, ◌-◌, List, [], ◌∷◌, ◌++◌, Option, none, some, ℤ, pos, eqb_ℤ, map, length, get_elem?, take, leb,
  ltb, ◌==◌, if◌then◌else◌, Bool, true, false,
}
use er_pi_middleware25_artif.Common.{Bytes}
use er_pi_middleware25_artif.Cluster.Conn.{Error, Result, ok, err}

abbrev pub wrong_count : Error
wrong_count = b'c' ∷ b'o' ∷ b'u' ∷ b'n' ∷ b't' ∷ []

abbrev pub insert_suffix : ℕ
insert_suffix = b'+'

-- The goroutine between two attempts: the cursor, the batch that it fills, the batches that it sent
-- on the channel, and the cursors that it asked for.
pub record State : Type 0 where
  pub cursor : ℤ
  pub batch : List Bytes
  pub sent : List (List Bytes)
  pub asked : List ℤ

-- if len(batch) >= batchSize { ch <- batch; batch = ... }
unfoldable pub add_key : ℕ → Bytes → State → State
add_key batch_size key s =
    let batch = s.batch ++ key ∷ [] in
    if leb batch_size (length batch)
    then record s { batch = []; sent = s.sent ++ batch ∷ [] }
    else record s { batch = batch }

-- The loop over the keys of a page. An empty key is sliced from -1, which panics: none.
unfoldable pub add_keys : ℕ → List Bytes → State → Option State
add_keys batch_size [] s = some s
add_keys batch_size (key ∷ keys) s =
    let next = λ (t : State). add_keys batch_size keys t in
    let l = length key - 1 in
    elim (get_elem? key l) [
      | none ↦ none
      | some c ↦ if c == insert_suffix then next (add_key batch_size (take l key) s) else next s
    ]

-- How the scan of an instance ends; `waits` while it has attempts to make.
pub data Loop : Type 0 where
  panics : Loop
  waits : State → Loop
  finished : State → Loop

-- The attempts at an instance, each the cursor and the keys of a page, or an error.
unfoldable pub scan : ℕ → State → List (Result (ℤ × List Bytes)) → Loop
scan batch_size s [] = waits s
scan batch_size s (err e ∷ attempts) =
    scan batch_size (record s { asked = s.asked ++ s.cursor ∷ [] }) attempts
scan batch_size s (ok (cursor, keys) ∷ attempts) =
    let next = λ (t : State). scan batch_size t attempts in
    elim (add_keys batch_size keys (record s { asked = s.asked ++ s.cursor ∷ [] })) [
      | none ↦ panics
      | some t ↦
          if eqb_ℤ cursor (pos 0)
          then finished (record t { cursor = cursor })
          else next (record t { cursor = cursor })
    ]

-- if len(batch) > 0 { ch <- batch }
unfoldable pub send_rest : State → List (List Bytes)
send_rest s = if ltb 0 (length s.batch) then s.sent ++ s.batch ∷ [] else s.sent

abbrev pub start : List (List Bytes) → State
start sent = record { cursor = pos 0; batch = []; sent = sent; asked = [] }

-- A value of a reply, and the client's conversions of it.
module _ {Value : Type 0} (to_int : Value → Result ℤ)
    (to_strings : Value → Result (List Bytes)) where
  unfoldable pub page_of : List Value → Result (ℤ × List Bytes)
  page_of [] = err wrong_count
  page_of (v ∷ []) = err wrong_count
  page_of (v ∷ w ∷ []) = elim (to_int v) [
    | err e ↦ err e
    | ok c ↦ elim (to_strings w) [ err e ↦ err e | ok keys ↦ ok (c, keys) ]
  ]
  page_of (v ∷ w ∷ x ∷ rest) = err wrong_count

  -- An attempt is what WithIndex and the SCAN command come to.
  unfoldable pub decode : Result (List Value) → Result (ℤ × List Bytes)
  unfolding page_of
  decode (err e) = err e
  decode (ok values) = page_of values

  -- The loop over the instances, in the order of rand.Perm: the batches on the channel, and whether
  -- it is closed, or nothing if the goroutine panics.
  unfoldable pub keys_from :
      ℕ
      → (ℕ → List (Result (List Value)))
      → List ℕ
      → List (List Bytes)
      → Option (List (List Bytes) × Bool)
  unfolding scan send_rest decode
  keys_from batch_size attempts [] sent = some (sent, true)
  keys_from batch_size attempts (i ∷ order) sent =
      let next = λ (b : List (List Bytes)). keys_from batch_size attempts order b in
      elim (scan batch_size (start sent) (map decode (attempts i))) [
        | panics ↦ none
        | waits s ↦ some (s.sent, false)
        | finished s ↦ next (send_rest s)
      ]

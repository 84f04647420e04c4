-- ===== src/Cluster/Pipeline/Writes.antt =====
-- What the pipelines of Insert and Delete send, and when they succeed.
use mathlib.Core.List.{append_assoc, append-nil}
use er_pi_middleware25_artif.Base.{
  ℕ, ◌≡◌, refl, sym, ap, ◌∙◌, List, [], ◌∷◌, ◌++◌, none, map, arith, length,
}
use er_pi_middleware25_artif.Common.{KeyScoreMember}
use er_pi_middleware25_artif.Cluster.Script.{Side, inserts, deletes}
use er_pi_middleware25_artif.Cluster.Conn.{
  Result, ok, err, Command, Reply, Conn, M, ◌>>=◌, ◌>>◌, send, flush, receive, send_all,
}
use er_pi_middleware25_artif.Cluster.Pipeline.{
  script_command, receive_each, pipeline_insert, pipeline_delete,
}

pub >>=-eq-ok :
    {A B : Type 0} (m : M A) (f : A → M B) (c : Conn) {b : B}
    → ((m >>= f) c).0 ≡ ok b
    → (a : A) × ((m c).0 ≡ ok a) × ((m >>= f) c ≡ f a (m c).1)
>>=-eq-ok m f c h = ground arith

-- No send and no flush fails.
pub record IsHealthy (c : Conn) : Type 0 where
  pub sends : (n : ℕ) → c.send_error n ≡ none
  pub flushes : c.flush_error ≡ none

abbrev pub sending : Conn → List Command → Conn
sending c cmds = record c { sent = c.sent ++ cmds }

module _ {A : Type 0} (command : A → Command) where
  pub send_all-healthy :
      (xs : List A) (c : Conn)
      → IsHealthy c
      → send_all command xs c ≡ (ok tt, sending c (map command xs))
  unfolding send_all send
  send_all-healthy [] c h = ground (arith, append-nil c.sent)
  send_all-healthy (x ∷ xs) c h = ground (
    arith,
    h.sends (length c.sent),
    send_all-healthy xs (sending c (command x ∷ []))
        (record { sends = h.sends; flushes = h.flushes }),
    append_assoc c.sent (command x ∷ []) (map command xs),
  )

  pub send_all-ok :
      (xs : List A) (c : Conn)
      → (send_all command xs c).0 ≡ ok tt
      → (send_all command xs c).1 ≡ sending c (map command xs)
  unfolding send_all send
  send_all-ok [] c h = ground (arith, append-nil c.sent)
  send_all-ok (x ∷ xs) c h = ground (
    arith,
    send_all-ok xs (sending c (command x ∷ [])),
    append_assoc c.sent (command x ∷ []) (map command xs),
  )

-- Each of the receives took one reply that was no error.
abbrev pub Answered {ℓ} : {A : Type ℓ} → List A → Conn → Conn → Type 0
Answered xs c c' =
    (rs : List Reply) × (length rs ≡ length xs)
    × (c.replies ≡ map ok rs ++ c'.replies)
    × (c'.sent ≡ c.sent)

receive_each-ok :
    {A : Type 0} (xs : List A) (c : Conn)
    → (receive_each xs c).0 ≡ ok tt
    → Answered xs c (receive_each xs c).1
unfolding receive_each receive
receive_each-ok [] c h = ([], refl, refl, refl)
receive_each-ok {A} (x ∷ xs) c h = go (λ d. receive_each-ok xs d) c.replies refl
  where
    go :
        ((d : Conn) → (receive_each xs d).0 ≡ ok tt → Answered xs d (receive_each xs d).1)
        → (rs : List (Result Reply)) → c.replies ≡ rs
        → Answered (x ∷ xs) c (receive_each (x ∷ xs) c).1
    go ih [] e = absurd (ground arith)
    go ih (err f ∷ rest) e = absurd (ground arith)
    go ih (ok r ∷ rest) e =
        let (rs, n, taken, kept) = ih (record c { replies = rest }) (ground arith) in
        (r ∷ rs, ground arith, ground arith, ground arith)

receive_each-answered :
    {A : Type 0} (xs : List A) (rs : List Reply) (rest : List (Result Reply)) (c : Conn)
    → length rs ≡ length xs
    → c.replies ≡ map ok rs ++ rest
    → receive_each xs c ≡ (ok tt, record c { replies = rest })
unfolding receive_each receive
receive_each-answered [] [] rest c n e = ground arith
receive_each-answered [] (r ∷ rs) rest c n e = absurd (omega arith)
receive_each-answered (x ∷ xs) [] rest c n e = absurd (omega arith)
receive_each-answered (x ∷ xs) (r ∷ rs) rest c n e =
    ground (arith, receive_each-answered xs rs rest (record c { replies = map ok rs ++ rest }))

module _ (command : KeyScoreMember → Command) (tuples : List KeyScoreMember) (c : Conn) where
  abbrev pipeline : M (Unit {0})
  pipeline = send_all command tuples >> (flush >> receive_each tuples)

  pipeline-eq :
      (pipeline c).0 ≡ ok tt → pipeline c ≡ receive_each tuples (sending c (map command tuples))
  unfolding flush
  pipeline-eq h = ground (arith, send_all-ok command tuples c)

  -- Success: every command was sent, in the order of the tuples, and each was answered.
  pipeline-ok :
      (pipeline c).0 ≡ ok tt
      → ((pipeline c).1.sent ≡ c.sent ++ map command tuples)
        × ((rs : List Reply) × (length rs ≡ length tuples)
            × (c.replies ≡ map ok rs ++ (pipeline c).1.replies))
  unfolding flush
  pipeline-ok h =
      let e = pipeline-eq h in
      let (rs, n, taken, kept) =
        receive_each-ok tuples (sending c (map command tuples)) (rw e at h) in
      (ap (λ r. r.1.sent) e ∙ kept, (rs, n, taken ∙ ap (λ r. map ok rs ++ r.1.replies) (sym e)))

  pipeline-healthy :
      (rs : List Reply) (rest : List (Result Reply))
      → IsHealthy c
      → length rs ≡ length tuples
      → c.replies ≡ map ok rs ++ rest
      → pipeline c ≡ (ok tt, record (sending c (map command tuples)) { replies = rest })
  unfolding flush
  pipeline-healthy rs rest h n e = ground (
    arith,
    send_all-healthy command tuples c h,
    receive_each-answered tuples rs rest (sending c (map command tuples)),
  )

-- Every command of the pipeline was sent, in order, and each was answered by no error.
abbrev pub Delivered : Side → ℕ → List KeyScoreMember → Conn → Conn → Type 0
Delivered side max_size tuples c c' =
    (c'.sent ≡ c.sent ++ map (script_command side max_size) tuples)
    × ((rs : List Reply) × (length rs ≡ length tuples) × (c.replies ≡ map ok rs ++ c'.replies))

module _ (max_size : ℕ) (tuples : List KeyScoreMember) (c : Conn) where
  -- pipelineInsert and pipelineDelete report success only when the script of their side was sent
  -- for each tuple, in the order of the tuples, and each of these calls was answered.
  pub pipeline_writes-ok :
      ((pipeline_insert max_size tuples c).0 ≡ ok tt
        → Delivered inserts max_size tuples c (pipeline_insert max_size tuples c).1)
      × ((pipeline_delete max_size tuples c).0 ≡ ok tt
          → Delivered deletes max_size tuples c (pipeline_delete max_size tuples c).1)
  unfolding pipeline_insert pipeline_delete
  pipeline_writes-ok = (
    pipeline-ok (script_command inserts max_size) tuples c,
    pipeline-ok (script_command deletes max_size) tuples c,
  )

  -- On a connection that delivers, both succeed, and consume one reply for each tuple.
  pub pipeline_writes-healthy :
      (rs : List Reply) (rest : List (Result Reply))
      → IsHealthy c
      → length rs ≡ length tuples
      → c.replies ≡ map ok rs ++ rest
      → (pipeline_insert max_size tuples c ≡ (
        ok tt,
        record (sending c (map (script_command inserts max_size) tuples)) { replies = rest },
      ))
        × (pipeline_delete max_size tuples c ≡ (
          ok tt,
          record (sending c (map (script_command deletes max_size) tuples)) { replies = rest },
        ))
  unfolding pipeline_insert pipeline_delete
  pipeline_writes-healthy rs rest h n e = (
    pipeline-healthy (script_command inserts max_size) tuples c rs rest h n e,
    pipeline-healthy (script_command deletes max_size) tuples c rs rest h n e,
  )

-- ===== src/Cluster/Score/Answers.antt =====
-- What one instance answers to the pipeline of Score.

use er_pi_middleware25_artif.Base.{
  ◌≡◌, refl, List, [], ◌∷◌, Option, none, some, arith, All, lookup, insert, lookup-insert,
  insert-UniqueKeys, UniqueKeys, ◌∙◌, subst, if_neg,
}
use er_pi_middleware25_artif.Common.{KeyMember, KeyMember-discrete}
use er_pi_middleware25_artif.Cluster.Conn.{Result, ok, err, Conn, M, ◌>>◌, throw, flush, receive}
use er_pi_middleware25_artif.Cluster.Pipeline.{
  Presence, PresenceMap, float64, receive_float, presence_of, score_each, send_scores,
  pipeline_score, bad_state,
}

-- A presence map has one presence for a key-member, and none for one that is not among the asked.
module _ (IsAsked : KeyMember → Type 0) where
  abbrev pub IsAnswer : Result PresenceMap → Type 0
  IsAnswer (err e) = Unit
  IsAnswer (ok m) =
      UniqueKeys KeyMember-discrete m
      × ((km : KeyMember) → ¬ IsAsked km → lookup KeyMember-discrete km m ≡ none)

  pub insert-IsAnswer :
      (m : PresenceMap) (km : KeyMember) (p : Presence)
      → IsAnswer (ok m)
      → IsAsked km
      → IsAnswer (ok (insert KeyMember-discrete km p m))
  insert-IsAnswer m km p a h = (
    insert-UniqueKeys KeyMember-discrete km p m a.0,
    λ j n. elim (KeyMember-discrete km j) [
      | yes e ↦ absurd (n (subst IsAsked e h))
      | no q ↦
          lookup-insert KeyMember-discrete km j p m
          ∙ rw (if_neg (KeyMember-discrete km j) q) (a.1 j n)
    ],
  )

  pub presence-IsAnswer :
      (o : Option Presence) (next : Presence → M PresenceMap) (d : Conn)
      → ((p : Presence) (e : Conn) → IsAnswer (next p e).0)
      → IsAnswer ((elim o as (λ _. M PresenceMap) [ none ↦ throw bad_state | some p ↦ next p ]) d).0
  presence-IsAnswer none next d h = tt
  presence-IsAnswer (some p) next d h = h p d

  pub score_each-IsAnswer :
      (m : PresenceMap) (kms : List KeyMember) (c : Conn)
      → IsAnswer (ok m)
      → All IsAsked kms
      → IsAnswer (score_each m kms c).0
  unfolding score_each receive_float receive
  score_each-IsAnswer m [] c a h = a
  score_each-IsAnswer m (km ∷ kms) c a h =
      presence-IsAnswer (presence_of (float64 (receive c).0) (float64 (receive d).0))
        (λ p. score_each (insert KeyMember-discrete km p m) kms) (receive_float d).1
        (λ p e.
          score_each-IsAnswer (insert KeyMember-discrete km p m) kms e
            (insert-IsAnswer m km p a h.0) h.1)
    where
      d : Conn
      d = (receive_float c).1

  pub bind-IsAnswer :
      (act : M (Unit {0})) (next : M PresenceMap) (c : Conn)
      → ((d : Conn) → IsAnswer (next d).0)
      → IsAnswer ((act >> next) c).0
  bind-IsAnswer act next c h = ground (arith, h (act c).1)

  pub pipeline_score-IsAnswer :
      (kms : List KeyMember) (c : Conn) → All IsAsked kms → IsAnswer (pipeline_score kms c).0
  unfolding pipeline_score lookup
  pipeline_score-IsAnswer kms c h =
      bind-IsAnswer (send_scores kms) (flush >> score_each [] kms) c (λ d.
        bind-IsAnswer flush (score_each [] kms) d
          (λ f. score_each-IsAnswer [] kms f (tt, λ _ _. refl) h))

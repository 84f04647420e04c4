-- ===== src/Cluster/Score.antt =====
-- Score of roshi/cluster/cluster.go over all instances: bucketize, scatter, gather.
pub mod Merge
pub mod Answers
pub mod Arrival
use mathlib.Core.List.Permᴰ
use mathlib.Core.Logic.{∥∥₁_elim}
use mathlib.Core.List.{Perm, Permᴰ, Memᴰ}
use er_pi_middleware25_artif.Base.{
  ℕ, ◌≡◌, ◌≢◌, refl, List, [], ◌∷◌, Option, none, some, arith, All, lookup, insert, lookup-insert,
  insert-UniqueKeys, UniqueKeys, ℕ_discrete, ◌⊎◌, inl, inr, sym, ap, ◌∙◌, ite, Option-cases, subst,
  if_neg, if_pos,
}
use er_pi_middleware25_artif.Common.{Bytes, KeyMember, KeyMember-discrete}
use er_pi_middleware25_artif.Cluster.Buckets.{
  bucket, bucketize, routed, bucket-bucketize, bucketize-UniqueKeys, bucket-some,
}
use er_pi_middleware25_artif.Cluster.Conn.{
  Error, Result, ok, err, Conn, M, ◌>>=◌, ◌>>◌, return, throw, send, flush, receive,
}
use er_pi_middleware25_artif.Cluster.Pipeline.{
  Presence, PresenceMap, FloatReply, float64, receive_float, presence_of, score_each, send_scores,
  pipeline_score, bad_state,
}

-- The response of a goroutine: what WithIndex and the function that it runs return.
abbrev pub reached : Result Conn → M PresenceMap → Result PresenceMap
reached (err e) act = err e
reached (ok c) act = (act c).0

abbrev pub responses : (ℕ → Result Conn) → List (ℕ × List KeyMember) → List (Result PresenceMap)
responses conns [] = []
responses conns ((i, kms) ∷ m) = reached (conns i) (pipeline_score kms) ∷ responses conns m

-- for keyMember, presence := range response.presenceMap { presenceMap[keyMember] = presence }
unfoldable pub merge : PresenceMap → PresenceMap → PresenceMap
merge m [] = m
merge m ((km, p) ∷ rest) = merge (insert KeyMember-discrete km p m) rest

unfoldable pub gather_presences : PresenceMap → List (Result PresenceMap) → PresenceMap
gather_presences m [] = m
gather_presences m (err e ∷ rest) = gather_presences m rest
gather_presences m (ok r ∷ rest) = gather_presences (merge m r) rest

abbrev pub member_index : (Bytes → ℕ) → KeyMember → ℕ
member_index index km = index km.key

-- `arrive` is the order in which the responses come.
module _ (index : Bytes → ℕ) (conns : ℕ → Result Conn)
    (arrive : List (Result PresenceMap) → List (Result PresenceMap)) where
  unfoldable pub score : List KeyMember → PresenceMap
  score kms = gather_presences [] (arrive (responses conns (bucketize (member_index index) kms)))

-- What a response says of a key-member.
abbrev pub reported : KeyMember → Result PresenceMap → Option Presence
reported km (err e) = none
reported km (ok m) = lookup KeyMember-discrete km m

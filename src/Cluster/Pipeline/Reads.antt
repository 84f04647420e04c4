-- ===== src/Cluster/Pipeline/Reads.antt =====
-- What pipelineScore and pipelineRange return for the replies of the server.
use mathlib.Core.List.{append_assoc, append-nil, Memᴰ}
use er_pi_middleware25_artif.Base.{
  ℕ, ◌≡◌, ◌⊎◌, inl, inr, refl, List, [], ◌∷◌, ◌++◌, Option, none, some, ℤ, pos, true, false, map,
  arith, length, lookup, insert, lookup-insert, All,
}
use er_pi_middleware25_artif.Common.{Bytes, Bytes-discrete, KeyMember, KeyMember-discrete}
use er_pi_middleware25_artif.Cluster.Script.{inserts, deletes}
use er_pi_middleware25_artif.Cluster.Conn.{
  Result, ok, err, Command, Reply, nil, float, members, Conn, send, flush, receive, zscore,
}
use er_pi_middleware25_artif.Cluster.Pipeline.{
  Presence, float64, receive_float, presence_of, bad_state, PresenceMap, score_each, send_scores,
  pipeline_score, ResultMap, to_tuple, range_each, range_command, pipeline_range,
}
use er_pi_middleware25_artif.Cluster.Pipeline.Writes.{IsHealthy, sending, send_all-healthy}

-- The reply of ZSCORE.
abbrev pub score_reply : Option ℤ → Reply
score_reply none = nil
score_reply (some s) = float s

-- The presence of a member that is in at most one of the two sets.
abbrev pub presence : Option ℤ → Option ℤ → Presence
presence (some s) d = record { present = true; inserted = true; score = s }
presence none (some s) = record { present = true; inserted = false; score = s }
presence none none = record { present = false; inserted = false; score = pos 0 }

-- The scores of a key-member in the set of inserts and in that of deletes.
module _ (ins del : KeyMember → Option ℤ) where
  abbrev pub score_replies : List KeyMember → List (Result Reply) → List (Result Reply)
  score_replies [] rest = rest
  score_replies (km ∷ kms) rest =
      ok (score_reply (ins km)) ∷ ok (score_reply (del km)) ∷ score_replies kms rest

  -- The map that the loop builds.
  abbrev pub presences : PresenceMap → List KeyMember → PresenceMap
  presences m [] = m
  presences m (km ∷ kms) =
      presences (insert KeyMember-discrete km (presence (ins km) (del km)) m) kms

  abbrev pub IsDisjoint : List KeyMember → Type 0
  IsDisjoint = All (λ km. (ins km ≡ none) ⊎ (del km ≡ none))

  presence_of_lem :
      (a b : Option ℤ)
      → (a ≡ none) ⊎ (b ≡ none)
      → presence_of (float64 (ok (score_reply a))) (float64 (ok (score_reply b)))
        ≡ some (presence a b)
  unfolding presence_of
  presence_of_lem none none h = refl
  presence_of_lem none (some b) h = refl
  presence_of_lem (some a) none h = refl
  presence_of_lem (some a) (some b) (inl h) = cc
  presence_of_lem (some a) (some b) (inr h) = cc

  score_each_lem :
      (m : PresenceMap) (kms : List KeyMember) (rest : List (Result Reply)) (c : Conn)
      → IsDisjoint kms
      → c.replies ≡ score_replies kms rest
      → score_each m kms c ≡ (ok (presences m kms), record c { replies = rest })
  unfolding score_each receive_float receive
  score_each_lem m [] rest c d e = ground arith
  score_each_lem m (km ∷ kms) rest c d e = ground (
    arith,
    presence_of_lem (ins km) (del km) d.0,
    score_each_lem (insert KeyMember-discrete km (presence (ins km) (del km)) m) kms rest
        (record c { replies = score_replies kms rest }) d.1,
  )

  lookup-presences_keep :
      (m : PresenceMap) (kms : List KeyMember) (km : KeyMember)
      → lookup KeyMember-discrete km m ≡ some (presence (ins km) (del km))
      → lookup KeyMember-discrete km (presences m kms) ≡ some (presence (ins km) (del km))
  lookup-presences_keep m [] km h = h
  lookup-presences_keep m (j ∷ kms) km h =
      lookup-presences_keep (insert KeyMember-discrete j (presence (ins j) (del j)) m) kms km
        (ground (arith, lookup-insert KeyMember-discrete j km (presence (ins j) (del j)) m))

  lookup-presences :
      (m : PresenceMap) (kms : List KeyMember) (km : KeyMember)
      → Memᴰ km kms
      → lookup KeyMember-discrete km (presences m kms) ≡ some (presence (ins km) (del km))
  lookup-presences m [] km h = elim h [ ]
  lookup-presences m (j ∷ kms) km (Memᴰ.head e) =
      lookup-presences_keep (insert KeyMember-discrete j (presence (ins j) (del j)) m) kms km
        (ground (arith, lookup-insert KeyMember-discrete j km (presence (ins j) (del j)) m))
  lookup-presences m (j ∷ kms) km (Memᴰ.tail t) =
      lookup-presences (insert KeyMember-discrete j (presence (ins j) (del j)) m) kms km t

  abbrev pub score_commands : List KeyMember → List Command
  score_commands [] = []
  score_commands (km ∷ kms) =
      zscore km.key inserts km.member ∷ zscore km.key deletes km.member ∷ score_commands kms

  send_scores-healthy :
      (kms : List KeyMember) (c : Conn)
      → IsHealthy c
      → send_scores kms c ≡ (ok tt, sending c (score_commands kms))
  unfolding send_scores send
  send_scores-healthy [] c h = ground (arith, append-nil c.sent)
  send_scores-healthy (km ∷ kms) c h =
      let i = zscore km.key inserts km.member in
      let d = zscore km.key deletes km.member in
      ground (
        arith,
        h.sends (length c.sent),
        h.sends (length (c.sent ++ i ∷ [])),
        send_scores-healthy kms (sending (sending c (i ∷ [])) (d ∷ []))
            (record { sends = h.sends; flushes = h.flushes }),
        append_assoc c.sent (i ∷ []) (d ∷ []),
        append_assoc c.sent (i ∷ d ∷ []) (score_commands kms),
      )

  -- pipelineScore asks for each key-member in both sets. For the replies of sets that share none
  -- of these members it succeeds, consumes exactly these replies, and returns for each
  -- key-member whether it is there, in which set, and with which score.
  pub pipeline_score_lem :
      (kms : List KeyMember) (rest : List (Result Reply)) (c : Conn)
      → IsHealthy c
      → IsDisjoint kms
      → c.replies ≡ score_replies kms rest
      → (m : PresenceMap) × (pipeline_score kms c
          ≡ (ok m, record (sending c (score_commands kms)) { replies = rest }))
        × ((km : KeyMember)
            → Memᴰ km kms
            → lookup KeyMember-discrete km m ≡ some (presence (ins km) (del km)))
  unfolding pipeline_score flush
  pipeline_score_lem kms rest c h d e = (
    presences [] kms,
    ground (
      arith,
      send_scores-healthy kms c h,
      score_each_lem [] kms rest (sending c (score_commands kms)) d,
    ),
    λ km m. lookup-presences [] kms km m,
  )

-- A member found in both sets is reported as an error, and no presence is returned.
pub pipeline_score-bad_state :
    (km : KeyMember) (a b : ℤ) (rest : List (Result Reply)) (c : Conn)
    → IsHealthy c
    → c.replies ≡ ok (float a) ∷ ok (float b) ∷ rest
    → (pipeline_score (km ∷ []) c).0 ≡ err bad_state
unfolding pipeline_score flush score_each receive_float receive presence_of
pipeline_score-bad_state km a b rest c h e =
    ground (arith, send_scores-healthy (λ _. none) (λ _. none) (km ∷ []) c h)

-- The replies to ZREVRANGE, and the map that the loop builds of them.
module _ (select : Bytes → List (Bytes × ℤ)) where
  abbrev pub range_replies : List Bytes → List (Result Reply) → List (Result Reply)
  range_replies [] rest = rest
  range_replies (key ∷ keys) rest = ok (members (select key)) ∷ range_replies keys rest

  abbrev pub ranges : ResultMap → List Bytes → ResultMap
  ranges m [] = m
  ranges m (key ∷ keys) =
      ranges (insert Bytes-discrete key (map (to_tuple key) (select key)) m) keys

  range_each_lem :
      (m : ResultMap) (keys : List Bytes) (rest : List (Result Reply)) (c : Conn)
      → c.replies ≡ range_replies keys rest
      → range_each m keys c ≡ (ok (ranges m keys), record c { replies = rest })
  unfolding range_each receive
  range_each_lem m [] rest c e = ground arith
  range_each_lem m (key ∷ keys) rest c e = ground (
    arith,
    range_each_lem (insert Bytes-discrete key (map (to_tuple key) (select key)) m) keys rest
        (record c { replies = range_replies keys rest }),
  )

  lookup-ranges_keep :
      (m : ResultMap) (keys : List Bytes) (key : Bytes)
      → lookup Bytes-discrete key m ≡ some (map (to_tuple key) (select key))
      → lookup Bytes-discrete key (ranges m keys) ≡ some (map (to_tuple key) (select key))
  lookup-ranges_keep m [] key h = h
  lookup-ranges_keep m (j ∷ keys) key h =
      lookup-ranges_keep (insert Bytes-discrete j (map (to_tuple j) (select j)) m) keys key
        (ground (arith, lookup-insert Bytes-discrete j key (map (to_tuple j) (select j)) m))

  lookup-ranges :
      (m : ResultMap) (keys : List Bytes) (key : Bytes)
      → Memᴰ key keys
      → lookup Bytes-discrete key (ranges m keys) ≡ some (map (to_tuple key) (select key))
  lookup-ranges m [] key h = elim h [ ]
  lookup-ranges m (j ∷ keys) key (Memᴰ.head e) =
      lookup-ranges_keep (insert Bytes-discrete j (map (to_tuple j) (select j)) m) keys key
        (ground (arith, lookup-insert Bytes-discrete j key (map (to_tuple j) (select j)) m))
  lookup-ranges m (j ∷ keys) key (Memᴰ.tail t) =
      lookup-ranges (insert Bytes-discrete j (map (to_tuple j) (select j)) m) keys key t

  -- pipelineRange sends one ZREVRANGE for each key, and returns for each key the members of its
  -- own reply, in their order.
  pub pipeline_range_lem :
      (offset : ℤ) (limit : ℕ) (keys : List Bytes) (rest : List (Result Reply)) (c : Conn)
      → IsHealthy c
      → c.replies ≡ range_replies keys rest
      → (m : ResultMap) × (pipeline_range offset (pos limit) keys c ≡ (
        ok m,
        record (sending c (map (range_command offset (pos limit)) keys)) { replies = rest },
      ))
        × ((key : Bytes)
            → Memᴰ key keys
            → lookup Bytes-discrete key m ≡ some (map (to_tuple key) (select key)))
  unfolding pipeline_range flush
  pipeline_range_lem offset limit keys rest c h e = (
    ranges [] keys,
    ground (
      arith,
      send_all-healthy (range_command offset (pos limit)) keys c h,
      range_each_lem [] keys rest (sending c (map (range_command offset (pos limit)) keys)),
    ),
    λ key m. lookup-ranges [] keys key m,
  )

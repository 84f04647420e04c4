-- ===== src/Cluster/Pipeline.antt =====
-- pipelineInsert, pipelineDelete, pipelineScore and pipelineRange of roshi/cluster/cluster.go.
pub mod Writes
pub mod Reads
use er_pi_middleware25_artif.Base.{
  ℕ, ◌+◌, ◌≡◌, List, [], ◌∷◌, ◌++◌, Option, none, some, ℤ, pos, negsuc, pos_part, neg_part, ltb_ℤ,
  add_int, Bool, true, false, map, insert, if◌then◌else◌,
}
use er_pi_middleware25_artif.Common.{
  Bytes, Bytes-discrete, KeyMember, KeyMember-discrete, KeyScoreMember,
}
use er_pi_middleware25_artif.Cluster.Script.{Side, inserts, deletes, Call}
use er_pi_middleware25_artif.Cluster.Conn.{
  Error, Result, ok, err, Command, eval_script, zscore, zrevrange, Reply, nil, integer, float,
  members, Conn, M, ◌>>=◌, ◌>>◌, return, throw, send, flush, receive, send_all,
}

abbrev pub call : Side → KeyScoreMember → Call
call side t = record { side = side; score = t.score; member = t.member }

abbrev pub script_command : Side → ℕ → KeyScoreMember → Command
script_command side max_size t = eval_script t.key (call side t) max_size

-- for _ = range xs { if _, err := conn.Receive(); err != nil { return err } }
unfoldable pub receive_each {ℓ} : {A : Type ℓ} → List A → M (Unit {0})
receive_each [] = return tt
receive_each (x ∷ xs) = receive >>= λ _. receive_each xs

unfoldable pub pipeline_insert : ℕ → List KeyScoreMember → M (Unit {0})
pipeline_insert max_size tuples =
    send_all (script_command inserts max_size) tuples >> (flush >> receive_each tuples)

unfoldable pub pipeline_delete : ℕ → List KeyScoreMember → M (Unit {0})
pipeline_delete max_size tuples =
    send_all (script_command deletes max_size) tuples >> (flush >> receive_each tuples)

pub record Presence : Type 0 where
  pub present : Bool
  pub inserted : Bool
  pub score : ℤ

-- What redis.Float64 makes of a reply: a value, ErrNil or another error.
pub data FloatReply : Type 0 where
  value : ℤ → FloatReply
  err_nil : FloatReply
  failed : FloatReply

abbrev pub float64 : Result Reply → FloatReply
float64 (ok (float s)) = value s
float64 (ok nil) = err_nil
float64 (ok (integer n)) = failed
float64 (ok (members xs)) = failed
float64 (err e) = failed

-- The receive that keeps its error as a value.
unfoldable pub receive_float : M FloatReply
unfolding receive
receive_float c = let r = receive c in (ok (float64 r.0), r.1)

-- The switch of pipelineScore; no presence is its default case.
unfoldable pub presence_of : FloatReply → FloatReply → Option Presence
presence_of (value s) err_nil = some (record { present = true; inserted = true; score = s })
presence_of err_nil (value s) = some (record { present = true; inserted = false; score = s })
presence_of err_nil err_nil = some (record { present = false; inserted = false; score = pos 0 })
presence_of (value s) (value t) = none
presence_of (value s) failed = none
presence_of err_nil failed = none
presence_of failed d = none

-- The error of the default case, without the values that it prints.
abbrev pub bad_state : Error
bad_state = b'b' ∷ b'a' ∷ b'd' ∷ b' ' ∷ b's' ∷ b't' ∷ b'a' ∷ b't' ∷ b'e' ∷ []

abbrev pub PresenceMap : Type 0
PresenceMap = List (KeyMember × Presence)

unfoldable pub score_each : PresenceMap → List KeyMember → M PresenceMap
score_each m [] = return m
score_each m (km ∷ kms) = receive_float >>= λ ins. receive_float >>= λ del.
    let next = λ (p : Presence). score_each (insert KeyMember-discrete km p m) kms in
    elim (presence_of ins del) [ none ↦ throw bad_state | some p ↦ next p ]

unfoldable pub send_scores : List KeyMember → M (Unit {0})
send_scores [] = return tt
send_scores (km ∷ kms) =
    send (zscore km.key inserts km.member)
    >> (send (zscore km.key deletes km.member) >> send_scores kms)

unfoldable pub pipeline_score : List KeyMember → M PresenceMap
pipeline_score kms = send_scores kms >> (flush >> score_each [] kms)

abbrev pub ResultMap : Type 0
ResultMap = List (Bytes × List KeyScoreMember)

-- redis.Values of a reply, with its member-score pairs already read.
abbrev pub unexpected_type : Error
unexpected_type = b't' ∷ b'y' ∷ b'p' ∷ b'e' ∷ []

abbrev pub values : Reply → M (List (Bytes × ℤ))
values (members xs) = return xs
values nil = throw unexpected_type
values (integer n) = throw unexpected_type
values (float s) = throw unexpected_type

abbrev pub to_tuple : Bytes → Bytes × ℤ → KeyScoreMember
to_tuple key (member, score) = record { key = key; score = score; member = member }

unfoldable pub range_each : ResultMap → List Bytes → M ResultMap
range_each m [] = return m
range_each m (key ∷ keys) = receive >>= λ r.
    values r >>= λ xs. range_each (insert Bytes-discrete key (map (to_tuple key) xs) m) keys

abbrev pub negative_limit : Error
negative_limit = b'n' ∷ b'e' ∷ b'g' ∷ []

-- ZREVRANGE key+ offset offset+limit-1
abbrev pub range_command : ℤ → ℤ → Bytes → Command
range_command offset limit key = zrevrange key offset (add_int (add_int offset limit) (negsuc 0))

unfoldable pub pipeline_range : ℤ → ℤ → List Bytes → M ResultMap
pipeline_range offset limit keys =
    if ltb_ℤ limit (pos 0)
    then throw negative_limit
    else (send_all (range_command offset limit) keys >> (flush >> range_each [] keys))

-- ===== src/Server.antt =====
-- roshi-server/main.go: the parameters of a request, flatten, evaluateScalarPercentage and the
-- handlers, up to the response that they write.
pub mod Selects
pub mod Percentage
pub mod Order
pub mod Pages
pub mod Start
use er_pi_middleware25_artif.Base.{
  ℕ, zero, suc, ◌+◌, ◌-◌, ◌*◌, ◌/◌, ◌≡◌, List, [], ◌∷◌, ◌++◌, take, drop, length, Option, none,
  some, ℤ, pos, negsuc, ◌+ℤ◌, add_int, ltb_ℤ, ltb, leb, ◌==◌, Bool, true, false, not, ◌&&◌, ◌||◌,
  if◌then◌else◌,
}
use er_pi_middleware25_artif.Common.{Bytes, KeyScoreMember, Cursor}
use er_pi_middleware25_artif.Common.Digits.{parse_int64}
use er_pi_middleware25_artif.Common.Cursors.{parse_cursor}
use er_pi_middleware25_artif.Cluster.Conn.{Error, Result, ok, err}
use er_pi_middleware25_artif.Farm.Reads.{Response}

-- values.Get: the empty string if there is no value.
abbrev pub Values : Type 0
Values = Bytes → Bytes

abbrev pub int_or : ℤ → Option ℤ → ℤ × Bool
int_or default none = (default, true)
int_or default (some v) = (v, true)

unfoldable pub parse_int : Values → Bytes → ℤ → ℤ × Bool
parse_int values key default = elim (values key) [
  | [] ↦ (default, false)
  | c ∷ cs ↦ int_or default (parse_int64 (c ∷ cs))
]

-- strconv.ParseBool, which takes 1, t, T, true, TRUE, True, 0, f, F, false, FALSE and False.
unfoldable pub bool_of : Bytes → Option Bool
bool_of (c ∷ []) =
    if c == b'1' || (c == b't' || c == b'T')
    then some true
    else if c == b'0' || (c == b'f' || c == b'F')
    then some false
    else none
bool_of (a ∷ b ∷ c ∷ d ∷ []) =
    if (a == b't' || a == b'T') && (b == b'r' && (c == b'u' && d == b'e'))
    then some true
    else if a == b'T' && (b == b'R' && (c == b'U' && d == b'E'))
    then some true
    else none
bool_of (a ∷ b ∷ c ∷ d ∷ e ∷ []) =
    if (a == b'f' || a == b'F') && (b == b'a' && (c == b'l' && (d == b's' && e == b'e')))
    then some false
    else if a == b'F' && (b == b'A' && (c == b'L' && (d == b'S' && e == b'E')))
    then some false
    else none
bool_of [] = none
bool_of (a ∷ b ∷ []) = none
bool_of (a ∷ b ∷ c ∷ []) = none
bool_of (a ∷ b ∷ c ∷ d ∷ e ∷ f ∷ rest) = none

abbrev pub bool_or : Bool → Option Bool → Bool × Bool
bool_or default none = (default, true)
bool_or default (some v) = (v, true)

unfoldable pub parse_bool : Values → Bytes → Bool → Bool × Bool
parse_bool values key default = elim (values key) [
  | [] ↦ (default, false)
  | c ∷ cs ↦ bool_or default (bool_of (c ∷ cs))
]

unfoldable pub parse_str : Values → Bytes → Bytes → Bytes × Bool
parse_str values key default = elim (values key) [ [] ↦ (default, false) | c ∷ cs ↦ (c ∷ cs, true) ]

abbrev pub all_members : Response → List KeyScoreMember
all_members [] = []
all_members ((key, members) ∷ m) = members ++ all_members m

-- What a call into the handler comes to: a panic of a slice expression, or a value.
pub data Outcome (A : Type 0) : Type 0 where
  panics : Outcome A
  returns : A → Outcome A

-- a[offset:], for an offset that is not beyond the end, and a[:limit] if that is shorter.
abbrev pub slice_from : ℤ → ℤ → List KeyScoreMember → Outcome (List KeyScoreMember)
slice_from (negsuc n) limit a = panics
slice_from (pos n) (pos limit) a =
    let rest = drop n a in returns (if ltb limit (length rest) then take limit rest else rest)
slice_from (pos n) (negsuc l) a = panics

module _ (sort : List KeyScoreMember → List KeyScoreMember) where
  unfoldable pub flatten : Response → ℤ → ℤ → Outcome (List KeyScoreMember)
  flatten m offset limit =
      let a = sort (all_members m) in
      if ltb_ℤ (pos (length a)) offset then returns [] else slice_from offset limit a

-- The responses: an error with its status code, tuples by key, or one list of tuples.
pub data Reply : Type 0 where
  responds_error : ℕ → Error → Reply
  selected : Response → Reply
  flattened : List KeyScoreMember → Reply
  inserted : ℕ → Reply
  deleted : ℕ → Reply

abbrev pub status_bad_request : ℕ
status_bad_request = 400

abbrev pub status_internal_server_error : ℕ
status_internal_server_error = 500

pub record Request : Type 0 where
  pub form : Result Values
  pub body : Result (List Bytes)

pub record Selecter : Type 0 where
  pub select_offset : List Bytes → ℤ → ℤ → Result Response
  pub select_range : List Bytes → Cursor → Cursor → ℤ → Result Response

abbrev pub both_given : Error
both_given = b'b' ∷ b'o' ∷ b't' ∷ b'h' ∷ []

abbrev pub as_flattened : Outcome (List KeyScoreMember) → Outcome Reply
as_flattened panics = panics
as_flattened (returns a) = returns (flattened a)

-- A cursor parameter: the default if it is not given, or what Parse makes of it.
abbrev pub cursor_of : Bytes × Bool → Cursor → Result Cursor
cursor_of (s, true) default = parse_cursor s
cursor_of (s, false) default = ok default

abbrev pub offset_key : Bytes
offset_key = b'o' ∷ b'f' ∷ b'f' ∷ b's' ∷ b'e' ∷ b't' ∷ []

abbrev pub limit_key : Bytes
limit_key = b'l' ∷ b'i' ∷ b'm' ∷ b'i' ∷ b't' ∷ []

abbrev pub start_key : Bytes
start_key = b's' ∷ b't' ∷ b'a' ∷ b'r' ∷ b't' ∷ []

abbrev pub stop_key : Bytes
stop_key = b's' ∷ b't' ∷ b'o' ∷ b'p' ∷ []

abbrev pub coalesce_key : Bytes
coalesce_key = b'c' ∷ b'o' ∷ b'a' ∷ b'l' ∷ b'e' ∷ b's' ∷ b'c' ∷ b'e' ∷ []

-- `max_float` is the score math.MaxFloat64.
module _ (sort : List KeyScoreMember → List KeyScoreMember) (max_float : ℤ)
    (selecter : Selecter) where
  -- The response to the results of a select.
  unfoldable pub respond_selected : Bool → ℤ → ℤ → Result Response → Outcome Reply
  unfolding flatten
  respond_selected coalesce offset limit (err e) =
      returns (responds_error status_internal_server_error e)
  respond_selected true offset limit (ok results) = as_flattened (flatten sort results offset limit)
  respond_selected false offset limit (ok results) = returns (selected results)

  unfoldable pub handle_range : List Bytes → Bytes × Bool → Bytes × Bool → ℤ → Bool → Outcome Reply
  unfolding respond_selected
  handle_range keys start_param stop_param limit coalesce =
      elim (cursor_of start_param (record { score = max_float; member = [] })) [
        | err e ↦ returns (responds_error status_bad_request e)
        | ok start ↦ elim (cursor_of stop_param (record { score = pos 0; member = [] })) [
          | err e ↦ returns (responds_error status_bad_request e)
          | ok stop ↦
              respond_selected coalesce (pos 0) limit (selecter.select_range keys start stop limit)
        ]
      ]

  unfoldable pub handle_offset : List Bytes → ℤ → ℤ → Bool → Outcome Reply
  unfolding respond_selected
  handle_offset keys offset limit coalesce =
      let select_offset = if coalesce then pos 0 else offset in
      let select_limit = if coalesce then add_int offset limit else limit in
      respond_selected coalesce offset limit
        (selecter.select_offset keys select_offset select_limit)

  -- The handler after the body is read.
  unfoldable pub handle_form : Values → List Bytes → Outcome Reply
  unfolding parse_int parse_str parse_bool handle_range handle_offset
  handle_form values keys =
      let offset = parse_int values offset_key (pos 0) in
      let start = parse_str values start_key [] in
      let stop = parse_str values stop_key [] in
      let limit = parse_int values limit_key (pos 10) in
      let coalesce = parse_bool values coalesce_key false in
      if not offset.1 && (start.1 || stop.1)
      then handle_range keys start stop limit.0 coalesce.0
      else if not start.1 && not stop.1
      then handle_offset keys offset.0 limit.0 coalesce.0
      else if offset.1 && (start.1 || stop.1)
      then returns (responds_error status_bad_request both_given)
      else panics

  unfoldable pub handle_select : Request → Outcome Reply
  unfolding handle_form
  handle_select r = elim r.form [
    | err e ↦ returns (responds_error status_internal_server_error e)
    | ok values ↦ elim r.body [
      | err e ↦ returns (responds_error status_bad_request e)
      | ok keys ↦ handle_form values keys
    ]
  ]

-- handleInsert and handleDelete: the write of the tuples in the body.
abbrev pub written : Reply → Option Error → Reply
written reply none = reply
written reply (some e) = responds_error status_internal_server_error e

unfoldable pub handle_insert :
    (List KeyScoreMember → Option Error) → Result (List KeyScoreMember) → Reply
handle_insert insert (err e) = responds_error status_bad_request e
handle_insert insert (ok tuples) = written (inserted (length tuples)) (insert tuples)

unfoldable pub handle_delete :
    (List KeyScoreMember → Option Error) → Result (List KeyScoreMember) → Reply
handle_delete delete (err e) = responds_error status_bad_request e
handle_delete delete (ok tuples) = written (deleted (length tuples)) (delete tuples)

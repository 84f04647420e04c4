-- ===== src/Tests/Server.antt =====
-- The handlers of roshi-server on small inputs.
use er_pi_middleware25_artif.Base.{
  arith, ℕ, ◌≡◌, ◌≢◌, ◌↔◌, refl, ◌⊎◌, List, [], ◌∷◌, length, ℤ, pos, negsuc, ◌≤ℤ◌, ◌<ℤ◌,
}
use er_pi_middleware25_artif.Common.{KeyScoreMember, Cursor}
use er_pi_middleware25_artif.Common.Digits.{parse_int64}
use er_pi_middleware25_artif.Common.Cursors.{print_cursor, parse_cursor, parse_cursor-print_cursor}
use er_pi_middleware25_artif.Cluster.Conn.{ok}
use er_pi_middleware25_artif.Farm.Reads.{Response}
use er_pi_middleware25_artif.Server.{
  Values, panics, all_members, flatten, Selecter, parse_int, handle_form,
}
use er_pi_middleware25_artif.Server.Selects.{flatten_panics_iff, handle_form_returns}
use er_pi_middleware25_artif.Server.Percentage.{evaluate_scalar_percentage}

program : Unit {0}
unfolding parse_int parse_int64 evaluate_scalar_percentage
program = tt

abbrev keep : List KeyScoreMember → List KeyScoreMember
keep xs = xs

abbrev response : Response
response = (7 ∷ [], record { key = 7 ∷ []; score = pos 5; member = 1 ∷ [] } ∷ []) ∷ []

flatten_panics_iff_example : (flatten keep response (negsuc 0) (pos 10) ≡ panics) ↔ (
    (negsuc 0 <ℤ pos 0) ⊎ ((pos 10 <ℤ pos 0) × (negsuc 0 ≤ℤ pos (length (all_members response)))))
flatten_panics_iff_example = flatten_panics_iff keep response (negsuc 0) (pos 10)

abbrev selecter : Selecter
selecter = record {
  select_offset = λ keys offset limit. ok response;
  select_range = λ keys start stop limit. ok response;
}

abbrev no_values : Values
no_values key = []

handle_form_returns_example : handle_form keep (pos 99) selecter no_values ((7 ∷ []) ∷ []) ≢ panics
unfolding program
handle_form_returns_example =
    handle_form_returns keep (pos 99) selecter no_values ((7 ∷ []) ∷ []) 0 10 refl refl

abbrev rounded_up : ℕ → ℕ → ℤ
rounded_up p n = pos 2

abbrev a_cursor : Cursor
a_cursor = record { score = negsuc 4; member = 1 ∷ 200 ∷ [] }

parse_cursor-print_cursor_example : parse_cursor (print_cursor a_cursor) ≡ ok a_cursor
parse_cursor-print_cursor_example =
    parse_cursor-print_cursor a_cursor (omega arith) (omega arith) (omega arith, (omega arith, tt))

-- ===== src/Server/Selects.antt =====
-- The responses to a select request.
use er_pi_middleware25_artif.Base.{
  ap, ℕ, zero, suc, ◌≡◌, ◌≢◌, ◌↔◌, refl, ◌≤◌, ◌⊎◌, arith, List, [], ◌∷◌, take, drop, length, ℤ, pos,
  negsuc, ◌≤ℤ◌, ◌<ℤ◌, Bool, true, false, not, ◌&&◌, ◌||◌, if◌then◌else◌,
}
use er_pi_middleware25_artif.Common.{Bytes, KeyScoreMember, Cursor}
use er_pi_middleware25_artif.Cluster.Conn.{Result, ok, err}
use er_pi_middleware25_artif.Farm.Reads.{Response}
use er_pi_middleware25_artif.Server.{
  Outcome, panics, returns, all_members, flatten, Reply, Selecter, Values, parse_int, parse_str,
  parse_bool, cursor_of, respond_selected, handle_range, handle_offset, handle_form, offset_key,
  limit_key, start_key, stop_key, coalesce_key, responds_error, status_bad_request,
}

-- flatten panics exactly for a negative offset, and for a negative limit unless the offset is
-- beyond the end.
pub flatten_panics_iff :
    (sort : List KeyScoreMember → List KeyScoreMember) (m : Response) (offset limit : ℤ)
    → (flatten sort m offset limit ≡ panics)
      ↔ ((offset <ℤ pos 0) ⊎ ((limit <ℤ pos 0) × (offset ≤ℤ pos (length (sort (all_members m))))))
unfolding flatten
flatten_panics_iff sort m (pos n) (pos l) = ground arith
flatten_panics_iff sort m (pos n) (negsuc l) = ground arith
flatten_panics_iff sort m (negsuc n) limit = ground arith

take_all : {A : Type 0} → (l : ℕ) (xs : List A) → length xs ≤ l → take l xs ≡ xs
take_all zero [] h = refl
take_all (suc l) [] h = refl
take_all zero (x ∷ xs) h = absurd (omega arith)
take_all (suc l) (x ∷ xs) h = ap (λ ys. x ∷ ys) (take_all l xs (omega arith))

drop_all : {A : Type 0} → (n : ℕ) (xs : List A) → length xs ≤ n → drop n xs ≡ []
drop_all zero [] h = refl
drop_all (suc n) [] h = refl
drop_all zero (x ∷ xs) h = absurd (omega arith)
drop_all (suc n) (x ∷ xs) h = drop_all n xs (omega arith)

take-nil : {A : Type 0} → (l : ℕ) → take {A = A} l [] ≡ []
take-nil zero = refl
take-nil (suc l) = refl

-- For an offset and a limit that are not negative, flatten returns the members of all keys in
-- their order from the offset on, at most as many as the limit.
pub flatten-page :
    (sort : List KeyScoreMember → List KeyScoreMember) (m : Response) (n l : ℕ)
    → flatten sort m (pos n) (pos l) ≡ returns (take l (drop n (sort (all_members m))))
unfolding flatten
flatten-page sort m n l =
    let a = sort (all_members m) in
    ground (arith, take_all l (drop n a), drop_all n a, take-nil {A = KeyScoreMember} l)

-- The default of the switch is unreachable.
form_cases :
    (a b c : Bool) (x y z w : Outcome Reply)
    → x ≢ panics
    → y ≢ panics
    → z ≢ panics
    → (if not a && (b || c)
        then x
        else if not b && not c
        then y
        else if a && (b || c)
        then z
        else w)
      ≢ panics
form_cases a b c x y z w p q r = ground arith

returns_not_panics : {A : Type 0} → (a : A) → returns a ≢ panics
returns_not_panics a h = ground arith

range_cases :
    (a b : Result Cursor) (respond : Cursor → Cursor → Outcome Reply)
    → ((start stop : Cursor) → respond start stop ≢ panics)
    → (elim a [
      | err e ↦ returns (responds_error status_bad_request e)
      | ok start ↦ elim b [
        | err e ↦ returns (responds_error status_bad_request e)
        | ok stop ↦ respond start stop
      ]
    ])
      ≢ panics
range_cases (err e) b respond p = returns_not_panics _
range_cases (ok s) (err e) respond p = returns_not_panics _
range_cases (ok s) (ok t) respond p = p s t

module _ (sort : List KeyScoreMember → List KeyScoreMember) (max_float : ℤ)
    (selecter : Selecter) where
  respond_selected_returns :
      (offset limit : ℕ) (coalesce : Bool) (r : Result Response)
      → respond_selected sort max_float selecter coalesce (pos offset) (pos limit) r ≢ panics
  unfolding respond_selected
  respond_selected_returns offset limit coalesce (err e) = λ h. cc
  respond_selected_returns offset limit true (ok m) =
      rw (flatten-page sort m offset limit) (λ h. cc)
  respond_selected_returns offset limit false (ok m) = λ h. cc

  handle_range_returns :
      (keys : List Bytes) (start stop : Bytes × Bool) (limit : ℕ) (coalesce : Bool)
      → handle_range sort max_float selecter keys start stop (pos limit) coalesce ≢ panics
  unfolding handle_range
  handle_range_returns keys start stop limit coalesce =
      range_cases (cursor_of start (record { score = max_float; member = [] }))
        (cursor_of stop (record { score = pos 0; member = [] }))
        (λ a b.
          respond_selected sort max_float selecter coalesce (pos 0) (pos limit)
            (selecter.select_range keys a b (pos limit)))
        (λ a b.
          respond_selected_returns 0 limit coalesce (selecter.select_range keys a b (pos limit)))

  handle_offset_returns :
      (keys : List Bytes) (offset limit : ℕ) (coalesce : Bool)
      → handle_offset sort max_float selecter keys (pos offset) (pos limit) coalesce ≢ panics
  unfolding handle_offset
  handle_offset_returns keys offset limit coalesce =
      respond_selected_returns offset limit coalesce _

  -- A select request whose offset and limit are not negative never makes the handler panic: its
  -- default case is unreachable, and the slices of flatten are in range.
  pub handle_form_returns :
      (values : Values) (keys : List Bytes) (offset limit : ℕ)
      → (parse_int values offset_key (pos 0)).0 ≡ pos offset
      → (parse_int values limit_key (pos 10)).0 ≡ pos limit
      → handle_form sort max_float selecter values keys ≢ panics
  unfolding handle_form
  handle_form_returns values keys offset limit o l =
      let starts = parse_str values start_key [] in
      let stops = parse_str values stop_key [] in
      let coalesce = (parse_bool values coalesce_key false).0 in
      rw (o, l)
        (form_cases (parse_int values offset_key (pos 0)).1 starts.1 stops.1 _ _ _ panics
          (handle_range_returns keys starts stops limit coalesce)
          (handle_offset_returns keys offset limit coalesce) (λ h. returns_not_panics _ h))

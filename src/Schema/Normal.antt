-- ===== src/Schema/Normal.antt =====
-- What the validators of packages/schemas/src/schemas/order.py let through.
use crypto_derivative_algo_t.Prelude.{
  ◌≡◌, refl, ap, subst, ◌∙◌, ◌≢◌, ◌↔◌, inl, inr, true, false, ◌&&◌, Option, none, some, is_some,
  arith, upper, strip, strip_idem, strip-upper, upper_idem, string_eq, Bool, ==_iff, ◌==◌,
  Bool-cases, or_else, String,
}
use crypto_derivative_algo_t.Schema.Enums.{
  MarketType, PositionSide, PositionAction, OrderType, OrderRoute, spot, regular, conditional,
}
use crypto_derivative_algo_t.Schema.Statuses.{is_conditional_type, infer_order_route}
use crypto_derivative_algo_t.Schema.Order.{Terms, Order, OrderRequest}
use crypto_derivative_algo_t.Schema.Validate.{
  normalize_terms, normalize_request, normalize_order, normalize_position_metadata_for_order,
  validate_order_type_required_fields, check_order_route, given_or_fresh, or_default, client_ids,
  prices_differ,
}
use crypto_derivative_algo_t.Failure.{
  Failure, Result, ok, err, value_error, >>=-eq-ok, ok-injective, raise_if,
}

-- The types whose orders carry a limit price.
abbrev pub is_limit_type : OrderType → Bool
is_limit_type OrderType.limit = true
is_limit_type OrderType.stop_limit = true
is_limit_type _ = false

-- The rules that the docstrings of the validators state, as one invariant of the terms.
pub record IsWellFormed (t : Terms) : Type 0 where
  pub normal_symbol : upper (strip t.symbol) ≡ t.symbol
  pub routed : t.order_route ≡ some (infer_order_route t.order_type)
  pub one_closing_flag : (t.reduce_only && t.close_position) ≡ false
  pub priced : is_some t.price ≡ is_limit_type t.order_type
  pub triggered : is_some t.trigger_price ≡ is_conditional_type t.order_type
  pub timed : is_limit_type t.order_type ≡ true → is_some t.time_in_force ≡ true
  pub spot_metadata :
      t.market_type ≡ spot
      → (t.position_side ≡ PositionSide.both) × (t.position_action ≡ PositionAction.not_applicable)
  pub derivative_metadata : t.market_type ≢ spot → t.position_action ≢ PositionAction.not_applicable

symbol-normal : (t : Terms) → upper (strip (upper (strip t.symbol))) ≡ upper (strip t.symbol)
symbol-normal t =
    ap upper (strip-upper (strip t.symbol) ∙ ap upper (strip_idem t.symbol))
    ∙ upper_idem (strip t.symbol)

route_lem :
    (ty : OrderType) (r : Option OrderRoute) (r' : Option OrderRoute)
    → check_order_route ty r ≡ ok r'
    → r' ≡ some (infer_order_route ty)
unfolding check_order_route
route_lem ty r r' h = ground arith

route_error :
    (ty : OrderType) (r : Option OrderRoute) (e : Failure)
    → check_order_route ty r ≡ err e
    → e ≡ value_error
unfolding check_order_route
route_error ty r e h = ground arith

metadata_lem :
    (m : MarketType) (s : PositionSide) (a : PositionAction) (p : PositionSide × PositionAction)
    → normalize_position_metadata_for_order m s a ≡ ok p
    → (m ≡ spot → (p.0 ≡ PositionSide.both) × (p.1 ≡ PositionAction.not_applicable))
      × (m ≢ spot → p.1 ≢ PositionAction.not_applicable)
unfolding normalize_position_metadata_for_order
metadata_lem m s a p h = ground arith

metadata_error :
    (m : MarketType) (s : PositionSide) (a : PositionAction) (e : Failure)
    → normalize_position_metadata_for_order m s a ≡ err e
    → e ≡ value_error
unfolding normalize_position_metadata_for_order
metadata_error m s a e h = ground arith

module _ (t : Terms) where
  abbrev checked : Result (Unit {0})
  checked =
      validate_order_type_required_fields t.order_type t.price t.trigger_price t.time_in_force
        t.reduce_only t.close_position

  fields_lem :
      (u : Unit {0})
      → checked ≡ ok u
      → ((t.reduce_only && t.close_position) ≡ false)
        × (is_some t.price ≡ is_limit_type t.order_type)
        × (is_some t.trigger_price ≡ is_conditional_type t.order_type)
        × (is_limit_type t.order_type ≡ true → is_some t.time_in_force ≡ true)
  unfolding validate_order_type_required_fields
  fields_lem u h = ground arith

  fields_error : (e : Failure) → checked ≡ err e → e ≡ value_error
  unfolding validate_order_type_required_fields
  fields_error e h = ground arith

normalize_terms-IsWellFormed : (t t' : Terms) → normalize_terms t ≡ ok t' → IsWellFormed t'
unfolding normalize_terms
normalize_terms-IsWellFormed t t' h =
    grind (arith, symbol-normal, route_lem, metadata_lem, fields_lem)

normalize_terms_fixes : (t : Terms) → IsWellFormed t → normalize_terms t ≡ ok t
unfolding normalize_terms check_order_route normalize_position_metadata_for_order
    validate_order_type_required_fields
normalize_terms_fixes t v = ground arith

normalize_terms-error : (t : Terms) (e : Failure) → normalize_terms t ≡ err e → e ≡ value_error
unfolding normalize_terms
normalize_terms-error t e h = grind (arith, route_error, metadata_error, fields_error)

-- The terms that the shared checks leave unchanged are exactly the well-formed ones, so that a
-- second validation of accepted terms accepts them and changes nothing.
pub normalize_terms_iff : (t : Terms) → (normalize_terms t ≡ ok t) ↔ IsWellFormed t
normalize_terms_iff t = (normalize_terms-IsWellFormed t t, normalize_terms_fixes t)

abbrev pub IsGiven : Option String → Type 0
IsGiven none = ⊥
IsGiven (some s) = s ≢ ""

-- An order as the validator leaves it: its terms are well formed, it has an id, and the client id
-- of its route.
pub record IsNormal (o : Order) : Type 0 where
  pub terms_well_formed : IsWellFormed o.terms
  pub identified : o.order_id ≢ ""
  pub regular_id : o.order_route ≡ some regular → IsGiven o.client_order_id
  pub conditional_id : o.order_route ≡ some conditional → IsGiven o.client_conditional_id

given_or_fresh-ne : (given fresh : String) → fresh ≢ "" → given_or_fresh given fresh ≢ ""
unfolding given_or_fresh
given_or_fresh-ne given fresh h = ground (arith, ==_iff given "")

or_default-IsGiven : (o : Option String) (d : String) → d ≢ "" → IsGiven (or_default o d)
unfolding or_default
or_default-IsGiven none d h = h
or_default-IsGiven (some s) d h = elim (Bool-cases (s == "")) [
  | inl e ↦ rw e h
  | inr e ↦ rw e (λ p. ground (arith, ==_iff s ""))
]

client_ids-IsNormal :
    (r : Option OrderRoute) (o : Order)
    → o.order_route ≡ r
    → IsWellFormed o.terms
    → o.order_id ≢ ""
    → IsNormal (client_ids r o)
unfolding client_ids
client_ids-IsNormal none o e w h = record {
  terms_well_formed = w;
  identified = h;
  regular_id = λ p. cc;
  conditional_id = λ p. cc;
}
client_ids-IsNormal (some regular) o e w h = record {
  terms_well_formed = w;
  identified = h;
  regular_id = λ p. or_default-IsGiven o.client_order_id o.order_id h;
  conditional_id = λ p. cc;
}
client_ids-IsNormal (some conditional) o e w h = record {
  terms_well_formed = w;
  identified = h;
  regular_id = λ p. cc;
  conditional_id = λ p. or_default-IsGiven o.client_conditional_id o.order_id h;
}

-- An order that the validator accepts, given a fresh id that is not empty, is normal.
pub normalize_order-IsNormal :
    (fresh : String) (o o' : Order) → fresh ≢ "" → normalize_order fresh o ≡ ok o' → IsNormal o'
unfolding normalize_order
normalize_order-IsNormal fresh o o' f h =
    let (t, e, made) = >>=-eq-ok (normalize_terms o.terms) _ h in
    subst IsNormal (ok-injective made) (
      client_ids-IsNormal t.order_route
        (record o { order_id = given_or_fresh o.order_id fresh; terms = t }) refl
        (normalize_terms-IsWellFormed o.terms t e) (given_or_fresh-ne o.order_id fresh f))

or_default_fixes : (o : Option String) (d : String) → IsGiven o → or_default o d ≡ o
unfolding or_default
or_default_fixes none d h = absurd h
or_default_fixes (some s) d h = ground (arith, ==_iff s "")

given_or_fresh_fixes : (given fresh : String) → given ≢ "" → given_or_fresh given fresh ≡ given
unfolding given_or_fresh
given_or_fresh_fixes given fresh h = ground (arith, ==_iff given "")

client_ids_fixes :
    (r : Option OrderRoute) (o : Order) → o.order_route ≡ r → IsNormal o → client_ids r o ≡ o
unfolding client_ids
client_ids_fixes none o e n = refl
client_ids_fixes (some regular) o e n =
    rw (or_default_fixes o.client_order_id o.order_id (n.regular_id e))
client_ids_fixes (some conditional) o e n =
    rw (or_default_fixes o.client_conditional_id o.order_id (n.conditional_id e))

-- The validator accepts every normal order, whatever the fresh id, and returns it unchanged: an
-- order read back from the storage passes.
pub normalize_order_fixes :
    (fresh : String) (o : Order) → IsNormal o → normalize_order fresh o ≡ ok o
unfolding normalize_order
normalize_order_fixes fresh o n = rw (normalize_terms_fixes o.terms n.terms_well_formed) (
    rw (given_or_fresh_fixes o.order_id fresh n.identified)
      (ap (λ p. ok p) (client_ids_fixes o.order_route o refl n)))

trigger_price-normalize_terms :
    (t t' : Terms) → normalize_terms t ≡ ok t' → t'.trigger_price ≡ t.trigger_price
unfolding normalize_terms
trigger_price-normalize_terms t t' h = ground arith

raise_if-ok : (b : Bool) (e : Failure) (u : Unit {0}) → raise_if b e ≡ ok u → b ≡ false
raise_if-ok b e u h = ground arith

-- What an accepted request has become.
pub record IsAccepted (r r' : OrderRequest) : Type 0 where
  pub terms_well_formed : IsWellFormed r'.terms
  pub trigger : r'.trigger_price ≡ or_else r.trigger_price r.stop_price
  pub prices_agree : prices_differ r.trigger_price r.stop_price ≡ false
  pub leverage_kept : r'.leverage ≡ r.leverage

-- An accepted request has well-formed terms. Its trigger price is the given one, or else the
-- deprecated stop price, and where both were given their values are equal. The leverage is kept.
pub normalize_request-IsAccepted :
    (r r' : OrderRequest) → normalize_request r ≡ ok r' → IsAccepted r r'
unfolding normalize_request
normalize_request-IsAccepted r r' h =
    let (u, agree, rest) =
      >>=-eq-ok (raise_if (prices_differ r.trigger_price r.stop_price) value_error) _ h in
    let (t, e, made) = >>=-eq-ok (normalize_terms _) _ rest in
    subst (IsAccepted r) (ok-injective made) (record {
      terms_well_formed = normalize_terms-IsWellFormed _ t e;
      trigger = trigger_price-normalize_terms _ t e;
      prices_agree = raise_if-ok _ value_error u agree;
      leverage_kept = refl;
    })

-- ===== src/Binance/Requests.antt =====
-- What the requests to Binance say of a normal order.
use crypto_derivative_algo_t.Prelude.{
  text_or, String, ◌≡◌, ◌≢◌, refl, ap, sym, subst, ◌∙◌, Bool-cases, inl, inr, Bool, true, false,
  not, ◌&&◌, Option, none, some, List, [], ◌∷◌, ◌++◌, ◌==◌, string_eq, ==_iff, arith, is_some,
  if◌then◌else◌,
}
use crypto_derivative_algo_t.Schema.Enums.{
  OrderSide, OrderType, market, limit, stop_market, stop_limit, TimeInForce, PositionSide,
  position_side_eq, order_type_eq, order_route_eq, regular, conditional,
}
use crypto_derivative_algo_t.Schema.Order.{Order}
use crypto_derivative_algo_t.Schema.Statuses.{is_conditional_type}
use crypto_derivative_algo_t.Schema.Normal.{IsNormal, IsGiven, is_limit_type}
use crypto_derivative_algo_t.Failure.{Result, ok, err}
use crypto_derivative_algo_t.Binance.Router.{
  Param, when, side_value, position_side_value, time_in_force_param, map_binance_order_type,
  required, limit_params, map_regular_order_params, map_conditional_order_params,
  conditional_params, conditional_reduce_only, regular_request, conditional_request,
}

-- The value under a name.
unfoldable pub find_param : String → List Param → Option String
find_param k [] = none
find_param k (p ∷ rest) = if p.name == k then some p.value else find_param k rest

-- What Binance understands by the texts of a request.
abbrev pub read_type : Option String → Option OrderType
read_type none = none
read_type (some s) =
    if s == "MARKET"
    then some market
    else if s == "LIMIT"
    then some limit
    else if s == "STOP_MARKET"
    then some stop_market
    else if s == "STOP"
    then some stop_limit
    else none

abbrev pub read_side : Option String → Option OrderSide
read_side none = none
read_side (some s) =
    if s == "BUY" then some OrderSide.buy else if s == "SELL" then some OrderSide.sell else none

abbrev pub read_position_side : Option String → Option PositionSide
read_position_side none = none
read_position_side (some s) =
    if s == "BOTH"
    then some PositionSide.both
    else if s == "LONG"
    then some PositionSide.long
    else if s == "SHORT"
    then some PositionSide.short
    else none

abbrev pub read_time_in_force : Option String → Option TimeInForce
read_time_in_force none = none
read_time_in_force (some s) =
    if s == "GTC"
    then some TimeInForce.gtc
    else if s == "IOC"
    then some TimeInForce.ioc
    else if s == "FOK"
    then some TimeInForce.fok
    else if s == "GTX"
    then some TimeInForce.gtx
    else none

abbrev pub flag : Bool → Option String
flag true = some "true"
flag false = none

-- The parameters of POST /fapi/v1/order that an order calls for.
pub record IsRegularRequest (o : Order) (ps : List Param) : Type 0 where
  pub symbol_is : find_param "symbol" ps ≡ some o.symbol
  pub side_is : read_side (find_param "side" ps) ≡ some o.side
  pub position_side_is : read_position_side (find_param "positionSide" ps) ≡ some o.position_side
  pub type_is : read_type (find_param "type" ps) ≡ some o.order_type
  pub quantity_is : find_param "quantity" ps ≡ some o.quantity
  pub client_id_is : find_param "newClientOrderId" ps ≡ o.client_order_id
  pub price_is : find_param "price" ps ≡ o.price
  pub time_in_force_is :
      read_time_in_force (find_param "timeInForce" ps)
      ≡ (if is_limit_type o.order_type then o.time_in_force else none)
  pub time_in_force_given :
      is_some (find_param "timeInForce" ps)
      ≡ (is_limit_type o.order_type && is_some o.time_in_force)
  pub reduce_only_is :
      find_param "reduceOnly" ps ≡ flag (o.reduce_only && o.position_side == PositionSide.both)
  pub never_closes : find_param "closePosition" ps ≡ none

side_read : (s : OrderSide) → read_side (some (side_value s)) ≡ some s
side_read OrderSide.buy = refl
side_read OrderSide.sell = refl

position_side_read : (s : PositionSide) → read_position_side (some (position_side_value s)) ≡ some s
position_side_read PositionSide.both = refl
position_side_read PositionSide.long = refl
position_side_read PositionSide.short = refl

type_read : (t : OrderType) → read_type (some (map_binance_order_type t)) ≡ some t
type_read market = refl
type_read limit = refl
type_read stop_market = refl
type_read stop_limit = refl

-- The entry for the time in force, and what follows it.
module _ (b : Bool) where
  abbrev reduce_only_entry : List Param
  reduce_only_entry = when b (record { name = "reduceOnly"; value = "true" })

  time_in_force_read :
      (t : Option TimeInForce)
      → read_time_in_force (find_param "timeInForce" (time_in_force_param t ++ reduce_only_entry))
        ≡ t
  unfolding find_param
  time_in_force_read none = elim (Bool-cases b) [ inl c ↦ rw c refl | inr c ↦ rw c refl ]
  time_in_force_read (some TimeInForce.gtc) = refl
  time_in_force_read (some TimeInForce.ioc) = refl
  time_in_force_read (some TimeInForce.fok) = refl
  time_in_force_read (some TimeInForce.gtx) = refl

  time_in_force_sent :
      (t : Option TimeInForce)
      → is_some (find_param "timeInForce" (time_in_force_param t ++ reduce_only_entry)) ≡ is_some t
  unfolding find_param
  time_in_force_sent none = elim (Bool-cases b) [ inl c ↦ rw c refl | inr c ↦ rw c refl ]
  time_in_force_sent (some t) = refl

  no_time_in_force : find_param "timeInForce" reduce_only_entry ≡ none
  unfolding find_param
  no_time_in_force = elim (Bool-cases b) [ inl c ↦ rw c refl | inr c ↦ rw c refl ]

type_of_route :
    (o : Order)
    → IsNormal o
    → o.order_route ≡ some regular
    → is_conditional_type o.order_type ≡ false
type_of_route o n r = ground (arith, n.terms_well_formed.routed, r)

-- A request that satisfies `P`, and no error.
abbrev pub Gives : (List Param → Type 0) → Result (List Param) → Type 0
Gives P (ok ps) = P ps
Gives P (err e) = ⊥

client_id : (o : Option String) (d : String) → IsGiven o → some (text_or o d) ≡ o
client_id none d h = absurd h
client_id (some s) d h = ground (arith, ==_iff s "")

price_given :
    (o : Option String)
    → is_some o ≡ true
    → o ≢ some ""
    → (s : String) × (o ≡ some s) × (required o ≡ ok s)
unfolding required
price_given none h p = cc
price_given (some s) h p = (s, refl, ground (arith, ==_iff s ""))

-- A normal regular order whose price is no empty text is accepted, and the request carries its
-- symbol, quantity and client id, its side, position side and type in the texts that Binance reads
-- as them, the price and the time in force exactly for a limit order, `reduceOnly` only outside of
-- hedge mode, and never `closePosition`.
pub regular_request_accepts :
    (o : Order)
    → IsNormal o
    → o.order_route ≡ some regular
    → o.price ≢ some ""
    → Gives (IsRegularRequest o) (regular_request o)
unfolding regular_request map_regular_order_params limit_params required find_param
regular_request_accepts o n r p = by_type o.order_type refl
  where
    by_type : (ty : OrderType) → o.order_type ≡ ty → Gives (IsRegularRequest o) (regular_request o)
    by_type market e =
        rw (r, e)
          (record {
            symbol_is = refl;
            side_is = side_read o.side;
            position_side_is = position_side_read o.position_side;
            type_is = refl;
            quantity_is = refl;
            client_id_is = client_id o.client_order_id o.order_id (n.regular_id r);
            price_is = ground (arith, e, n.terms_well_formed.priced);
            time_in_force_is =
                rw (no_time_in_force (o.reduce_only && o.position_side == PositionSide.both)) refl;
            time_in_force_given =
                rw (no_time_in_force (o.reduce_only && o.position_side == PositionSide.both)) refl;
            reduce_only_is = ground arith;
            never_closes = ground arith;
          })
    by_type limit e =
        let (s, g, q) = price_given o.price (ground (arith, e, n.terms_well_formed.priced)) p in
        rw (r, e, q)
          (record {
            symbol_is = refl;
            side_is = side_read o.side;
            position_side_is = position_side_read o.position_side;
            type_is = refl;
            quantity_is = refl;
            client_id_is = client_id o.client_order_id o.order_id (n.regular_id r);
            price_is = ground (arith, g);
            time_in_force_is =
                time_in_force_read (o.reduce_only && o.position_side == PositionSide.both)
                  o.time_in_force;
            time_in_force_given =
                time_in_force_sent (o.reduce_only && o.position_side == PositionSide.both)
                  o.time_in_force;
            reduce_only_is = ground arith;
            never_closes = ground arith;
          })
    by_type stop_market e = ground (arith, type_of_route o n r, e)
    by_type stop_limit e = ground (arith, type_of_route o n r, e)

-- The parameters of POST /fapi/v1/algoOrder that an order calls for.
pub record IsConditionalRequest (o : Order) (ps : List Param) : Type 0 where
  pub conditional_is : find_param "algoType" ps ≡ some "CONDITIONAL"
  pub symbol_is : find_param "symbol" ps ≡ some o.symbol
  pub side_is : read_side (find_param "side" ps) ≡ some o.side
  pub position_side_is : read_position_side (find_param "positionSide" ps) ≡ some o.position_side
  pub type_is : read_type (find_param "type" ps) ≡ some o.order_type
  pub trigger_is : find_param "triggerPrice" ps ≡ o.trigger_price
  pub client_id_is : find_param "clientAlgoId" ps ≡ o.client_conditional_id
  pub price_is : find_param "price" ps ≡ o.price
  pub time_in_force_is :
      read_time_in_force (find_param "timeInForce" ps)
      ≡ (if is_limit_type o.order_type then o.time_in_force else none)
  pub time_in_force_given :
      is_some (find_param "timeInForce" ps)
      ≡ (is_limit_type o.order_type && is_some o.time_in_force)
  pub closes : find_param "closePosition" ps ≡ flag o.close_position
  pub quantity_is : find_param "quantity" ps ≡ (if o.close_position then none else some o.quantity)
  pub reduce_only_is :
      find_param "reduceOnly" ps ≡ flag (o.reduce_only && o.position_side == PositionSide.both)

-- What lies beyond the entries that every conditional request has.
module _ (o : Order) (t : String) (prices : List Param) where
  abbrev rest : List Param
  rest = prices ++ conditional_reduce_only o

  conditional_params_lem :
      (find_param "algoType" (conditional_params o t prices) ≡ some "CONDITIONAL")
      × (find_param "symbol" (conditional_params o t prices) ≡ some o.symbol)
      × (find_param "side" (conditional_params o t prices) ≡ some (side_value o.side))
      × (find_param "positionSide" (conditional_params o t prices)
          ≡ some (position_side_value o.position_side))
      × (find_param "timeInForce" (conditional_params o t prices) ≡ find_param "timeInForce" rest)
      × (find_param "type" (conditional_params o t prices)
          ≡ some (map_binance_order_type o.order_type))
      × (find_param "triggerPrice" (conditional_params o t prices) ≡ some t)
      × (find_param "clientAlgoId" (conditional_params o t prices)
          ≡ some (text_or o.client_conditional_id o.order_id))
      × (find_param "price" (conditional_params o t prices) ≡ find_param "price" rest)
      × (find_param "closePosition" (conditional_params o t prices)
          ≡ (if o.close_position then some "true" else find_param "closePosition" rest))
      × (find_param "quantity" (conditional_params o t prices)
          ≡ (if o.close_position then find_param "quantity" rest else some o.quantity))
      × (find_param "reduceOnly" (conditional_params o t prices) ≡ find_param "reduceOnly" rest)
  unfolding conditional_params find_param
  conditional_params_lem = elim (Bool-cases o.close_position) [
    | inl c ↦ rw c (refl, refl, refl, refl, refl, refl, refl, refl, refl, refl, refl, refl)
    | inr c ↦ rw c (refl, refl, refl, refl, refl, refl, refl, refl, refl, refl, refl, refl)
  ]

  fields-IsConditionalRequest :
      o.trigger_price ≡ some t
      → IsNormal o
      → o.order_route ≡ some conditional
      → read_time_in_force (find_param "timeInForce" rest)
        ≡ (if is_limit_type o.order_type then o.time_in_force else none)
      → is_some (find_param "timeInForce" rest)
        ≡ (is_limit_type o.order_type && is_some o.time_in_force)
      → find_param "price" rest ≡ o.price
      → find_param "closePosition" rest ≡ none
      → find_param "quantity" rest ≡ none
      → find_param "reduceOnly" rest
        ≡ flag (not o.close_position && o.reduce_only && o.position_side == PositionSide.both)
      → IsConditionalRequest o (conditional_params o t prices)
  fields-IsConditionalRequest g n r y z p c q f =
      let l = conditional_params_lem in
      let i = client_id o.client_conditional_id o.order_id (n.conditional_id r) in
      record {
        conditional_is = l.0;
        symbol_is = l.1;
        side_is = ap read_side l.2 ∙ side_read o.side;
        position_side_is = ap read_position_side l.3 ∙ position_side_read o.position_side;
        type_is = ap read_type l.5 ∙ type_read o.order_type;
        time_in_force_is = ap read_time_in_force l.4 ∙ y;
        time_in_force_given = ap is_some l.4 ∙ z;
        trigger_is = l.6 ∙ sym g;
        client_id_is = l.7 ∙ i;
        price_is = l.8 ∙ p;
        closes = l.9 ∙ ground (arith, c);
        quantity_is = l.10 ∙ ground (arith, q);
        reduce_only_is = l.11 ∙ f ∙ ground (arith, n.terms_well_formed.one_closing_flag);
      }

-- A normal conditional order whose prices are no empty texts is accepted, and the request is a
-- CONDITIONAL one that carries its symbol, trigger and client id, its side, position side and type in
-- the texts that Binance reads as them, the price and the time in force exactly for a stop limit,
-- the quantity exactly if the order does not close the position, `closePosition` exactly if it
-- does, and `reduceOnly` only outside of hedge mode.
pub conditional_request_accepts :
    (o : Order)
    → IsNormal o
    → o.order_route ≡ some conditional
    → o.price ≢ some ""
    → o.trigger_price ≢ some ""
    → Gives (IsConditionalRequest o) (conditional_request o)
unfolding conditional_request map_conditional_order_params limit_params find_param
conditional_request_accepts o n r p q = by_type o.order_type refl
  where
    is_conditional : is_conditional_type o.order_type ≡ true
    is_conditional = ground (arith, n.terms_well_formed.routed, r)

    by_type :
        (ty : OrderType)
        → o.order_type ≡ ty
        → Gives (IsConditionalRequest o) (conditional_request o)
    by_type market e = ground (arith, is_conditional, e)
    by_type limit e = ground (arith, is_conditional, e)
    by_type stop_market e =
        let (t, g, u) =
          price_given o.trigger_price
            (ground (arith, is_conditional, n.terms_well_formed.triggered)) q in
        let made : conditional_request o ≡ ok (conditional_params o t []) = rw (r, e, u) refl in
        subst (Gives (IsConditionalRequest o)) (sym made) (
          fields-IsConditionalRequest o t [] g n r
            (rw
              (
                no_time_in_force
                    (not o.close_position && o.reduce_only && o.position_side == PositionSide.both),
                e,
              )
              refl)
            (rw
              (
                no_time_in_force
                    (not o.close_position && o.reduce_only && o.position_side == PositionSide.both),
                e,
              )
              refl)
            (ground (arith, e, n.terms_well_formed.priced)) (ground arith) (ground arith)
            (ground arith))
    by_type stop_limit e =
        let (t, g, u) =
          price_given o.trigger_price
            (ground (arith, is_conditional, n.terms_well_formed.triggered)) q in
        let (s, h, v) = price_given o.price (ground (arith, e, n.terms_well_formed.priced)) p in
        let prices : List Param =
          record { name = "price"; value = s } ∷ time_in_force_param o.time_in_force in
        let made : conditional_request o ≡ ok (conditional_params o t prices) =
          rw (r, e, u, v) refl in
        subst (Gives (IsConditionalRequest o)) (sym made) (
          fields-IsConditionalRequest o t prices g n r
            (time_in_force_read
                (not o.close_position && o.reduce_only && o.position_side == PositionSide.both)
                o.time_in_force
              ∙ rw e refl)
            (time_in_force_sent
                (not o.close_position && o.reduce_only && o.position_side == PositionSide.both)
                o.time_in_force
              ∙ rw e refl)
            (ground (arith, h)) (ground arith) (ground arith) (ground arith))

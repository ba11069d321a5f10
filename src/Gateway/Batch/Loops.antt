-- ===== src/Gateway/Batch/Loops.antt =====
-- The loops of a batch: the leverage updates, and the chunks.
use crypto_derivative_algo_t.Prelude.{
  ℕ, zero, suc, ◌≤◌, ◌≡◌, refl, ap, ◌∙◌, Bool, true, false, not, ◌&&◌, ◌||◌, Option, none, some,
  or_else, is_some, List, [], ◌∷◌, ◌==◌, string_eq, ==_iff, arith, if◌then◌else◌, length, upper,
  drop, count_if, eqb,
}
use crypto_derivative_algo_t.Schema.Enums.{Exchange, MarketType, exchange_eq, market_type_eq}
use crypto_derivative_algo_t.Schema.Order.{Origin, Order, OrderRequest}
use crypto_derivative_algo_t.Failure.{Result, err, attribute_error}
use crypto_derivative_algo_t.Store.Action.{World, Action, raise, ◌>>=◌}
use crypto_derivative_algo_t.Gateway.Client.{ExchangeClient}
use crypto_derivative_algo_t.Gateway.Batch.{submit_chunks, submit_batch, submit_batch_orders}
use crypto_derivative_algo_t.Gateway.Leverage.{
  LeverageInfo, same_market, put_info, put_request, dedupe_from, dedupe_symbol_leverage_updates,
  apply_updates,
}

-- The leverage that a list of updates has for a market and a symbol.
unfoldable pub find_leverage : LeverageInfo → List LeverageInfo → Option ℕ
find_leverage i [] = none
find_leverage i (j ∷ rest) = if same_market j i then some j.leverage else find_leverage i rest

unfoldable pub is_request_for : LeverageInfo → OrderRequest → Bool
is_request_for i r =
    r.exchange == i.exchange && r.market_type == i.market_type && upper r.symbol == upper i.symbol

-- The last leverage that the requests ask for there.
unfoldable pub last_leverage : LeverageInfo → List OrderRequest → Option ℕ
last_leverage i [] = none
last_leverage i (r ∷ rest) =
    or_else (last_leverage i rest) (if is_request_for i r then r.leverage else none)

same_market_trans :
    (a b c : LeverageInfo) → same_market a b ≡ true → same_market a c ≡ same_market b c
unfolding same_market
same_market_trans a b c h = ground (
  arith,
  ==_iff a.exchange b.exchange,
  ==_iff a.market_type b.market_type,
  ==_iff (upper a.symbol) (upper b.symbol),
)

same_market_meet :
    (a b c : LeverageInfo)
    → same_market a c ≡ true
    → same_market b c ≡ true
    → same_market a b ≡ true
unfolding same_market
same_market_meet a b c h k = ground (
  arith,
  ==_iff a.exchange b.exchange,
  ==_iff a.exchange c.exchange,
  ==_iff b.exchange c.exchange,
  ==_iff a.market_type b.market_type,
  ==_iff a.market_type c.market_type,
  ==_iff b.market_type c.market_type,
  ==_iff (upper a.symbol) (upper b.symbol),
  ==_iff (upper a.symbol) (upper c.symbol),
  ==_iff (upper b.symbol) (upper c.symbol),
)

find_leverage-put_info :
    (i x : LeverageInfo) (infos : List LeverageInfo)
    → find_leverage i (put_info x infos)
      ≡ (if same_market x i then some x.leverage else find_leverage i infos)
unfolding find_leverage put_info
find_leverage-put_info i x [] = refl
find_leverage-put_info i x (j ∷ rest) =
    ground (arith, same_market_trans j x i, same_market_meet j x i, find_leverage-put_info i x rest)

find_leverage-put_request :
    (i : LeverageInfo) (r : OrderRequest) (l : Option ℕ) (infos : List LeverageInfo)
    → find_leverage i (put_request r l infos)
      ≡ or_else (if is_request_for i r then l else none) (find_leverage i infos)
unfolding is_request_for same_market
find_leverage-put_request i r none infos = ground arith
find_leverage-put_request i r (some l) infos = find_leverage-put_info i _ infos ∙ ground arith

or_else_assoc : (a b c : Option ℕ) → or_else a (or_else b c) ≡ or_else (or_else a b) c
or_else_assoc a b c = ground arith

dedupe_from-last :
    (i : LeverageInfo) (requests : List OrderRequest) (infos : List LeverageInfo)
    → find_leverage i (dedupe_from infos requests)
      ≡ or_else (last_leverage i requests) (find_leverage i infos)
unfolding dedupe_from last_leverage
dedupe_from-last i [] infos = refl
dedupe_from-last i (r ∷ rest) infos =
    dedupe_from-last i rest (put_request r r.leverage infos)
    ∙ ap (or_else (last_leverage i rest)) (find_leverage-put_request i r r.leverage infos)
    ∙ or_else_assoc (last_leverage i rest) _ (find_leverage i infos)

count-put_info :
    (i x : LeverageInfo) (infos : List LeverageInfo)
    → count_if (λ j. same_market j i) (put_info x infos) ≡ (
        if same_market x i && eqb (count_if (λ j. same_market j i) infos) 0
        then 1
        else count_if (λ j. same_market j i) infos)
unfolding put_info
count-put_info i x [] = ground arith
count-put_info i x (j ∷ rest) =
    ground (arith, same_market_trans j x i, same_market_meet j x i, count-put_info i x rest)

count-put_request :
    (i : LeverageInfo) (r : OrderRequest) (l : Option ℕ) (infos : List LeverageInfo)
    → count_if (λ j. same_market j i) infos ≤ 1
    → count_if (λ j. same_market j i) (put_request r l infos) ≤ 1
count-put_request i r none infos h = h
count-put_request i r (some l) infos h = ground (
  arith,
  count-put_info i
      (record {
        exchange = r.exchange;
        market_type = r.market_type;
        symbol = r.symbol;
        leverage = l;
      })
      infos,
)

count-dedupe_from :
    (i : LeverageInfo) (requests : List OrderRequest) (infos : List LeverageInfo)
    → count_if (λ j. same_market j i) infos ≤ 1
    → count_if (λ j. same_market j i) (dedupe_from infos requests) ≤ 1
unfolding dedupe_from
count-dedupe_from i [] infos h = h
count-dedupe_from i (r ∷ rest) infos h =
    count-dedupe_from i rest (put_request r r.leverage infos)
      (count-put_request i r r.leverage infos h)

-- The list of updates that is made of a batch has at most one for each exchange, market type and
-- symbol, whatever the symbol's case, and that one has the last leverage that a request asks for
-- there; there is none if no request asks.
pub find_leverage-dedupe :
    (i : LeverageInfo) (requests : List OrderRequest)
    → (count_if (λ j. same_market j i) (dedupe_symbol_leverage_updates requests) ≤ 1)
      × (find_leverage i (dedupe_symbol_leverage_updates requests) ≡ last_leverage i requests)
unfolding dedupe_symbol_leverage_updates find_leverage
find_leverage-dedupe i requests =
    (count-dedupe_from i requests [] (omega arith), dedupe_from-last i requests [] ∙ ground arith)

-- Whether a request of the batch has a leverage.
unfoldable pub asks_leverage : List OrderRequest → Bool
asks_leverage [] = false
asks_leverage (r ∷ rest) = is_some r.leverage || asks_leverage rest

abbrev is_empty : List LeverageInfo → Bool
is_empty [] = true
is_empty (i ∷ rest) = false

is_empty-put_info :
    (x : LeverageInfo) (infos : List LeverageInfo) → is_empty (put_info x infos) ≡ false
unfolding put_info
is_empty-put_info x [] = refl
is_empty-put_info x (j ∷ rest) = ground arith

is_empty-put_request :
    (r : OrderRequest) (l : Option ℕ) (infos : List LeverageInfo)
    → is_empty (put_request r l infos) ≡ (not (is_some l) && is_empty infos)
is_empty-put_request r none infos = refl
is_empty-put_request r (some l) infos = is_empty-put_info _ infos

is_empty-dedupe_from :
    (requests : List OrderRequest) (infos : List LeverageInfo)
    → is_empty (dedupe_from infos requests) ≡ (not (asks_leverage requests) && is_empty infos)
unfolding dedupe_from asks_leverage
is_empty-dedupe_from [] infos = refl
is_empty-dedupe_from (r ∷ rest) infos =
    is_empty-dedupe_from rest (put_request r r.leverage infos)
    ∙ ground (arith, is_empty-put_request r r.leverage infos)

module _ (client_for_market : Exchange → MarketType → Result ExchangeClient) where
  refused :
      {A : Type 0} (infos : List LeverageInfo) (f : Unit {0} → Action A) (w : World)
      → is_empty infos ≡ false
      → (apply_updates infos >>= f) w ≡ (err attribute_error, w)
  unfolding ◌>>=◌ raise
  refused [] f w h = cc
  refused (i ∷ rest) f w h = refl

  -- A batch in which any request asks for a leverage is not submitted: the call raises
  -- AttributeError before it has changed anything.
  pub leverage_breaks_batch :
      (e : Exchange) (m : MarketType) (origin : Origin) (requests : List OrderRequest) (w : World)
      → asks_leverage requests ≡ true
      → submit_batch_orders client_for_market e m origin requests w ≡ (err attribute_error, w)
  unfolding submit_batch_orders submit_batch dedupe_symbol_leverage_updates asks_leverage
  leverage_breaks_batch e m origin [] w h = cc
  leverage_breaks_batch e m origin (r ∷ rest) w h =
      refused (dedupe_from [] (r ∷ rest)) _ w
        (ground (arith, is_empty-dedupe_from (r ∷ rest) [], h))

-- One order fewer, at least, is left after a chunk.
length-drop :
    (n : ℕ) (o : Order) (rest : List Order) → length (drop (suc n) (o ∷ rest)) ≤ length rest
length-drop zero o rest = omega arith
length-drop (suc n) o [] = omega arith
length-drop (suc n) o (p ∷ rest) = omega (arith, length-drop n p rest)

-- As much fuel as there are orders is enough for the chunks: more of it changes nothing.
pub submit_chunks_enough :
    (fuel more size : ℕ) (client : ExchangeClient) (orders : List Order)
    → 1 ≤ size
    → length orders ≤ fuel
    → length orders ≤ more
    → submit_chunks fuel client size orders ≡ submit_chunks more client size orders
unfolding submit_chunks
submit_chunks_enough fuel more size client [] p q r = refl
submit_chunks_enough zero more size client (o ∷ rest) p q r = absurd (omega arith)
submit_chunks_enough (suc fuel) zero size client (o ∷ rest) p q r = absurd (omega arith)
submit_chunks_enough (suc fuel) (suc more) zero client (o ∷ rest) p q r = absurd (omega arith)
submit_chunks_enough (suc fuel) (suc more) (suc size) client (o ∷ rest) p q r =
    rw
      (submit_chunks_enough fuel more (suc size) client (drop (suc size) (o ∷ rest)) p
        (omega (arith, length-drop size o rest)) (omega (arith, length-drop size o rest)))
      refl

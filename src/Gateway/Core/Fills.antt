-- ===== src/Gateway/Core/Fills.antt =====
-- Execution events of one order that arrive in the wrong order.
use crypto_derivative_algo_t.Prelude.{
  ℕ, String, ◌≡◌, refl, sym, ap, subst, ◌∙◌, inl, inr, true, false, ◌++◌, none, Option, some, List,
  [], string_eq, arith, same_refl,
}
use crypto_derivative_algo_t.Schema.Enums.{OrderStatus, order_status_eq}
use crypto_derivative_algo_t.Schema.Order.{Order, Progress}
use crypto_derivative_algo_t.Failure.{
  Failure, Result, ok, err, stale_order_version, value_error, runtime_error, type_error,
  attribute_error, postgres_error, redis_error, invalid_transition, invalid_conditional_transition,
  exchange_api_error, cancel_order_skipped,
}
use crypto_derivative_algo_t.StateMachine.OrderStatus.{can_transition, assert_can_transition}
use crypto_derivative_algo_t.Store.Tables.{Tables, OrderRow, find_order, rewritten}
use crypto_derivative_algo_t.Store.Action.{
  World, pure, raise, lift, ◌>>=◌, ◌>>◌, try_except, epoch_ms, handle, continue, ignore_errors,
}
use crypto_derivative_algo_t.Service.Repository.{save}
use crypto_derivative_algo_t.Service.OrderState.{
  transition_rows, transition_order, refresh_order_projection,
}
use crypto_derivative_algo_t.Service.Agreement.{ignore_errors_lem}
use crypto_derivative_algo_t.Service.Transitions.{TransitionPost, transition_rows_post}
use crypto_derivative_algo_t.Gateway.StatusChange.{
  StatusPost, Overtaken, set_status_post, transition_rows-stale,
}
use crypto_derivative_algo_t.Gateway.Conflict.{row-Written}
use crypto_derivative_algo_t.Gateway.Transition.{
  Update, exchange_order_id, filled_quantity, avg_fill_price, set_field, set_fields,
  candidate_progress, stamp_filled, on_stale, apply_status, is_protected, set_status,
}
use crypto_derivative_algo_t.Gateway.Core.{OrderUpdateEvent, given, apply_target, update_fields}

-- The next progress that the fields of a partial fill make.
taken :
    (now : ℕ) (old : Progress) (q : String) (id price : Option String)
    → (p : Progress) × (candidate_progress now OrderStatus.partially_filled
          (given (λ x. exchange_order_id (some x)) id
            ++ given filled_quantity (some q)
            ++ given avg_fill_price price
            ++ [])
          old
        ≡ ok p)
      × (p.filled_quantity ≡ q)
unfolding candidate_progress set_fields set_field stamp_filled
taken now old q none none = (_, refl, refl)
taken now old q none (some x) = (_, refl, refl)
taken now old q (some i) none = (_, refl, refl)
taken now old q (some i) (some x) = (_, refl, refl)

on_stale-stale :
    (o x : Order) (e : Failure) (w : World)
    → (on_stale o e w).0 ≡ ok x
    → (a b : ℕ) × (s : OrderStatus) × (e ≡ stale_order_version a b s)
unfolding on_stale raise
on_stale-stale o x (stale_order_version a b s) w h = (a, b, s, refl)
on_stale-stale o x value_error w h = cc
on_stale-stale o x runtime_error w h = cc
on_stale-stale o x type_error w h = cc
on_stale-stale o x attribute_error w h = cc
on_stale-stale o x postgres_error w h = cc
on_stale-stale o x redis_error w h = cc
on_stale-stale o x (invalid_transition a b) w h = cc
on_stale-stale o x (invalid_conditional_transition a b) w h = cc
on_stale-stale o x (exchange_api_error a) w h = cc
on_stale-stale o x (cancel_order_skipped a) w h = cc

-- The row of the order is partially filled, with this quantity.
pub record IsFilledBy (k q : String) (t : Tables) : Type 0 where
  pub row : OrderRow
  pub found : find_order k t.orders ≡ some row
  pub has_status : row.progress.status ≡ OrderStatus.partially_filled
  pub has_quantity : row.progress.filled_quantity ≡ q

module _ (o : Order) (w : World) (row : OrderRow)
    (found : find_order o.order_id w.tables.orders ≡ some row)
    (current : row.version ≡ o.version) where
  not-Overtaken : Overtaken o w.tables → ⊥
  not-Overtaken u = u.newer (ap (λ (r : OrderRow). r.version) same ∙ current)
    where
      same : u.row ≡ row
      same = cc (u.found, found)

  -- A transition that returns has made its order's progress.
  made_progress :
      (p : Progress) (x : Order) (v : World)
      → v.tables ≡ w.tables
      → (try_except (transition_order o (record o { progress = p })) (on_stale o) v).0 ≡ ok x
      → x.progress ≡ p
  unfolding try_except transition_order refresh_order_projection ◌>>=◌ pure
  made_progress p x v s h =
      by_result (transition_rows o updated v) refl (transition_rows_post o updated v) h
    where
      updated : Order
      updated = record o { progress = p }

      by_result :
          (r : Result Order × World)
          → transition_rows o updated v ≡ r
          → TransitionPost o updated v r
          → (let (a, u) = continue r.0 (λ q. ignore_errors (save q) >> pure q) r.1 in
              handle a (on_stale o) u).0
            ≡ ok x
          → x.progress ≡ p
      by_result (ok q, w') e c h =
          let same : ok q ≡ ok x =
            subst
              (λ z.
                (let (a, u) = continue z.0 (λ _. pure q) z.1 in handle a (on_stale o) u).0 ≡ ok x)
              (ignore_errors_lem (save q) w') h in
          cc (same, c.persisted_is)
      by_result (err f, w') e c h =
          let (a, b, s', g) = on_stale-stale o x f w' h in
          let (r', f', n) = transition_rows-stale o updated v a b s' (ap (λ z. z.0) e ∙ ap err g) in
          absurd (
            not-Overtaken (record {
              row = r';
              found = ap (λ t. find_order o.order_id t.orders) (sym s) ∙ f';
              newer = n;
            }))

  module _ (partial : o.status ≡ OrderStatus.partially_filled) (e : OrderUpdateEvent) (q : String)
      (filled : e.filled_quantity ≡ some q) where
    made_quantity :
        (x : Order)
        → (set_status o OrderStatus.partially_filled true true
            (update_fields OrderStatus.partially_filled e)
            w).0
          ≡ ok x
        → x.progress.filled_quantity ≡ q
    unfolding set_status apply_status assert_can_transition can_transition epoch_ms lift ◌>>=◌
        update_fields
    made_quantity x h =
        let (p, made, has) =
          taken (w.clock w.reads) o.progress q e.exchange_order_id e.avg_fill_price in
        let unprotected : is_protected true o OrderStatus.partially_filled ≡ false =
          ground (arith, partial) in
        let allowed : assert_can_transition o.status OrderStatus.partially_filled ≡ ok tt =
          rw partial refl in
        let candidate : candidate_progress (w.clock w.reads) OrderStatus.partially_filled
              (update_fields OrderStatus.partially_filled e) o.progress
            ≡ ok p =
          rw filled made in
        let step : set_status o OrderStatus.partially_filled true true
              (update_fields OrderStatus.partially_filled e) w
            ≡ try_except (transition_order o (record o { progress = p })) (on_stale o)
                (epoch_ms w).1 =
          rw (unprotected, allowed, candidate) refl in
        ap (λ (z : Progress). z.filled_quantity)
          (made_progress p x (epoch_ms w).1 refl (sym (ap (λ z. z.0) step) ∙ h))
        ∙ has

    by_result :
        (r : Result Order × World)
        → StatusPost o OrderStatus.partially_filled true true w.tables r
        → ((x : Order) → r.0 ≡ ok x → x.progress.filled_quantity ≡ q)
        → (y : Option Order) → (continue r.0 (λ x. pure (some x)) r.1).0 ≡ ok y
        → IsFilledBy o.order_id q (continue r.0 (λ x. pure (some x)) r.1).1.tables
    unfolding pure
    by_result (ok x, w') (inl c) is y h = record {
      row = rewritten x.progress c.row;
      found =
          row-Written o x OrderStatus.partially_filled true w.tables w'.tables o.order_id c
          ∙ rw (same_refl o.order_id) refl;
      has_status = c.status_is;
      has_quantity = is x refl;
    }
    by_result (ok x, w') (inr (s, inl (g, u))) is y h = ground (arith, g, partial)
    by_result (ok x, w') (inr (s, inr u)) is y h = absurd (not-Overtaken u)
    by_result (err f, w') c is y h = cc

-- A partial fill with a quantity `q`, for a partially filled order whose row has the version that was
-- read, leaves the row PARTIALLY_FILLED with the filled quantity `q` whenever the call returns,
-- whatever quantity the row has: so one that was overtaken by a later one takes the quantity back.
pub older_fill_overwrites :
    (o : Order) (w : World) (row : OrderRow) (e : OrderUpdateEvent) (q : String) (y : Option Order)
    → find_order o.order_id w.tables.orders ≡ some row
    → row.version ≡ o.version
    → o.status ≡ OrderStatus.partially_filled
    → e.target_status ≡ some OrderStatus.partially_filled
    → e.filled_quantity ≡ some q
    → (apply_target e o e.target_status w).0 ≡ ok y
    → IsFilledBy o.order_id q (apply_target e o e.target_status w).1.tables
unfolding apply_target can_transition ◌>>=◌
older_fill_overwrites o w row e q y found current partial target filled h =
    subst (λ r. IsFilledBy o.order_id q r.1.tables) (sym step)
      (by_result o w row found current partial e q filled marked
        (set_status_post o OrderStatus.partially_filled true true fields w)
        (made_quantity o w row found current partial e q filled) y (sym (ap (λ z. z.0) step) ∙ h))
  where
    fields : List Update
    fields = update_fields OrderStatus.partially_filled e

    marked : Result Order × World
    marked = set_status o OrderStatus.partially_filled true true fields w

    step : apply_target e o e.target_status w ≡ continue marked.0 (λ x. pure (some x)) marked.1
    step = rw (target, partial) refl

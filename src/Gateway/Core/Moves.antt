-- ===== src/Gateway/Core/Moves.antt =====
-- The life of an order as its statuses alone, and what one change of an order does to it.
use crypto_derivative_algo_t.Prelude.{
  ℕ, String, ◌≡◌, refl, sym, ap, ◌∙◌, ◌⊎◌, inl, inr, Bool, true, Option, none, some, List, ◌==◌,
  string_eq, arith, if◌then◌else◌,
}
use crypto_derivative_algo_t.Schema.Enums.{OrderStatus}
use crypto_derivative_algo_t.Schema.Order.{Order, Progress}
use crypto_derivative_algo_t.Failure.{Result, ok, err}
use crypto_derivative_algo_t.Store.Tables.{Tables, OrderRow, find_order, update_order}
use crypto_derivative_algo_t.Store.Rows.{find_order-update_order}
use crypto_derivative_algo_t.Store.Action.{World, pure, ◌>>=◌, ◌>>◌, continue, ignore_errors}
use crypto_derivative_algo_t.Service.Repository.{save}
use crypto_derivative_algo_t.Service.OrderState.{
  transition_rows, transition_order, refresh_order_projection,
}
use crypto_derivative_algo_t.Service.Reads.{save-TablesAre}
use crypto_derivative_algo_t.Service.Transitions.{Committed, TransitionPost, transition_rows_post}
use crypto_derivative_algo_t.Service.Agreement.{IsCurrent, ignore_errors_lem}
use crypto_derivative_algo_t.Gateway.Transition.{Update, set_status}
use crypto_derivative_algo_t.Gateway.StatusChange.{Written, StatusPost, set_status_post}

abbrev row_status : Option OrderRow → Option OrderStatus
row_status none = none
row_status (some r) = some r.progress.status

-- The status that the table `orders` has for an order.
abbrev pub status_of : String → Tables → Option OrderStatus
status_of k t = row_status (find_order k t.orders)

-- One order has gone from one status to another, along an edge that is allowed.
pub record Moved (allowed : OrderStatus → OrderStatus → Bool) (t t' : Tables) : Type 0 where
  pub key : String
  pub old : OrderStatus
  pub new : OrderStatus
  pub edge : allowed old new ≡ true
  pub before : status_of key t ≡ some old
  pub after : (j : String) → status_of j t' ≡ (if key == j then some new else status_of j t)

abbrev pub Moves : (OrderStatus → OrderStatus → Bool) → Tables → Tables → Type 0
Moves allowed t t' = (t' ≡ t) ⊎ Moved allowed t t'

module _ (allowed : OrderStatus → OrderStatus → Bool) where
  updated-Moved :
      (k : String) (v : ℕ) (p : Progress) (row : OrderRow) (t t' : Tables)
      → find_order k t.orders ≡ some row
      → row.version ≡ v
      → t'.orders ≡ update_order k v p t.orders
      → allowed row.progress.status p.status ≡ true
      → Moved allowed t t'
  updated-Moved k v p row t t' f e u a = record {
    key = k;
    old = row.progress.status;
    new = p.status;
    edge = a;
    before = ap row_status f;
    after = λ j. ground (arith, find_order-update_order k j v p row t.orders f e);
  }

  -- An order that is current has the status of its row, if it has the row's version.
  pub Written-Moved :
      (o o' : Order) (status : OrderStatus) (use_machine : Bool) (t t' : Tables)
      → IsCurrent t.orders o
      → Written o status use_machine o' t t'
      → allowed o.status status ≡ true
      → Moved allowed t t'
  Written-Moved o o' status use_machine t t' c w a =
      updated-Moved o.order_id o.version o'.progress w.row t t' w.found w.known
        (ap (λ (x : Tables). x.orders) w.tables_are)
        (ap (λ x. allowed x o'.status) (sym (c.agrees w.row w.found (sym w.known)))
          ∙ ap (allowed o.status) w.status_is
          ∙ a)

  -- `_set_status` on a current order.
  pub set_status-Moves :
      (o : Order) (status : OrderStatus) (use_machine protect_terminal : Bool)
      (fields : List Update) (w : World)
      → IsCurrent w.tables.orders o
      → allowed o.status status ≡ true
      → Moves allowed w.tables (set_status o status use_machine protect_terminal fields w).1.tables
  set_status-Moves o status use_machine protect_terminal fields w c a =
      by_post (set_status o status use_machine protect_terminal fields w)
        (set_status_post o status use_machine protect_terminal fields w)
    where
      by_post :
          (r : Result Order × World)
          → StatusPost o status use_machine protect_terminal w.tables r
          → Moves allowed w.tables r.1.tables
      by_post (ok o', w') (inl h) =
          inr (Written-Moved o o' status use_machine w.tables w'.tables c h a)
      by_post (ok o', w') (inr (s, h)) = inl s
      by_post (err e, w') s = inl s

  Committed-Moves :
      (o updated p : Order) (w w' w'' : World)
      → IsCurrent w.tables.orders o
      → updated.order_id ≡ o.order_id
      → allowed o.status updated.status ≡ true
      → Committed o updated p w w'
      → w''.tables ≡ w'.tables
      → Moves allowed w.tables w''.tables
  Committed-Moves o updated p w w' w'' c same a h s = inr (
      updated-Moved updated.order_id o.version updated.progress h.row w.tables w''.tables h.found
        h.known (ap (λ (x : Tables). x.orders) (s ∙ h.tables_are))
        (ap (λ x. allowed x updated.status)
            (sym (
              c.agrees h.row (ap (λ j. find_order j w.tables.orders) (sym same) ∙ h.found)
                (sym h.known)))
          ∙ a))

  -- `transition_order` on a current order.
  pub transition_order-Moves :
      (o updated : Order) (w : World)
      → IsCurrent w.tables.orders o
      → updated.order_id ≡ o.order_id
      → allowed o.status updated.status ≡ true
      → Moves allowed w.tables (transition_order o updated w).1.tables
  unfolding transition_order refresh_order_projection ◌>>=◌ pure
  transition_order-Moves o updated w c same a =
      by_result (transition_rows o updated w) (transition_rows_post o updated w)
    where
      by_result :
          (r : Result Order × World)
          → TransitionPost o updated w r
          → Moves allowed w.tables
              (continue r.0 (λ p. ignore_errors (save p) >> pure p) r.1).1.tables
      by_result (ok p, w') h = rw (ignore_errors_lem (save p) w') (
          Committed-Moves o updated p w w' (save p w').1 c same a h
            ((save-TablesAre w'.tables p).keeps w' refl))
      by_result (err e, w') u = inl u.tables_same

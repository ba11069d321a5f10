-- ===== src/Gateway/Terminal.antt =====
-- A terminal status in the table is final.
use crypto_derivative_algo_t.Prelude.{
  String, ◌≡◌, ◌∙◌, ap, inl, inr, Bool, true, some, List, ◌==◌, string_eq, ==_iff, arith,
  Bool-cases,
}
use crypto_derivative_algo_t.Schema.Enums.{OrderStatus}
use crypto_derivative_algo_t.Schema.Statuses.{is_terminal}
use crypto_derivative_algo_t.Schema.Order.{Order}
use crypto_derivative_algo_t.Failure.{Result, ok, err}
use crypto_derivative_algo_t.StateMachine.Graph.{terminal_iff_stuck}
use crypto_derivative_algo_t.Store.Tables.{Tables, OrderRow, find_order}
use crypto_derivative_algo_t.Store.Action.{World}
use crypto_derivative_algo_t.Gateway.Transition.{Update, set_status}
use crypto_derivative_algo_t.Gateway.StatusChange.{Written, StatusPost, set_status_post}
use crypto_derivative_algo_t.Gateway.Conflict.{row-Written}

-- A copy of an order that was read from the tables at its version: if the row still has that
-- version, it has the status of the copy.
pub record IsCopy (o : Order) (t : Tables) : Type 0 where
  pub same_status :
      (r : OrderRow)
      → find_order o.order_id t.orders ≡ some r
      → r.version ≡ o.version
      → r.progress.status ≡ o.status

module _ (o : Order) (status : OrderStatus) (k : String) (row : OrderRow) where
  not_terminal :
      (written : Order) (t t' : Tables)
      → Written o status true written t t'
      → IsCopy o t
      → is_terminal o.status ≡ true
      → ⊥
  not_terminal written t t' c copy h =
      ground (arith, (terminal_iff_stuck o.status).0 h status, c.allowed)

  row_survives :
      (written : Order) (t t' : Tables)
      → Written o status true written t t'
      → IsCopy o t
      → find_order k t.orders ≡ some row
      → is_terminal row.progress.status ≡ true
      → find_order k t'.orders ≡ some row
  row_survives written t t' c copy f h = elim (Bool-cases (o.order_id == k)) [
    | inl e ↦ absurd (not_terminal written t t' c copy (own e))
    | inr e ↦ row-Written o written status true t t' k c ∙ rw e f
  ]
    where
      own : (o.order_id == k) ≡ true → is_terminal o.status ≡ true
      own e =
          ground
            (arith, ==_iff o.order_id k, c.found, c.known, copy.same_status c.row c.found c.known)

  -- A call of `_set_status` that consults the state machine leaves every row that has a terminal
  -- status as it is, if the order that it is given is a copy read from the tables, however old.
  pub terminal_row_survives :
      (protect_terminal : Bool) (fields : List Update) (w : World)
      → IsCopy o w.tables
      → find_order k w.tables.orders ≡ some row
      → is_terminal row.progress.status ≡ true
      → find_order k (set_status o status true protect_terminal fields w).1.tables.orders ≡ some row
  terminal_row_survives protect_terminal fields w copy f h =
      by_result (set_status o status true protect_terminal fields w)
        (set_status_post o status true protect_terminal fields w)
    where
      by_result :
          (r : Result Order × World)
          → StatusPost o status true protect_terminal w.tables r
          → find_order k r.1.tables.orders ≡ some row
      by_result (ok o', w') (inl c) = row_survives o' w.tables w'.tables c copy f h
      by_result (ok o', w') (inr s) = ap (λ t. find_order k t.orders) s.0 ∙ f
      by_result (err e, w') s = ap (λ t. find_order k t.orders) s ∙ f

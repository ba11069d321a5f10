-- ===== src/Gateway/Undo.antt =====
-- What the roll-back of a failed batch cancellation does to an order that has ended meanwhile.
use crypto_derivative_algo_t.Prelude.{
  String, ◌≡◌, refl, ap, subst, ◌∙◌, Option, ◌⊎◌, inl, inr, Bool, true, false, some, none, [],
  string_eq, same_refl,
}
use crypto_derivative_algo_t.Schema.Enums.{OrderStatus}
use crypto_derivative_algo_t.Schema.Order.{Order}
use crypto_derivative_algo_t.Failure.{Result, ok, err}
use crypto_derivative_algo_t.Store.Tables.{Tables, OrderRow, find_order, rewritten}
use crypto_derivative_algo_t.Store.Action.{World, pure, ◌>>=◌, continue}
use crypto_derivative_algo_t.Gateway.Transition.{set_status, is_protected}
use crypto_derivative_algo_t.Gateway.StatusChange.{Written, StatusPost, Overtaken, set_status_post}
use crypto_derivative_algo_t.Gateway.Conflict.{row-Written}
use crypto_derivative_algo_t.Gateway.Cancellation.Batch.{find_key}
use crypto_derivative_algo_t.Gateway.Cancellation.Answers.{Previous, restore, restore_to}

-- The row of the order has this status.
pub record HasStatus (k : String) (s : OrderStatus) (t : Tables) : Type 0 where
  pub row : OrderRow
  pub found : find_order k t.orders ≡ some row
  pub has_status : row.progress.status ≡ s

-- The order that was written is in the status that was asked for.
pub Written-HasStatus :
    (o p : Order) (s : OrderStatus) (m : Bool) (t t' : Tables)
    → Written o s m p t t'
    → HasStatus o.order_id s t'
Written-HasStatus o p s m t t' c = record {
  row = rewritten p.progress c.row;
  found = row-Written o p s m t t' o.order_id c ∙ rw (same_refl o.order_id) refl;
  has_status = c.status_is;
}

module _ (latest : Order) (s : OrderStatus) (w : World) (row : OrderRow)
    (found : find_order latest.order_id w.tables.orders ≡ some row)
    (current : row.version ≡ latest.version) where
  not-Overtaken :
      {p : Order}
      → ((is_protected false latest s ≡ true) × (p ≡ latest)) ⊎ Overtaken latest w.tables
      → ⊥
  not-Overtaken (inl h) = cc (h.0)
  not-Overtaken (inr u) = u.newer (ap (λ (r : OrderRow). r.version) same ∙ current)
    where
      same : u.row ≡ row
      same = cc

  by_result :
      (r : Result Order × World)
      → StatusPost latest s false false w.tables r
      → (continue r.0 (λ o. pure tt) r.1).0 ≡ ok tt
      → HasStatus latest.order_id s (continue r.0 (λ o. pure tt) r.1).1.tables
  unfolding pure
  by_result (ok o, w') (inl c) e = Written-HasStatus latest o s false w.tables w'.tables c
  by_result (ok o, w') (inr u) e = absurd (not-Overtaken u.1)
  by_result (err f, w') u e = cc

-- The roll-back writes the status that the order had before the batch over the row that it has
-- just read, whatever status that row has by now: also one that has been filled or cancelled.
pub restore_overwrites :
    (previous : Previous) (k : String) (latest : Order) (s : OrderStatus) (w : World)
    (row : OrderRow)
    → find_key k previous ≡ some s
    → find_order latest.order_id w.tables.orders ≡ some row
    → row.version ≡ latest.version
    → (restore previous k (some latest) w).0 ≡ ok tt
    → HasStatus latest.order_id s (restore previous k (some latest) w).1.tables
unfolding restore restore_to ◌>>=◌
restore_overwrites previous k latest s w row known found current e =
    restored (find_key k previous) known e
  where
    restored :
        (f : Option OrderStatus)
        → f ≡ some s
        → (restore_to latest f w).0 ≡ ok tt
        → HasStatus latest.order_id s (restore_to latest f w).1.tables
    restored none h e = cc
    restored (some t) h e =
        let same : t ≡ s = cc h in
        subst (λ u. HasStatus latest.order_id u (restore_to latest (some t) w).1.tables) same
          (by_result latest t w row found current (set_status latest t false false [] w)
            (set_status_post latest t false false [] w) e)

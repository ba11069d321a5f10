-- ===== src/Service/Consistency.antt =====
-- OrderStateService keeps the agreement of orders, outbox_events and the projections.
use crypto_derivative_algo_t.Prelude.{
  ◌+◌, String, ◌≡◌, Bool, [], ◌∷◌, ◌==◌, string_eq, nat_eq, ==_iff, arith, if◌then◌else◌,
  count_if-append,
}
use crypto_derivative_algo_t.Schema.Order.{Order}
use crypto_derivative_algo_t.Failure.{Result, ok, err}
use crypto_derivative_algo_t.Store.Tables.{OutboxEvent, order_row}
use crypto_derivative_algo_t.Store.Rows.{find_order-update_order, find_order-append}
use crypto_derivative_algo_t.Store.Action.{World, pure, ◌>>=◌, ◌>>◌, ignore_errors, continue}
use crypto_derivative_algo_t.Service.Repository.{save}
use crypto_derivative_algo_t.Service.OrderState.{
  created_event, changed_event, create_rows, create_order, transition_rows, transition_order,
  refresh_order_projection,
}
use crypto_derivative_algo_t.Service.Transitions.{
  Untouched, Committed, TransitionPost, transition_rows_post, CreatePost, create_rows_post,
}
use crypto_derivative_algo_t.Service.Keeps.{Keeps}
use crypto_derivative_algo_t.Service.Agreement.{
  IsConsistent, IsConsistent-storage, CopiesAgree, IsCurrent, version_of, save-IsConsistent,
  ignore_errors_lem,
}

-- The version of each order after a committed transition.
pub version_of-Committed :
    (current updated p : Order) (w w' : World) (k : String)
    → Committed current updated p w w'
    → version_of k w' ≡ (if updated.order_id == k then version_of k w + 1 else version_of k w)
version_of-Committed current updated p w w' k c = ground (
  arith,
  find_order-update_order updated.order_id k current.version updated.progress c.row w.tables.orders,
  ==_iff updated.order_id k,
)

-- The projection of the order that was written is older than its new row, and no other changed.
Committed-CopiesAgree :
    (current updated p : Order) (w w' : World)
    → Committed current updated p w w'
    → IsConsistent w
    → CopiesAgree w'.redis.live w'.tables.orders
Committed-CopiesAgree current updated p w w' c h = record {
  keyed = λ k l a. h.copies_agree.keyed k l (ground (arith, c.redis_same));
  same_status = λ k l r a b e. ground (
    arith,
    c.redis_same,
    h.copies_agree.same_status k l r,
    h.projection_behind k,
    find_order-update_order updated.order_id k current.version updated.progress c.row
        w.tables.orders,
    ==_iff updated.order_id k,
  );
}

Committed-IsConsistent :
    (current updated p : Order) (w w' : World)
    → Committed current updated p w w'
    → IsConsistent w
    → IsConsistent w'
Committed-IsConsistent current updated p w w' c h = record {
  events_match = λ k. ground (
    arith,
    h.events_match k,
    version_of-Committed current updated p w w' k c,
    count_if-append (λ (e : OutboxEvent). e.aggregate_id == k) w.tables.outbox
        (changed_event current p ∷ []),
  );
  projection_behind =
      λ k. ground (arith, h.projection_behind k, version_of-Committed current updated p w w' k c);
  copies_agree = Committed-CopiesAgree current updated p w w' c h;
}

Untouched-IsConsistent : (w w' : World) → Untouched w w' → IsConsistent w → IsConsistent w'
Untouched-IsConsistent w w' u h = IsConsistent-storage.carry w w' u.tables_same u.redis_same h

pub transition_rows-IsConsistent :
    (current updated : Order) → Keeps IsConsistent (transition_rows current updated)
transition_rows-IsConsistent current updated = record {
  keeps = λ w h.
      by_result w (transition_rows current updated w) (transition_rows_post current updated w) h;
}
  where
    by_result :
        (w : World) (r : Result Order × World)
        → TransitionPost current updated w r
        → IsConsistent w
        → IsConsistent r.1
    by_result w (ok p, w') c h = Committed-IsConsistent current updated p w w' c h
    by_result w (err e, w') u h = Untouched-IsConsistent w w' u h

persisted-IsCurrent :
    (current updated p : Order) (w w' : World)
    → Committed current updated p w w'
    → IsCurrent w'.tables.orders p
persisted-IsCurrent current updated p w w' c = record {
  not_newer = ground (
    arith,
    version_of-Committed current updated p w w' updated.order_id c,
    ==_iff updated.order_id updated.order_id,
  );
  agrees = λ r f v. ground (
    arith,
    find_order-update_order updated.order_id updated.order_id current.version updated.progress c.row
        w.tables.orders,
    ==_iff updated.order_id updated.order_id,
  );
}

-- A transition, whatever it is given and whether it is committed or raises, keeps every order's
-- events and version in step and its projection no newer than its row, and of the row's status if it
-- is as new.
pub transition_order-IsConsistent :
    (current updated : Order) → Keeps IsConsistent (transition_order current updated)
unfolding transition_order refresh_order_projection ◌>>=◌
transition_order-IsConsistent current updated = record {
  keeps = λ w h.
      by_result w (transition_rows current updated w) (transition_rows_post current updated w) h;
}
  where
    by_result :
        (w : World) (r : Result Order × World)
        → TransitionPost current updated w r
        → IsConsistent w
        → IsConsistent (continue r.0 (λ p. ignore_errors (save p) >> pure p) r.1).1
    by_result w (ok p, w') c h = rw (ignore_errors_lem (save p) w') (
        save-IsConsistent p w' (persisted-IsCurrent current updated p w w' c)
          (Committed-IsConsistent current updated p w w' c h))
    by_result w (err e, w') u h = Untouched-IsConsistent w w' u h

-- An order that was just created has no projection yet.
Created-CopiesAgree :
    (o : Order) (w w' : World)
    → o.version ≡ 1
    → CreatePost o w (ok tt, w')
    → IsConsistent w
    → CopiesAgree w'.redis.live w'.tables.orders
Created-CopiesAgree o w w' v c h = record {
  keyed = λ k l a. h.copies_agree.keyed k l (ground (arith));
  same_status = λ k l r a b e. ground (
    arith,
    h.copies_agree.same_status k l r,
    h.projection_behind k,
    find_order-append k (order_row w.as_numeric o) w.tables.orders,
    ==_iff o.order_id k,
  );
}

Created-IsConsistent :
    (o : Order) (w w' : World)
    → o.version ≡ 1
    → CreatePost o w (ok tt, w')
    → IsConsistent w
    → IsConsistent w'
Created-IsConsistent o w w' v c h = record {
  events_match = λ k. ground (
    arith,
    h.events_match k,
    find_order-append k (order_row w.as_numeric o) w.tables.orders,
    ==_iff o.order_id k,
    count_if-append (λ (e : OutboxEvent). e.aggregate_id == k) w.tables.outbox
        (created_event o ∷ []),
  );
  projection_behind = λ k. ground (
    arith,
    h.projection_behind k,
    find_order-append k (order_row w.as_numeric o) w.tables.orders,
  );
  copies_agree = Created-CopiesAgree o w w' v c h;
}

created-IsCurrent :
    (o : Order) (w w' : World) → CreatePost o w (ok tt, w') → IsCurrent w'.tables.orders o
created-IsCurrent o w w' c = record {
  not_newer = ground (
    arith,
    find_order-append o.order_id (order_row w.as_numeric o) w.tables.orders,
    ==_iff o.order_id o.order_id,
  );
  agrees = λ r f v. ground (
    arith,
    find_order-append o.order_id (order_row w.as_numeric o) w.tables.orders,
    ==_iff o.order_id o.order_id,
  );
}

-- The creation of an order of version 1 keeps every order's events and version in step and its
-- projection no newer than its row, and of the row's status if it is as new, also where Redis fails
-- after the commit.
pub create_order-IsConsistent : (o : Order) → o.version ≡ 1 → Keeps IsConsistent (create_order o)
unfolding create_order ◌>>=◌
create_order-IsConsistent o v = record {
  keeps = λ w h. by_result w (create_rows o w) (create_rows_post o w) h;
}
  where
    saved :
        (w : World) (r : Result Bool × World)
        → IsConsistent r.1
        → IsConsistent (continue r.0 (λ _. pure o) r.1).1
    saved w (ok b, w') h = h
    saved w (err e, w') h = h

    by_result :
        (w : World) (r : Result (Unit {0}) × World)
        → CreatePost o w r
        → IsConsistent w
        → IsConsistent (continue r.0 (λ _. save o >> pure o) r.1).1
    by_result w (ok u, w') c h =
        saved w' (save o w')
          (save-IsConsistent o w' (created-IsCurrent o w w' c) (Created-IsConsistent o w w' v c h))
    by_result w (err e, w') u h = Untouched-IsConsistent w w' u h

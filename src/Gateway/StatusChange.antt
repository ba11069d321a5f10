-- ===== src/Gateway/StatusChange.antt =====
-- What one call of `_set_status` does to the order tables, and when it does nothing.
use crypto_derivative_algo_t.Prelude.{
  ℕ, ◌≢◌, ◌+◌, ◌≡◌, refl, ◌∙◌, ap, ◌⊎◌, inl, inr, Bool, true, false, not, ◌||◌, some, List, [], ◌∷◌,
  ◌++◌, string_eq, arith, if◌then◌else◌,
}
use crypto_derivative_algo_t.Schema.Enums.{OrderStatus, order_status_eq}
use crypto_derivative_algo_t.Schema.Order.{Order, Progress}
use crypto_derivative_algo_t.Failure.{
  Failure, Result, ok, err, stale_order_version, value_error, runtime_error, type_error,
  attribute_error, postgres_error, redis_error, invalid_transition, invalid_conditional_transition,
  exchange_api_error, cancel_order_skipped,
}
use crypto_derivative_algo_t.StateMachine.OrderStatus.{can_transition, assert_can_transition}
use crypto_derivative_algo_t.Store.Tables.{Tables, OrderRow, find_order, update_order}
use crypto_derivative_algo_t.Store.Action.{
  World, pure, raise, lift, ◌>>=◌, ◌>>◌, try_except, epoch_ms, handle, continue, ignore_errors,
}
use crypto_derivative_algo_t.Service.Repository.{save}
use crypto_derivative_algo_t.Service.Reads.{TablesAre, load_order-TablesAre, save-TablesAre}
use crypto_derivative_algo_t.Service.OrderState.{
  changed_event, transition_rows, transition_order, refresh_order_projection,
}
use crypto_derivative_algo_t.Service.Agreement.{ignore_errors_lem}
use crypto_derivative_algo_t.Service.Transitions.{Committed, TransitionPost, transition_rows_post}
use crypto_derivative_algo_t.Service.Keeps.{Keeps, keeps_rules}
use crypto_derivative_algo_t.Gateway.Transition.{
  Update, set_field, set_fields, candidate_progress, stamp_filled, on_stale, apply_status,
  set_status, is_protected,
}

module _ (t : Tables) where
  on_stale-TablesAre : (o : Order) (e : Failure) → Keeps (TablesAre t) (on_stale o e)
  unfolding on_stale
  on_stale-TablesAre o (stale_order_version a b c) = search (keeps_rules, load_order-TablesAre)
  on_stale-TablesAre o _ = search keeps_rules

-- A transition that is refused as stale found a row with another version.
pub transition_rows-stale :
    (current updated : Order) (w : World) (a b : ℕ) (s : OrderStatus)
    → (transition_rows current updated w).0 ≡ err (stale_order_version a b s)
    → (row : OrderRow) × (find_order updated.order_id w.tables.orders ≡ some row)
      × (row.version ≢ current.version)
unfolding transition_rows
transition_rows-stale current updated w a b s h = ground arith

-- The fields of a call never change the status or the update time.
pub set_fields-status :
    (fields : List Update) (p p' : Progress)
    → set_fields fields p ≡ ok p'
    → (p'.status ≡ p.status) × (p'.updated_ts ≡ p.updated_ts)
unfolding set_fields set_field
set_fields-status [] p p' h = ground arith
set_fields-status (u ∷ rest) p p' h = grind (arith, set_fields-status rest)

candidate_progress-status :
    (now : ℕ) (status : OrderStatus) (fields : List Update) (p p' : Progress)
    → candidate_progress now status fields p ≡ ok p'
    → (p'.status ≡ status) × (p'.updated_ts ≡ now)
unfolding candidate_progress stamp_filled
candidate_progress-status now status fields p p' h = grind (arith, set_fields-status)

-- The order was written: its row had the version of `o`, and the tables have changed by this
-- update and its event alone. A call that consults the state machine wrote an allowed edge.
pub record Written (o : Order) (status : OrderStatus) (use_machine : Bool) (written : Order)
    (t t' : Tables) : Type 0 where
  pub row : OrderRow
  pub found : find_order o.order_id t.orders ≡ some row
  pub known : row.version ≡ o.version
  pub same_order : written ≡ record o { progress = written.progress; version = o.version + 1 }
  pub status_is : written.status ≡ status
  pub allowed : (not use_machine || can_transition o.status status) ≡ true
  pub tables_are : t' ≡ record t {
    orders = update_order o.order_id o.version written.progress t.orders;
    outbox = t.outbox ++ changed_event o written ∷ [];
  }

-- Another writer has changed the row since `o` was read.
pub record Overtaken (o : Order) (t : Tables) : Type 0 where
  pub row : OrderRow
  pub found : find_order o.order_id t.orders ≡ some row
  pub newer : row.version ≢ o.version

abbrev pub StatusPost : Order → OrderStatus → Bool → Bool → Tables → Result Order × World → Type 0
StatusPost o status use_machine protect_terminal t (ok o', w') =
    Written o status use_machine o' t w'.tables
    ⊎ ((w'.tables ≡ t)
        × (((is_protected protect_terminal o status ≡ true) × (o' ≡ o)) ⊎ Overtaken o t))
StatusPost o status use_machine protect_terminal t (err e, w') = w'.tables ≡ t

module _ (o : Order) (status : OrderStatus) (use_machine protect_terminal : Bool) where
  unchanged_post :
      (r : Result Order × World) (t : Tables)
      → r.1.tables ≡ t
      → Overtaken o t
      → StatusPost o status use_machine protect_terminal t r
  unchanged_post (ok o', w') t s h = inr (s, inr h)
  unchanged_post (err e, w') t s h = s

  stale_post :
      (e : Failure) (w : World) (t : Tables)
      → w.tables ≡ t
      → ((a b : ℕ) (s : OrderStatus) → e ≡ stale_order_version a b s → Overtaken o t)
      → StatusPost o status use_machine protect_terminal t (on_stale o e w)
  unfolding on_stale raise
  stale_post (stale_order_version a b c) w t s h =
      unchanged_post (on_stale o (stale_order_version a b c) w) t
        ((on_stale-TablesAre t o (stale_order_version a b c)).keeps w s) (h a b c refl)
  stale_post value_error w t s h = s
  stale_post runtime_error w t s h = s
  stale_post type_error w t s h = s
  stale_post attribute_error w t s h = s
  stale_post postgres_error w t s h = s
  stale_post redis_error w t s h = s
  stale_post (invalid_transition a b) w t s h = s
  stale_post (invalid_conditional_transition a b) w t s h = s
  stale_post (exchange_api_error a) w t s h = s
  stale_post (cancel_order_skipped a) w t s h = s

  written_lem :
      (p : Progress) (q : Order) (w w' w'' : World)
      → (not use_machine || can_transition o.status status) ≡ true
      → p.status ≡ status
      → Committed o (record o { progress = p }) q w w'
      → w''.tables ≡ w'.tables
      → Written o status use_machine q w.tables w''.tables
  written_lem p q w w' w'' allowed is c s = record {
    row = c.row;
    found = c.found;
    known = c.known;
    same_order = rw c.persisted_is (ap (λ v. record o { progress = p; version = v + 1 }) c.known);
    status_is = rw c.persisted_is is;
    allowed = allowed;
    tables_are = cc (s, c.tables_are, c.persisted_is);
  }

  -- What is left to do after the two checks.
  commit_post :
      (now : ℕ) (fields : List Update) (p : Progress) (w : World)
      → (not use_machine || can_transition o.status status) ≡ true
      → p.status ≡ status
      → StatusPost o status use_machine protect_terminal w.tables
          (try_except (transition_order o (record o { progress = p })) (on_stale o) w)
  unfolding try_except transition_order refresh_order_projection ◌>>=◌ pure
  commit_post now fields p w allowed is =
      by_result (transition_rows o updated w) refl (transition_rows_post o updated w)
    where
      updated : Order
      updated = record o { progress = p }

      by_result :
          (r : Result Order × World)
          → transition_rows o updated w ≡ r
          → TransitionPost o updated w r
          → StatusPost o status use_machine protect_terminal w.tables (
              let (a, v) = continue r.0 (λ q. ignore_errors (save q) >> pure q) r.1 in
              handle a (on_stale o) v)
      by_result (ok q, w') e c = rw (ignore_errors_lem (save q) w') (
          inl (
            written_lem p q w w' (save q w').1 allowed is c
              ((save-TablesAre w'.tables q).keeps w' refl)))
      by_result (err f, w') e u = stale_post f w' w.tables u.tables_same (λ a b s h.
          let (row, f, n) = transition_rows-stale o updated w a b s (ap (λ z. z.0) e ∙ ap err h) in
          record { row = row; found = f; newer = n })

  assert-allowed :
      (u : Unit {0})
      → (if use_machine then assert_can_transition o.status status else ok tt) ≡ ok u
      → (not use_machine || can_transition o.status status) ≡ true
  unfolding assert_can_transition
  assert-allowed u h = ground arith

  apply_status_post :
      (now : ℕ) (fields : List Update) (w : World)
      → StatusPost o status use_machine protect_terminal w.tables
          (apply_status now o status use_machine fields w)
  unfolding apply_status ◌>>=◌ lift
  apply_status_post now fields w = checked_post _ refl
    where
      candidate_post :
          (r : Result Progress)
          → (not use_machine || can_transition o.status status) ≡ true
          → candidate_progress now status fields o.progress ≡ r
          → StatusPost o status use_machine protect_terminal w.tables (
              continue r
                (λ p. try_except (transition_order o (record o { progress = p })) (on_stale o))
                w)
      candidate_post (ok p) a e =
          commit_post now fields p w a
            (candidate_progress-status now status fields o.progress p e).0
      candidate_post (err f) a e = refl

      checked_post :
          (r : Result (Unit {0}))
          → (if use_machine then assert_can_transition o.status status else ok tt) ≡ r
          → StatusPost o status use_machine protect_terminal w.tables (
              continue r
                (λ _ v.
                  continue
                    (candidate_progress now status fields o.progress)
                    (λ p. try_except (transition_order o (record o { progress = p })) (on_stale o))
                    v)
                w)
      checked_post (ok u) e =
          candidate_post (candidate_progress now status fields o.progress) (assert-allowed u e) refl
      checked_post (err f) e = refl

  -- A call of `_set_status` that raises leaves the tables as they were. One that returns either has
  -- written its order, in the asked status, over the version it knew, along an edge of the state
  -- machine if it consults it; or it has changed no table, because the order is protected and is
  -- returned as it is, or because another writer had changed the row.
  pub set_status_post :
      (fields : List Update) (w : World)
      → StatusPost o status use_machine protect_terminal w.tables
          (set_status o status use_machine protect_terminal fields w)
  unfolding set_status ◌>>=◌ epoch_ms pure
  set_status_post fields w = guarded (is_protected protect_terminal o status) refl
    where
      clocked : World
      clocked = (epoch_ms w).1

      guarded :
          (b : Bool)
          → is_protected protect_terminal o status ≡ b
          → StatusPost o status use_machine protect_terminal w.tables (
              (if b then pure o else apply_status (w.clock w.reads) o status use_machine fields)
                clocked)
      guarded true e = inr (refl, inl (e, refl))
      guarded false e = apply_status_post (w.clock w.reads) fields clocked

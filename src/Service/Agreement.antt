-- ===== src/Service/Agreement.antt =====
-- The agreement of orders, outbox_events and the projections that OrderStateService maintains, and
-- the projection of one order.
use crypto_derivative_algo_t.Prelude.{
  ℕ, ◌≤◌, String, ◌≡◌, refl, sym, ap, ◌∙◌, Bool, ◌⊎◌, inl, inr, Option, none, some, List, ◌==◌,
  string_eq, ==_iff, arith, count_if, Bool-cases,
}
use crypto_derivative_algo_t.Schema.Order.{Order}
use crypto_derivative_algo_t.Failure.{Result, ok, err}
use crypto_derivative_algo_t.Store.Tables.{OrderRow, OutboxEvent, find_order}
use crypto_derivative_algo_t.Store.Redis.{
  Redis, Live, merge_hash, merge_progress, is_stale, write_projection, upsert_projection_if_newer,
}
use crypto_derivative_algo_t.Store.Projection.{
  live_version, live_version-upsert, live-write_projection, version-merge_hash,
}
use crypto_derivative_algo_t.Store.Action.{World, Action, pure, ignore_errors, handle, continue}
use crypto_derivative_algo_t.Service.Repository.{save}
use crypto_derivative_algo_t.Service.Keeps.{IsStorage}

abbrev pub row_version : Option OrderRow → ℕ
row_version none = 0
row_version (some r) = r.version

abbrev pub version_of : String → World → ℕ
version_of k w = row_version (find_order k w.tables.orders)

abbrev pub events_of : String → List OutboxEvent → ℕ
events_of k = count_if (λ e. e.aggregate_id == k)

-- The projection `l` of an order and its row `r`, where they exist: the hash is under the order's own
-- id, and has the row's status if it has the row's version.
pub record CopiesAgree (live : String → Option Live) (rows : List OrderRow) : Type 0 where
  pub keyed : (k : String) (l : Live) → live k ≡ some l → l.order.order_id ≡ k
  pub same_status :
      (k : String) (l : Live) (r : OrderRow)
      → live k ≡ some l
      → find_order k rows ≡ some r
      → l.order.version ≡ r.version
      → l.order.status ≡ r.progress.status

-- Each order has as many events in the outbox as its version counts; no hash in Redis is newer than
-- its row, and a hash that is as new as its row has the row's status.
pub record IsConsistent (w : World) : Type 0 where
  pub events_match : (k : String) → events_of k w.tables.outbox ≡ version_of k w
  pub projection_behind : (k : String) → live_version (w.redis.live k) ≤ version_of k w
  pub copies_agree : CopiesAgree w.redis.live w.tables.orders

pub IsConsistent-storage : IsStorage IsConsistent
IsConsistent-storage = record {
  carry = λ w w' t r h. record {
    events_match = λ k. ground (arith, h.events_match k);
    projection_behind = λ k. ground (arith, h.projection_behind k);
    copies_agree = rw (t, r) h.copies_agree;
  };
}

-- An order that is no newer than its row, and has the row's status if it is as new.
pub record IsCurrent (rows : List OrderRow) (o : Order) : Type 0 where
  pub not_newer : o.version ≤ row_version (find_order o.order_id rows)
  pub agrees :
      (r : OrderRow)
      → find_order o.order_id rows ≡ some r
      → o.version ≡ r.version
      → o.status ≡ r.progress.status

merged_lem :
    (o : Order) (old : Option Live)
    → ((merge_hash o old).order_id ≡ o.order_id) × ((merge_hash o old).status ≡ o.status)
unfolding merge_hash merge_progress
merged_lem o none = (refl, refl)
merged_lem o (some l) = (refl, refl)

module _ (o : Order) (r : Redis) (rows : List OrderRow) (c : IsCurrent rows o)
    (h : CopiesAgree r.live rows) where
  written_hash :
      (k : String) (l : Live)
      → o.order_id ≡ k
      → (write_projection o r).live k ≡ some l
      → l.order ≡ merge_hash o (r.live o.order_id)
  written_hash k l same e = ground (arith, live-write_projection o r k, ==_iff o.order_id k)

  written_status :
      (k : String) (l : Live) (row : OrderRow)
      → o.order_id ≡ k
      → (write_projection o r).live k ≡ some l
      → find_order k rows ≡ some row
      → l.order.version ≡ row.version
      → l.order.status ≡ row.progress.status
  written_status k l row same e f v =
      ap (λ (x : Order). x.status) (written_hash k l same e)
      ∙ (merged_lem o (r.live o.order_id)).1
      ∙ c.agrees row (ap (λ j. find_order j rows) same ∙ f) (
          sym (version-merge_hash o (r.live o.order_id))
          ∙ ap (λ (x : Order). x.version) (sym (written_hash k l same e))
          ∙ v)

  write-CopiesAgree : CopiesAgree (write_projection o r).live rows
  write-CopiesAgree = record {
    keyed = λ k l e. ground (
      arith,
      h.keyed k l,
      live-write_projection o r k,
      merged_lem o (r.live o.order_id),
      ==_iff o.order_id k,
    );
    same_status = λ k l row e f v. elim (Bool-cases (o.order_id == k)) [
      | inl same ↦ written_status k l row ((==_iff o.order_id k).0 same) e f v
      | inr other ↦ h.same_status k l row (ground (arith, live-write_projection o r k)) f v
    ];
  }

  upsert-CopiesAgree : CopiesAgree (upsert_projection_if_newer o r).1.live rows
  unfolding upsert_projection_if_newer
  upsert-CopiesAgree = elim (Bool-cases (is_stale o.version (r.live o.order_id))) [
    | inl stale ↦ rw stale h
    | inr newer ↦ rw newer write-CopiesAgree
  ]

upsert-IsConsistent :
    (o : Order) (w w' : World)
    → IsCurrent w.tables.orders o
    → w'.tables ≡ w.tables
    → w'.redis ≡ (upsert_projection_if_newer o w.redis).1
    → IsConsistent w
    → IsConsistent w'
upsert-IsConsistent o w w' c t r h = record {
  events_match = λ k. ground (arith, h.events_match k);
  projection_behind = λ k. ground (
    arith,
    h.projection_behind k,
    live_version-upsert o w.redis k,
    ==_iff o.order_id k,
    c.not_newer,
  );
  copies_agree = rw (t, r) (upsert-CopiesAgree o w.redis w.tables.orders c h.copies_agree);
}

abbrev Saved : Order → World → Result Bool × World → Type 0
Saved o w (r, w') =
    (w'.tables ≡ w.tables)
    × ((w'.redis ≡ w.redis) ⊎ (w'.redis ≡ (upsert_projection_if_newer o w.redis).1))

save_post : (o : Order) (w : World) → Saved o w (save o w)
unfolding save
save_post o w = ground arith

-- Saving a projection of an order that is no newer than its row.
pub save-IsConsistent :
    (o : Order) (w : World)
    → IsCurrent w.tables.orders o
    → IsConsistent w
    → IsConsistent (save o w).1
save-IsConsistent o w c h = elim (save_post o w).1 [
  | inl same ↦ IsConsistent-storage.carry w (save o w).1 (save_post o w).0 same h
  | inr upserted ↦ upsert-IsConsistent o w (save o w).1 c (save_post o w).0 upserted h
]

-- `ignore_errors` ends in the world that its action left.
pub ignore_errors_lem :
    {A : Type 0} (m : Action A) (w : World) → ignore_errors m w ≡ (ok tt, (m w).1)
unfolding ignore_errors
ignore_errors_lem {A} m w = by_result (m w)
  where
    by_result :
        (r : Result A × World)
        → handle
            (continue r.0 (λ _. pure tt) r.1).0
            (λ _. pure tt)
            (continue r.0 (λ _. pure tt) r.1).1
          ≡ (ok tt, r.1)
    by_result (ok a, w') = refl
    by_result (err e, w') = refl

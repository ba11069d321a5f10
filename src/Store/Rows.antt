-- ===== src/Store/Rows.antt =====
-- Looking rows up after a statement on the tables.
use crypto_derivative_algo_t.Prelude.{
  ℕ, String, ◌≡◌, refl, none, some, List, [], ◌∷◌, ◌++◌, ◌==◌, string_eq, nat_eq, ==_iff, arith,
  if◌then◌else◌, or_else,
}
use crypto_derivative_algo_t.Schema.Order.{Progress}
use crypto_derivative_algo_t.Store.Tables.{
  IntentRow, OrderRow, find_intent, find_order, rewritten, update_order,
}

-- After an update that found its row, the row is the rewritten one, and all others are as before.
pub find_order-update_order :
    (k j : String) (v : ℕ) (p : Progress) (r : OrderRow) (rows : List OrderRow)
    → find_order k rows ≡ some r
    → r.version ≡ v
    → find_order j (update_order k v p rows)
      ≡ (if k == j then some (rewritten p r) else find_order j rows)
unfolding find_order update_order
find_order-update_order k j v p r [] h e = cc
find_order-update_order k j v p r (x ∷ rows) h e = ground (
  arith,
  ==_iff x.order_id k,
  ==_iff x.order_id j,
  ==_iff k j,
  find_order-update_order k j v p r rows,
)

-- A new row is found last.
pub find_order-append :
    (j : String) (x : OrderRow) (rows : List OrderRow)
    → find_order j (rows ++ x ∷ [])
      ≡ or_else (find_order j rows) (if x.order_id == j then some x else none)
unfolding find_order
find_order-append j x [] = refl
find_order-append j x (y ∷ rows) = ground (arith, find_order-append j x rows)

pub find_intent-append :
    (j : String) (x : IntentRow) (rows : List IntentRow)
    → find_intent j (rows ++ x ∷ [])
      ≡ or_else (find_intent j rows) (if x.order_id == j then some x else none)
unfolding find_intent
find_intent-append j x [] = refl
find_intent-append j x (y ∷ rows) = ground (arith, find_intent-append j x rows)

-- A row that is found has the id that was asked for.
pub order_id-find_order :
    (k : String) (r : OrderRow) (rows : List OrderRow) → find_order k rows ≡ some r → r.order_id ≡ k
unfolding find_order
order_id-find_order k r [] h = cc
order_id-find_order k r (x ∷ rows) h =
    ground (arith, ==_iff x.order_id k, order_id-find_order k r rows)

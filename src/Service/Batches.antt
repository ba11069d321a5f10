-- ===== src/Service/Batches.antt =====
-- OrderStateService.iter_open_order_batches yields every open order once.
use crypto_derivative_algo_t.Prelude.{
  ℕ, zero, suc, ◌≤◌, String, ◌≡◌, refl, sym, ap, subst, ◌∙◌, Bool, true, false, Option, none, List,
  [], ◌∷◌, ◌++◌, take, drop, filter_if, All, All-take, All-filter_if, length, arith, count_if, ◌==◌,
  string_eq,
}
use crypto_derivative_algo_t.Schema.Enums.{Exchange, MarketType, OrderRoute}
use crypto_derivative_algo_t.Schema.Order.{Order}
use crypto_derivative_algo_t.Schema.Validate.{normalize_order}
use crypto_derivative_algo_t.Failure.{ok}
use crypto_derivative_algo_t.Store.Tables.{Tables}
use crypto_derivative_algo_t.Store.Action.{World, Action, pure, lift, gets, ◌>>=◌, statement}
use crypto_derivative_algo_t.Service.Repository.{model_validate, find_joined}
use crypto_derivative_algo_t.Service.Lists.{validate_all}
use crypto_derivative_algo_t.Service.Pages.{
  is_listed, is_after, cursor_at, select_ascending, select_page, last_of, refresh_batch,
  list_non_terminal_joined_orders_page, iter_open_order_batches,
}
use crypto_derivative_algo_t.Service.Ascending.{
  IsTextOrder, filter_if-filter_if, filter_if-All, All-kept, before, after_trans, last_holds,
  Ascending, Ascending-kept, after_page,
}
use crypto_derivative_algo_t.Service.Paging.{
  IsKeyed, select-Ascending, select-filtered, times_listed, count-select,
}

abbrev pub concat : List (List Order) → List Order
concat [] = []
concat (batch ∷ rest) = batch ++ concat rest

-- Nobody writes these tables, and no call of the database fails.
pub record IsQuiet (t : Tables) (w : World) : Type 0 where
  pub tables_are : w.tables ≡ t
  pub answers : (n : ℕ) → w.postgres_fails n ≡ false

validate_all_lem :
    (orders : List Order) (w : World)
    → All (λ o. normalize_order "" o ≡ ok o) orders
    → validate_all orders w ≡ (ok orders, w)
unfolding validate_all model_validate ◌>>=◌ lift pure
validate_all_lem [] w h = refl
validate_all_lem (o ∷ rest) w (h, hs) = rw (h, validate_all_lem rest w hs) refl

take-drop : (n : ℕ) (xs : List Order) → take n xs ++ drop n xs ≡ xs
take-drop zero xs = refl
take-drop (suc n) [] = refl
take-drop (suc n) (x ∷ xs) = ap (λ ys. x ∷ ys) (take-drop n xs)

length-drop : (n : ℕ) (xs : List Order) → length (drop n xs) ≤ length xs
length-drop zero xs = omega arith
length-drop (suc n) [] = omega arith
length-drop (suc n) (x ∷ xs) = omega (arith, length-drop n xs)

module _ (text_before : String → String → Bool) (order : IsTextOrder text_before)
    (exchange : Exchange) (market_type : MarketType) (route : Option OrderRoute) (t : Tables)
    (keyed : IsKeyed t.orders) where
  -- The open orders that are asked for, in the order of the pages.
  abbrev pub open_orders : List Order
  open_orders = select_ascending text_before (is_listed exchange market_type route t) t t.orders

  abbrev rest_after : Option (ℕ × String) → List Order
  rest_after cursor = filter_if (is_after text_before cursor) open_orders

  module _ (m : ℕ) (valid : All (λ o. normalize_order "" o ≡ ok o) open_orders) where
    select_page_lem :
        (cursor : Option (ℕ × String))
        → select_page text_before exchange market_type route (suc m) cursor t
          ≡ take (suc m) (rest_after cursor)
    unfolding select_page
    select_page_lem cursor = ap (take (suc m)) (
        select-filtered text_before order t (is_listed exchange market_type route t)
          (is_after text_before cursor) t.orders keyed)

    page_lem :
        (cursor : Option (ℕ × String)) (w : World)
        → IsQuiet t w
        → list_non_terminal_joined_orders_page text_before exchange market_type route
            (suc m)
            cursor
            w
          ≡ (ok (take (suc m) (rest_after cursor)), (statement w).1)
    unfolding list_non_terminal_joined_orders_page ◌>>=◌ statement gets
    page_lem cursor w q =
        rw (q.answers w.postgres_calls, q.tables_are, select_page_lem cursor)
          (validate_all_lem (take (suc m) (rest_after cursor)) _ (
            All-take (λ o. normalize_order "" o ≡ ok o) (suc m) (rest_after cursor)
              (All-kept (λ o. normalize_order "" o ≡ ok o) (is_after text_before cursor) open_orders
                valid)))

    quiet_lem : (w : World) → IsQuiet t w → IsQuiet t (statement w).1
    unfolding statement
    quiet_lem w q = record { tables_are = q.tables_are; answers = q.answers }

  All-after : (xs : List Order) → All (λ o. is_after text_before none o ≡ true) xs
  unfolding is_after
  All-after [] = tt
  All-after (x ∷ xs) = (refl, All-after xs)

  module _ (m : ℕ) (cursor : Option (ℕ × String)) (o : Order) (rest : List Order)
      (found : rest_after cursor ≡ o ∷ rest) where
    last_is_after : is_after text_before cursor (last_of o (take m rest)) ≡ true
    last_is_after =
        let all = subst (All (λ x. is_after text_before cursor x ≡ true)) found (
          All-filter_if (λ x. is_after text_before cursor x ≡ true) (is_after text_before cursor)
            open_orders (λ x e. e)) in
        last_holds text_before order (λ x. is_after text_before cursor x ≡ true) m o rest all.0
          all.1

    -- The cursor after a page leaves what the page left.
    next_rest : rest_after (cursor_at text_before (last_of o (take m rest))) ≡ drop m rest
    next_rest =
        sym (
          filter_if-filter_if (before text_before order (last_of o (take m rest)))
            (is_after text_before cursor) open_orders
            (λ x e.
              after_trans text_before order cursor (last_of o (take m rest)) x last_is_after e))
        ∙ ap (filter_if (before text_before order (last_of o (take m rest)))) found
        ∙ after_page text_before order m o rest (
            subst (Ascending text_before order) found (
              Ascending-kept text_before order (is_after text_before cursor) open_orders (
                select-Ascending text_before order t (is_listed exchange market_type route t)
                  t.orders keyed)))

  module _ (m : ℕ) (valid : All (λ o. normalize_order "" o ≡ ok o) open_orders)
      (body : List Order → Action (Unit {0}))
      (reads : (batch : List Order) (w : World) → body batch w ≡ (ok tt, w)) where
    abbrev run : ℕ → Option (ℕ × String) → Action (List (List Order))
    run = iter_open_order_batches text_before exchange market_type route (suc m) false body

    abbrev Yields : ℕ → Option (ℕ × String) → World → Type 0
    Yields fuel cursor w =
        (batches : List (List Order)) × ((run fuel cursor w).0 ≡ ok batches)
        × (concat batches ≡ rest_after cursor)

    Yields-page :
        (fuel : ℕ) (cursor : Option (ℕ × String)) (w : World) (page : List Order)
        → IsQuiet t w
        → rest_after cursor ≡ page
        → ((cursor' : Option (ℕ × String)) (w' : World)
            → IsQuiet t w'
            → suc (length (rest_after cursor')) ≤ length (rest_after cursor)
            → Yields fuel cursor' w')
        → Yields (suc fuel) cursor w
    unfolding iter_open_order_batches ◌>>=◌ refresh_batch pure
    Yields-page fuel cursor w [] q e ih = ([], rw (page_lem m valid cursor w q, e) refl, sym e)
    Yields-page fuel cursor w (o ∷ rest) q e ih =
        let more =
          ih (cursor_at text_before (last_of o (take m rest))) (statement w).1
            (quiet_lem m valid w q)
            (omega
              (arith, ap length e, ap length (next_rest m cursor o rest e), length-drop m rest)) in
        (
          (o ∷ take m rest) ∷ more.0,
          rw (page_lem m valid cursor w q, e, reads (o ∷ take m rest) (statement w).1, more.1) refl,
          ap (λ xs. o ∷ (take m rest ++ xs)) (more.2 ∙ next_rest m cursor o rest e)
              ∙ ap (λ xs. o ∷ xs) (take-drop m rest)
              ∙ sym e,
        )

    Yields-all :
        (fuel : ℕ) (cursor : Option (ℕ × String)) (w : World)
        → IsQuiet t w
        → suc (length (rest_after cursor)) ≤ fuel
        → Yields fuel cursor w
    Yields-all zero cursor w q h = absurd (omega arith)
    Yields-all (suc fuel) cursor w q h =
        Yields-page fuel cursor w (rest_after cursor) q refl
          (λ cursor' w' q' s. Yields-all fuel cursor' w' q' (omega arith))

    -- In pages of at least one order, without a refresh of the projections: if ids are the key of the
    -- table, the collation is a strict order, every listed row passes the validator unchanged, the
    -- body only reads, nobody else writes the tables and the database answers, the generator ends,
    -- with fuel for one more page than there are open orders, and its batches together hold each order
    -- that is listed once and no other order.
    pub open_orders_are_paged :
        (fuel : ℕ) (w : World)
        → IsQuiet t w
        → suc (length open_orders) ≤ fuel
        → (batches : List (List Order)) × ((run fuel none w).0 ≡ ok batches)
          × ((k : String)
              → count_if (λ o. o.order_id == k) (concat batches)
                ≡ times_listed (is_listed exchange market_type route t) (find_joined k t))
    unfolding is_after
    open_orders_are_paged fuel w q h =
        let all = filter_if-All (is_after text_before none) open_orders (All-after open_orders) in
        let r = Yields-all fuel none w q (omega (arith, ap length all)) in
        (
          r.0,
          r.1,
          λ k.
              ap (count_if (λ (o : Order). o.order_id == k)) (r.2 ∙ all)
              ∙ count-select text_before order t (is_listed exchange market_type route t) k keyed,
        )

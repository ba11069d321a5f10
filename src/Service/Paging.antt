-- ===== src/Service/Paging.antt =====
-- The pages of open orders together are the open orders.
use crypto_derivative_algo_t.Prelude.{
  ℕ, ◌+◌, String, ◌≡◌, ◌≢◌, refl, sym, ap, ◌∙◌, Bool, ◌&&◌, Option, none, some, List, [], ◌∷◌, ◌==◌,
  string_eq, if◌then◌else◌, filter_if, All, All-map, Bool-cases, inl, inr, arith, count_if, ==_iff,
  is_some,
}
use crypto_derivative_algo_t.Schema.Order.{Order}
use crypto_derivative_algo_t.Store.Tables.{Tables, OrderRow, find_order}
use crypto_derivative_algo_t.Service.Repository.{find_joined}
use crypto_derivative_algo_t.Service.Loads.{find_joined-IsCurrent}
use crypto_derivative_algo_t.Service.Pages.{insert_ascending, add_passing, select_ascending}
use crypto_derivative_algo_t.Service.Ascending.{
  IsTextOrder, Ascending, All-insert, insert-Ascending, filter_if-insert,
}

-- `order_id` is the key of the table.
abbrev pub IsKeyed : List OrderRow → Type 0
IsKeyed [] = Unit {0}
IsKeyed (r ∷ rows) = All (λ s. r.order_id ≢ s.order_id) rows × IsKeyed rows

module _ (text_before : String → String → Bool) (order : IsTextOrder text_before) (t : Tables) where
  module _ (p : Order → Bool) where
    add-ids :
        (k i : String) (found : Option Order) (rest : List Order)
        → k ≢ i
        → find_joined i t ≡ found
        → All (λ o. k ≢ o.order_id) rest
        → All (λ o. k ≢ o.order_id) (add_passing text_before p found rest)
    add-ids k i none rest d f h = h
    add-ids k i (some o) rest d f h = elim (Bool-cases (p o)) [
      | inl e ↦ rw e (
          All-insert text_before order (λ q. k ≢ q.order_id) o rest
            (λ s. d (s ∙ (find_joined-IsCurrent i t o f).0)) h)
      | inr e ↦ rw e h
    ]

    select-ids :
        (k : String) (rows : List OrderRow)
        → All (λ s. k ≢ s.order_id) rows
        → All (λ o. k ≢ o.order_id) (select_ascending text_before p t rows)
    unfolding select_ascending
    select-ids k [] h = tt
    select-ids k (r ∷ rows) (h, hs) = add-ids k r.order_id _ _ h refl (select-ids k rows hs)

    add-Ascending :
        (i : String) (found : Option Order) (rest : List Order)
        → find_joined i t ≡ found
        → All (λ o. i ≢ o.order_id) rest
        → Ascending text_before order rest
        → Ascending text_before order (add_passing text_before p found rest)
    add-Ascending i none rest f d h = h
    add-Ascending i (some o) rest f d h = elim (Bool-cases (p o)) [
      | inl e ↦ rw e (
          insert-Ascending text_before order o rest
            (All-map (λ q. i ≢ q.order_id) (λ q. o.order_id ≢ q.order_id) rest
              (λ q n s. n (sym (find_joined-IsCurrent i t o f).0 ∙ s)) d)
            h)
      | inr e ↦ rw e h
    ]

    pub select-Ascending :
        (rows : List OrderRow)
        → IsKeyed rows
        → Ascending text_before order (select_ascending text_before p t rows)
    unfolding select_ascending
    select-Ascending [] h = tt
    select-Ascending (r ∷ rows) (h, hs) =
        add-Ascending r.order_id _ _ refl (select-ids r.order_id rows h) (select-Ascending rows hs)

  module _ (p q : Order → Bool) where
    add-filtered :
        (found : Option Order) (rest : List Order)
        → Ascending text_before order rest
        → add_passing text_before (λ o. p o && q o) found (filter_if q rest)
          ≡ filter_if q (add_passing text_before p found rest)
    add-filtered none rest h = refl
    add-filtered (some o) rest h = ground (arith, filter_if-insert text_before order q o rest h)

    -- A condition more in the WHERE filters the list.
    pub select-filtered :
        (rows : List OrderRow)
        → IsKeyed rows
        → select_ascending text_before (λ o. p o && q o) t rows
          ≡ filter_if q (select_ascending text_before p t rows)
    unfolding select_ascending
    select-filtered [] h = refl
    select-filtered (r ∷ rows) (h, hs) =
        ap (add_passing text_before (λ o. p o && q o) (find_joined r.order_id t))
          (select-filtered rows hs)
        ∙ add-filtered (find_joined r.order_id t) (select_ascending text_before p t rows)
            (select-Ascending p rows hs)

count-insert :
    (text_before : String → String → Bool) (q : Order → Bool) (o : Order) (xs : List Order)
    → count_if q (insert_ascending text_before o xs) ≡ (if q o then 1 else 0) + count_if q xs
unfolding insert_ascending
count-insert text_before q o [] = refl
count-insert text_before q o (p ∷ rest) = ground (arith, count-insert text_before q o rest)

count-absent :
    (k : String) (xs : List Order)
    → All (λ o. k ≢ o.order_id) xs
    → count_if (λ o. o.order_id == k) xs ≡ 0
count-absent k [] h = refl
count-absent k (o ∷ rest) (h, hs) = ground (arith, ==_iff o.order_id k, count-absent k rest hs)

-- How often an order is to be listed: once if it passes the test, and never if there is none.
abbrev pub times_listed : (Order → Bool) → Option Order → ℕ
times_listed test none = 0
times_listed test (some o) = if test o then 1 else 0

module _ (text_before : String → String → Bool) (order : IsTextOrder text_before) (t : Tables)
    (p : Order → Bool) (k : String) where
  count-add_own :
      (found : Option Order) (rest : List Order)
      → find_joined k t ≡ found
      → All (λ o. k ≢ o.order_id) rest
      → count_if (λ o. o.order_id == k) (add_passing text_before p found rest)
        ≡ times_listed p found
  count-add_own none rest f h = count-absent k rest h
  count-add_own (some o) rest f h = ground (
    arith,
    ==_iff o.order_id k,
    (find_joined-IsCurrent k t o f).0,
    count-absent k rest h,
    count-insert text_before (λ o. o.order_id == k) o rest,
  )

  count-add_other :
      (i : String) (found : Option Order) (rest : List Order)
      → i ≢ k
      → find_joined i t ≡ found
      → count_if (λ o. o.order_id == k) (add_passing text_before p found rest)
        ≡ count_if (λ o. o.order_id == k) rest
  count-add_other i none rest d f = refl
  count-add_other i (some o) rest d f = ground (
    arith,
    ==_iff o.order_id k,
    (find_joined-IsCurrent i t o f).0,
    count-insert text_before (λ o. o.order_id == k) o rest,
  )

  own_row :
      (r : OrderRow) (rows : List OrderRow)
      → All (λ s. r.order_id ≢ s.order_id) rows
      → r.order_id ≡ k
      → count_if
          (λ o. o.order_id == k)
          (add_passing text_before p
            (find_joined r.order_id t)
            (select_ascending text_before p t rows))
        ≡ times_listed p (find_joined k t)
  own_row r rows h e =
      count-add_own (find_joined r.order_id t) (select_ascending text_before p t rows)
        (ap (λ j. find_joined j t) (sym e))
        (select-ids text_before order t p k rows (
          All-map (λ s. r.order_id ≢ s.order_id) (λ s. k ≢ s.order_id) rows (λ s d f. d (e ∙ f)) h))
      ∙ ap (λ j. times_listed p (find_joined j t)) e

  count-rows :
      (rows : List OrderRow)
      → IsKeyed rows
      → count_if (λ o. o.order_id == k) (select_ascending text_before p t rows)
        ≡ (if is_some (find_order k rows) then times_listed p (find_joined k t) else 0)
  unfolding select_ascending find_order
  count-rows [] h = refl
  count-rows (r ∷ rows) (h, hs) = elim (Bool-cases (r.order_id == k)) [
    | inl own ↦ rw own (own_row r rows h ((==_iff r.order_id k).0 own))
    | inr other ↦ rw other (
        count-add_other r.order_id _ _ (λ s. cc (other, (==_iff r.order_id k).1 s)) refl
        ∙ count-rows rows hs)
  ]

  -- Each order that passes is selected once.
  pub count-select :
      IsKeyed t.orders
      → count_if (λ o. o.order_id == k) (select_ascending text_before p t t.orders)
        ≡ times_listed p (find_joined k t)
  unfolding find_joined
  count-select h = ground (arith, count-rows t.orders h)

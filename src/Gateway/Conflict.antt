-- ===== src/Gateway/Conflict.antt =====
-- Writers of one order, and reading back what was written.
use crypto_derivative_algo_t.Prelude.{
  ℕ, ◌≤◌, ◌<◌, String, ◌≡◌, refl, sym, subst, ◌∙◌, ap, ◌⊎◌, inl, inr, Bool, some, List, [], ◌∷◌,
  All, ◌==◌, string_eq, ==_iff, same_refl, arith, if◌then◌else◌,
}
use crypto_derivative_algo_t.Schema.Enums.{OrderStatus}
use crypto_derivative_algo_t.Schema.Order.{Order}
use crypto_derivative_algo_t.Failure.{Result, ok, err}
use crypto_derivative_algo_t.Store.Tables.{
  Tables, OrderRow, find_order, joined, rewritten, numeric_terms,
}
use crypto_derivative_algo_t.Store.Rows.{find_order-update_order}
use crypto_derivative_algo_t.Store.Action.{World}
use crypto_derivative_algo_t.Service.Repository.{find_joined}
use crypto_derivative_algo_t.Service.Agreement.{row_version}
use crypto_derivative_algo_t.Gateway.Transition.{Update, set_status}
use crypto_derivative_algo_t.Gateway.StatusChange.{Written, StatusPost, set_status_post}

-- The rows after a write.
pub row-Written :
    (o p : Order) (status : OrderStatus) (m : Bool) (t t' : Tables) (k : String)
    → (c : Written o status m p t t')
    → find_order k t'.orders
      ≡ (if o.order_id == k then some (rewritten p.progress c.row) else find_order k t.orders)
row-Written o p status m t t' k c =
    ap (λ z. find_order k z.orders) c.tables_are
    ∙ find_order-update_order o.order_id k o.version p.progress c.row t.orders c.found c.known

-- One call of `_set_status`.
pub record Write : Type 0 where
  pub order : Order
  pub status : OrderStatus
  pub use_machine : Bool
  pub protect_terminal : Bool
  pub fields : List Update

-- Writers of one order, one after the other, each with its own copy.
unfoldable pub run_writes : List Write → World → World
run_writes [] w = w
run_writes (x ∷ rest) w =
    run_writes rest (set_status x.order x.status x.use_machine x.protect_terminal x.fields w).1

-- One of the writers has made the tables what they are now.
abbrev pub WroteOne : List Write → Tables → Tables → Type 0
WroteOne [] t t' = ⊥
WroteOne (x ∷ rest) t t' =
    ((p : Order) × Written x.order x.status x.use_machine p t t') ⊎ WroteOne rest t t'

module _ (k : String) (v : ℕ) where
  -- A copy of the order of this version, or of an older one.
  abbrev pub IsCopyOf : Write → Type 0
  IsCopyOf x = (x.order.order_id ≡ k) × (x.order.version ≤ v)

  abbrev IsBehind : Tables → Type 0
  IsBehind t = (row : OrderRow) × (find_order k t.orders ≡ some row) × (v < row.version)

  stale_write :
      (x : Write) (w : World)
      → IsCopyOf x
      → IsBehind w.tables
      → (set_status x.order x.status x.use_machine x.protect_terminal x.fields w).1.tables
        ≡ w.tables
  stale_write x w c (row, f, newer) =
      by_result (set_status x.order x.status x.use_machine x.protect_terminal x.fields w)
        (set_status_post x.order x.status x.use_machine x.protect_terminal x.fields w)
    where
      by_result :
          (r : Result Order × World)
          → StatusPost x.order x.status x.use_machine x.protect_terminal w.tables r
          → r.1.tables ≡ w.tables
      by_result (ok p, w') (inl d) =
          absurd
            (ground (arith, d.found, d.known, f, c, ap (λ j. find_order j w.tables.orders) c.0))
      by_result (ok p, w') (inr (s, h)) = s
      by_result (err e, w') s = s

  stale_writes :
      (xs : List Write) (w : World)
      → All IsCopyOf xs
      → IsBehind w.tables
      → (run_writes xs w).tables ≡ w.tables
  unfolding run_writes
  stale_writes [] w h b = refl
  stale_writes (x ∷ rest) w (h, hs) b =
      stale_writes rest _ hs (subst IsBehind (sym (stale_write x w h b)) b) ∙ stale_write x w h b

  Written-IsBehind :
      (x : Write) (p : Order) (t t' : Tables)
      → IsCopyOf x
      → v ≤ row_version (find_order k t.orders)
      → Written x.order x.status x.use_machine p t t'
      → IsBehind t'
  Written-IsBehind x p t t' c at_least d = (
    rewritten p.progress d.row,
    row-Written x.order p x.status x.use_machine t t' k d
        ∙ ground (arith, ==_iff x.order.order_id k, c),
    ground (arith, d.found, d.known, c, ap (λ j. row_version (find_order j t.orders)) c.0),
  )

  -- However many callers of `_set_status` have read an order at one version or earlier, at most one
  -- of them changes the tables: once one has written, all later ones leave the tables as that one
  -- left them, whether they consult the state machine or not.
  pub one_writer_wins :
      (xs : List Write) (w : World)
      → All IsCopyOf xs
      → v ≤ row_version (find_order k w.tables.orders)
      → ((run_writes xs w).tables ≡ w.tables) ⊎ WroteOne xs w.tables (run_writes xs w).tables
  unfolding run_writes
  one_writer_wins [] w h at_least = inl refl
  one_writer_wins (x ∷ rest) w (h, hs) at_least =
      by_result (set_status x.order x.status x.use_machine x.protect_terminal x.fields w)
        (set_status_post x.order x.status x.use_machine x.protect_terminal x.fields w)
        (one_writer_wins rest
          (set_status x.order x.status x.use_machine x.protect_terminal x.fields w).1 hs)
    where
      kept :
          (w' : World)
          → w'.tables ≡ w.tables
          → (v ≤ row_version (find_order k w'.tables.orders)
              → ((run_writes rest w').tables ≡ w'.tables)
                ⊎ WroteOne rest w'.tables (run_writes rest w').tables)
          → ((run_writes rest w').tables ≡ w.tables)
            ⊎ WroteOne (x ∷ rest) w.tables (run_writes rest w').tables
      kept w' s ih =
          elim (subst
            (λ t. ((run_writes rest w').tables ≡ t) ⊎ WroteOne rest t (run_writes rest w').tables) s
            (ih (subst (λ t. v ≤ row_version (find_order k t.orders)) (sym s) at_least))) [
              | inl e ↦ inl e
              | inr e ↦ inr (inr e)
            ]

      by_result :
          (r : Result Order × World)
          → StatusPost x.order x.status x.use_machine x.protect_terminal w.tables r
          → (v ≤ row_version (find_order k r.1.tables.orders)
              → ((run_writes rest r.1).tables ≡ r.1.tables)
                ⊎ WroteOne rest r.1.tables (run_writes rest r.1).tables)
          → ((run_writes rest r.1).tables ≡ w.tables)
            ⊎ WroteOne (x ∷ rest) w.tables (run_writes rest r.1).tables
      by_result (ok p, w') (inl d) ih = inr (
          inl (
            p,
            subst (Written x.order x.status x.use_machine p w.tables)
                (sym
                  (stale_writes rest w' hs (Written-IsBehind x p w.tables w'.tables h at_least d)))
                d,
          ))
      by_result (ok p, w') (inr (s, u)) ih = kept w' s ih
      by_result (err e, w') s ih = kept w' s ih

-- If the tables held exactly the copy that a write started from, they then hold exactly the order
-- that it wrote.
pub update_reads_back :
    (o p : Order) (status : OrderStatus) (m : Bool) (t t' : Tables)
    → Written o status m p t t'
    → find_joined o.order_id t ≡ some o
    → find_joined o.order_id t' ≡ some p
unfolding find_joined joined
update_reads_back o p status m t t' c h = ground (
  arith,
  row-Written o p status m t t' o.order_id c,
  c.known,
  c.found,
  c.same_order,
  h,
  same_refl o.order_id,
  ap (λ z. z.intents) c.tables_are,
)

-- The order that is read back: PostgreSQL gives the quantity and the prices as it writes numbers.
abbrev pub as_stored : (String → String) → Order → Order
as_stored as_numeric o = record o { terms = numeric_terms as_numeric o.terms }

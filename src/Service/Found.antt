-- ===== src/Service/Found.antt =====
-- The orders that the methods of OrderStateService find are current: no newer than their rows, and
-- of the same status if they are as new.
use crypto_derivative_algo_t.Prelude.{
  String, ◌≡◌, refl, sym, subst, if◌then◌else◌, ap, ◌∙◌, Bool, true, false, Option, none, some,
  string_eq, arith,
}
use crypto_derivative_algo_t.Schema.Order.{Order}
use crypto_derivative_algo_t.Failure.{Result, ok}
use crypto_derivative_algo_t.Store.Tables.{Tables, find_order}
use crypto_derivative_algo_t.Store.Redis.{Live, read_hash}
use crypto_derivative_algo_t.Store.Action.{World, pure, ◌>>◌}
use crypto_derivative_algo_t.Service.Repository.{
  find_joined, get_joined_order, model_validate, read_live, get, save,
}
use crypto_derivative_algo_t.Service.OrderState.{
  refresh_if, refresh_order_projection, from_row, from_projection, load_order_from_postgres,
  load_order,
}
use crypto_derivative_algo_t.Service.Keeps.{
  Keeps, Keeps-lift, Keeps-lift_bind, Keeps-bind, Keeps-pure, Keeps-gets, Keeps-ignore_errors,
  Keeps-statement, Keeps-redis_call, IsStorage,
}
use crypto_derivative_algo_t.Service.Reads.{TablesAre, save-TablesAre, load_order-TablesAre}
use crypto_derivative_algo_t.Service.Agreement.{
  IsConsistent, IsConsistent-storage, IsCurrent, row_version, save-IsConsistent,
}
use crypto_derivative_algo_t.Service.Loads.{
  find_joined-IsCurrent, normalize_order-IsCurrent, load_order-IsConsistent,
}
use crypto_derivative_algo_t.Service.Finds.{
  Finds, Finds-none, Finds-some, Finds-try_except, Finds-bind, Finds-lift_bind,
}

-- A world that agrees, and whose tables are these.
pub record Holds (t : Tables) (w : World) : Type 0 where
  pub consistent : IsConsistent w
  pub tables_are : w.tables ≡ t

pub Holds-storage : (t : Tables) → IsStorage (Holds t)
Holds-storage t = record {
  carry = λ w w' a b h. record {
    consistent = IsConsistent-storage.carry w w' a b h.consistent;
    tables_are = a ∙ h.tables_are;
  };
}

module _ {A : Type 0} {t : Tables} where
  pub Keeps-Holds :
      (m : World → Result A × World)
      → Keeps IsConsistent m
      → Keeps (TablesAre t) m
      → Keeps (Holds t) m
  Keeps-Holds m k l = record {
    keeps =
        λ w h. record { consistent = k.keeps w h.consistent; tables_are = l.keeps w h.tables_are };
  }

-- The order that a hash in Redis spells.
hash-IsCurrent :
    (k : String) (w : World) (l : Live)
    → IsConsistent w
    → w.redis.live k ≡ some l
    → IsCurrent w.tables.orders (read_hash l.order)
unfolding read_hash
hash-IsCurrent k w l h f = record {
  not_newer = ground (
    arith,
    h.projection_behind k,
    ap (λ j. row_version (find_order j w.tables.orders)) (h.copies_agree.keyed k l f),
  );
  agrees = λ r g v.
      h.copies_agree.same_status k l r f
        (ap (λ j. find_order j w.tables.orders) (sym (h.copies_agree.keyed k l f)) ∙ g) v;
}

live-IsCurrent :
    (k : String) (w : World) (o : Order)
    → IsConsistent w
    → read_live (w.redis.live k) ≡ some o
    → IsCurrent w.tables.orders o
unfolding read_live
live-IsCurrent k w o h e = by_hash (w.redis.live k) refl e
  where
    by_hash :
        (l : Option Live) → w.redis.live k ≡ l → read_live l ≡ some o → IsCurrent w.tables.orders o
    by_hash none f e = cc
    by_hash (some l) f e = subst (IsCurrent w.tables.orders) (cc (e)) (hash-IsCurrent k w l h f)

-- What the two reads return.
joined_lem :
    (k : String) (w : World) (t : Tables)
    → w.tables ≡ t
    → (found : Option Order) → (get_joined_order k w).0 ≡ ok found
    → find_joined k t ≡ found
unfolding get_joined_order
joined_lem k w t s found e = ground arith

hash_lem :
    (k : String) (w : World) (found : Option Order)
    → (get k w).0 ≡ ok found
    → read_live (w.redis.live k) ≡ found
unfolding get
hash_lem k w found e = ground arith

module _ (t : Tables) where
  save-Holds : (o : Order) → IsCurrent t.orders o → Keeps (Holds t) (save o)
  save-Holds o c = record {
    keeps = λ w h. record {
      consistent =
          save-IsConsistent o w (subst (λ (x : Tables). IsCurrent x.orders o) (sym h.tables_are) c)
            h.consistent;
      tables_are = (save-TablesAre t o).keeps w h.tables_are;
    };
  }

  refresh_if-Holds :
      (refresh : Bool) (o : Order) → IsCurrent t.orders o → Keeps (Holds t) (refresh_if refresh o)
  unfolding refresh_order_projection
  refresh_if-Holds true o c = Keeps-ignore_errors _ (save-Holds o c)
  refresh_if-Holds false o c = Keeps-pure _

  pub strictly-Holds :
      (refresh : Bool) (o : Order)
      → IsCurrent t.orders o
      → Keeps (Holds t) (if refresh then refresh_order_projection o >> pure tt else pure tt)
  unfolding refresh_order_projection
  strictly-Holds true o c = Keeps-bind _ _ (save-Holds o c) (λ _. Keeps-pure _)
  strictly-Holds false o c = Keeps-pure _

  -- The row that was read is validated, and its projection may be refreshed.
  pub from_row-Finds :
      (refresh : Bool) (found : Option Order)
      → ((o : Order) → found ≡ some o → IsCurrent t.orders o)
      → Finds (Holds t) (IsCurrent t.orders) (from_row refresh found)
  unfolding from_row model_validate
  from_row-Finds refresh none c = Finds-none
  from_row-Finds refresh (some row) c = Finds-lift_bind _ _ (λ o e.
      let now = normalize_order-IsCurrent t.orders row o e (c row refl) in
      Finds-bind _ _ (refresh_if-Holds refresh o now) (λ w u p q. Finds-some o now))

  pub from_row-Holds :
      (refresh : Bool) (found : Option Order)
      → ((o : Order) → found ≡ some o → IsCurrent t.orders o)
      → Keeps (Holds t) (from_row refresh found)
  unfolding from_row model_validate
  from_row-Holds refresh none c = Keeps-pure _
  from_row-Holds refresh (some row) c = Keeps-lift_bind _ _ (λ o e.
      Keeps-bind _ _
        (refresh_if-Holds refresh o (normalize_order-IsCurrent t.orders row o e (c row refl)))
        (λ _. Keeps-pure _))

  get_joined_order-Holds : (k : String) → Keeps (Holds t) (get_joined_order k)
  unfolding get_joined_order
  get_joined_order-Holds k = Keeps-bind _ _ (Keeps-statement (Holds-storage t)) (λ _. Keeps-gets _)

  get-Holds : (k : String) → Keeps (Holds t) (get k)
  unfolding get
  get-Holds k = Keeps-bind _ _ (Keeps-redis_call (Holds-storage t)) (λ _. Keeps-gets _)

  load_order_from_postgres-Finds :
      (k : String) (refresh : Bool)
      → Finds (Holds t) (IsCurrent t.orders) (load_order_from_postgres k refresh)
  unfolding load_order_from_postgres
  load_order_from_postgres-Finds k refresh =
      Finds-bind _ _ (get_joined_order-Holds k) (λ w found h e.
        from_row-Finds refresh found
          (λ o f. (find_joined-IsCurrent k t o (joined_lem k w t h.tables_are found e ∙ f)).1))

  from_projection-Finds :
      (k : String) (refresh : Bool) (found : Option Order)
      → ((o : Order) → found ≡ some o → IsCurrent t.orders o)
      → Finds (Holds t) (IsCurrent t.orders) (from_projection k refresh found)
  unfolding from_projection model_validate
  from_projection-Finds k refresh none c = load_order_from_postgres-Finds k refresh
  from_projection-Finds k refresh (some row) c =
      Finds-try_except _ _ (Keeps-bind _ _ (Keeps-lift _) (λ _. Keeps-pure _))
        (Finds-lift_bind _ _
          (λ o e. Finds-some o (normalize_order-IsCurrent t.orders row o e (c row refl))))
        (λ _. load_order_from_postgres-Finds k refresh)

  -- Loading by the order's own id.
  pub load_order-Finds :
      (k : String) (refresh : Bool) → Finds (Holds t) (IsCurrent t.orders) (load_order k refresh)
  unfolding load_order
  load_order-Finds k refresh = Finds-bind _ _ (get-Holds k) (λ w found h e.
      from_projection-Finds k refresh found (λ o f.
        subst (λ (x : Tables). IsCurrent x.orders o) h.tables_are
          (live-IsCurrent k w o h.consistent (hash_lem k w found e ∙ f))))

  pub load_order-Holds : (k : String) (refresh : Bool) → Keeps (Holds t) (load_order k refresh)
  load_order-Holds k refresh =
      Keeps-Holds _ (load_order-IsConsistent k refresh) (load_order-TablesAre t k refresh)

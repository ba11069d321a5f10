-- ===== src/Gateway/Intake.antt =====
-- From an accepted request to the order that is created from it.
use crypto_derivative_algo_t.Prelude.{ℕ, String, ◌≡◌, ◌≢◌, refl, Option, none, some, string_eq}
use crypto_derivative_algo_t.Schema.Enums.{OrderRoute, OrderStatus, regular, conditional}
use crypto_derivative_algo_t.Schema.Order.{Origin, Order, OrderRequest}
use crypto_derivative_algo_t.Schema.Validate.{
  normalize_request, normalize_terms, normalize_order, client_ids, given_or_fresh,
}
use crypto_derivative_algo_t.Schema.Normal.{
  IsNormal, normalize_order-IsNormal, normalize_terms_iff, normalize_request-IsAccepted,
}
use crypto_derivative_algo_t.Failure.{ok}
use crypto_derivative_algo_t.Gateway.Transition.{internal_order, initial_progress}

-- The order that a request becomes.
pub record IsFromRequest (fresh : String) (now : ℕ) (req : OrderRequest) (origin : Origin)
    (o : Order) : Type 0 where
  pub normal : IsNormal o
  pub id_is : o.order_id ≡ fresh
  pub terms_are : o.terms ≡ req.terms
  pub origin_is : o.origin ≡ origin
  pub status_is : o.status ≡ OrderStatus.pending_new
  pub version_is : o.version ≡ 1
  pub created_is : (o.created_ts ≡ now) × (o.updated_ts ≡ now)

client_ids_keep :
    (r : Option OrderRoute) (o : Order)
    → ((client_ids r o).order_id ≡ o.order_id)
      × ((client_ids r o).terms ≡ o.terms)
      × ((client_ids r o).origin ≡ o.origin)
      × ((client_ids r o).status ≡ o.status)
      × ((client_ids r o).version ≡ o.version)
      × ((client_ids r o).created_ts ≡ o.created_ts)
      × ((client_ids r o).updated_ts ≡ o.updated_ts)
unfolding client_ids
client_ids_keep none o = (refl, refl, refl, refl, refl, refl, refl)
client_ids_keep (some regular) o = (refl, refl, refl, refl, refl, refl, refl)
client_ids_keep (some conditional) o = (refl, refl, refl, refl, refl, refl, refl)

built : String → ℕ → OrderRequest → Origin → Order
unfolding internal_order
built fresh now req origin =
    client_ids req.order_route (record (internal_order now req origin) { order_id = fresh })

accepted :
    (fresh : String) (now : ℕ) (req : OrderRequest) (origin : Origin)
    → normalize_terms req.terms ≡ ok req.terms
    → normalize_order fresh (internal_order now req origin) ≡ ok (built fresh now req origin)
unfolding normalize_order given_or_fresh internal_order built
accepted fresh now req origin e = rw e refl

-- Once a request has been accepted, the order built from it passes the validator of Order: it takes
-- the fresh id, if that is not empty, and the terms of the request, and starts as PENDING_NEW at
-- version 1.
pub internal_order_accepted :
    (fresh : String) (now : ℕ) (given req : OrderRequest) (origin : Origin)
    → fresh ≢ ""
    → normalize_request given ≡ ok req
    → (o : Order) × (normalize_order fresh (internal_order now req origin) ≡ ok o)
      × IsFromRequest fresh now req origin o
unfolding built internal_order initial_progress
internal_order_accepted fresh now given req origin f h =
    let w = (normalize_request-IsAccepted given req h).terms_well_formed in
    let e = accepted fresh now req origin ((normalize_terms_iff req.terms).1 w) in
    let keep =
      client_ids_keep req.order_route
        (record (internal_order now req origin) { order_id = fresh }) in
    (
      built fresh now req origin,
      e,
      record {
        normal = normalize_order-IsNormal fresh (internal_order now req origin) _ f e;
        id_is = keep.0;
        terms_are = keep.1;
        origin_is = keep.2;
        status_is = keep.3;
        version_is = keep.4;
        created_is = (keep.5, keep.6);
      },
    )

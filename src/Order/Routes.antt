-- ===== src/Order/Routes.antt =====
-- services/order-service/app/routes.py, with the guards of auth.py: one request that changes an
-- existing order, and the role or scope that it needs. A request without a token ends before.
use market_place_app.Prelude.{ℕ, String, Bool, Option, [], ◌∷◌, not}
use market_place_app.Prelude.Session.{◌>>◌, raise_if, service_error}
use market_place_app.Prelude.Principal.{Principal, has_role, has_scope}
use market_place_app.Order.Model.{
  Order, OrderDb, CancelOrder, PaymentAuthorized, PaymentFailed, PaymentRefunded, FulfillmentUpdate,
}
use market_place_app.Order.Clients.{Peers, forbidden}
use market_place_app.Order.Service.{
  cancel, payment_authorized_handler, payment_failed_handler, payment_refunded, fulfillment,
}
use market_place_app.Order.Transitions.{Handler}

pub data Request : Type 0 where
  cancel_order : CancelOrder → ℕ → Request
  authorized : PaymentAuthorized → Request
  failed : PaymentFailed → Request
  refunded : PaymentRefunded → Request
  fulfilled : FulfillmentUpdate → Request

-- `require_roles("buyer", "admin")`, `require_scope("orders:payment")` and
-- `require_scope("orders:fulfillment")`
unfoldable pub permitted : Request → Principal → Bool
permitted (cancel_order body version) p = has_role p ("buyer" ∷ "admin" ∷ [])
permitted (authorized body) p = has_scope p "orders:payment"
permitted (failed body) p = has_scope p "orders:payment"
permitted (refunded body) p = has_scope p "orders:payment"
permitted (fulfilled body) p = has_scope p "orders:fulfillment"

-- `others` is what other requests commit while a cancellation waits for the inventory.
module _ {W : Type 0} (peers : Peers W) (others : OrderDb → OrderDb) where
  unfoldable pub respond : ℕ → Request → Principal → String → Option String → Handler W Order
  respond k (cancel_order body version) p token rid = cancel peers others k body p token version rid
  respond k (authorized body) p token rid = payment_authorized_handler peers k body p token rid
  respond k (failed body) p token rid = payment_failed_handler peers k body p token rid
  respond k (refunded body) p token rid = payment_refunded k body p rid
  respond k (fulfilled body) p token rid = fulfillment k body p rid

  unfoldable pub serve : ℕ → Request → Principal → String → Option String → Handler W Order
  unfolding respond permitted
  serve k r p token rid = do
    raise_if (not (permitted r p)) (service_error 403 forbidden)
    respond k r p token rid

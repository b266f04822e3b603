-- ===== src/Market/OrderApi.antt =====
-- The order service as the shipping service meets it: services/order-service/app/
-- routes.py and exceptions.py over HTTP. A token's caller comes from the JWT library (`decode`).
use market_place_app.Prelude.{ℕ, String, Option, none, some, str_eq, if◌then◌else◌}
use market_place_app.Prelude.Session.{
  Result, ok, err, service_error, integrity_error, key_error, request,
}
use market_place_app.Prelude.Principal.{Principal}
use market_place_app.Order.Model.{OrderStatus, OrderDb}
use market_place_app.Order.Clients.{Error, Peers}
use market_place_app.Order.Routes.{Request, fulfilled, serve}
use market_place_app.Shipping.Clients as Shipping

-- `register_exception_handlers`: the status of an answer; an exception that has no handler is a
-- 500.
unfoldable pub http_status : {A : Type 0} → Result Error A → ℕ
http_status (ok a) = 200
http_status (err (service_error status code)) = status
http_status (err integrity_error) = 500
http_status (err key_error) = 500

-- `FulfillmentUpdate`: the statuses that its validator lets through.
unfoldable pub fulfillment_status : String → Option OrderStatus
fulfillment_status text =
    if str_eq text "processing"
    then some OrderStatus.processing
    else if str_eq text "shipped"
    then some OrderStatus.shipped
    else if str_eq text "delivered"
    then some OrderStatus.delivered
    else none

-- How a call over HTTP fares: it is answered, it never reaches the service, or the service acts and
-- its answer is lost (a timeout, a broken connection). The caller sees `none` of the last two.
pub data Fate : Type 0 where
  answered never_sent answer_lost : Fate

unfoldable pub arrive : {S : Type 0} → Fate → Option ℕ × S → S → Option ℕ × S
arrive answered t s = t
arrive never_sent t s = (none, s)
arrive answer_lost t s = (none, t.1)

module _ {V : Type 0} (peers : Peers V) (decode : String → Option Principal) where
  -- One fulfilment request to the order service, which takes the row lock, with the order service's own peers behind it.
  unfoldable pub call :
      ℕ → Request → String → Option String → OrderDb × V → Option ℕ × (OrderDb × V)
  call order body token request_id (d, v) = elim (decode token) [
    | none ↦ (some 401, (d, v))
    | some caller ↦
        let (r, d', v') = request (serve peers (λ db. db) order body caller token request_id) d v in
        (some (http_status r), (d', v'))
  ]

  -- `network` is how the connection fares.
  unfoldable pub post_fulfillment :
      (OrderDb × V → Fate)
      → ℕ
      → Shipping.Fulfillment
      → String
      → Option String
      → OrderDb × V
      → Option ℕ × (OrderDb × V)
  post_fulfillment network order body token request_id w = elim (fulfillment_status body.status) [
    | none ↦ arrive (network w) (some 422, w) w
    | some status ↦
        arrive (network w)
          (call order
            (fulfilled (record { status = status; shipment_reference = body.shipment_reference }))
            token request_id w)
          w
  ]

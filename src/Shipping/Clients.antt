-- ===== src/Shipping/Clients.antt =====
-- services/shipping-service/app/services/order_client.py and auth_client.py. The order service and
-- the auth service are a parameter: what an HTTP request answers, `none` for a failed connection.
use market_place_app.Prelude.{ℕ, String, Option, none, some, ◌==◌, leb, if◌then◌else◌}
use market_place_app.Prelude.Session.{Result, ok, err, Failure, service_error}

pub data Code : Type 0 where
  idempotency_conflict shipment_already_exists shipment_not_pending shipment_not_shipped : Code
  shipment_not_active shipment_not_found order_not_found invalid_order_transition : Code
  order_callback_failed order_unavailable auth_unavailable service_token_failed forbidden : Code

abbrev pub Error : Type 0
Error = Failure Code

-- The body of the fulfilment callback.
pub record Fulfillment : Type 0 where
  pub status : String
  pub shipment_reference : Option String
  pub occurred_at : Option ℕ

pub record Peers (W : Type 0) : Type 0 where
  pub post_fulfillment : ℕ → Fulfillment → String → Option String → W → Option ℕ × W
  -- A token request, or the cached token.
  pub post_service_token : W → Option (ℕ × String) × W

abbrev fail : {A : Type 0} → ℕ → Code → Result Error A
fail status code = err (service_error status code)

unfoldable pub read_fulfillment : Option ℕ → Result Error Unit
read_fulfillment none = fail 503 order_unavailable
read_fulfillment (some status) =
    if status == 404
    then fail 404 order_not_found
    else if status == 409
    then fail 409 invalid_order_transition
    else if leb 400 status
    then fail 502 order_callback_failed
    else ok tt

unfoldable pub read_token : Option (ℕ × String) → Result Error String
read_token none = fail 503 auth_unavailable
read_token (some (status, token)) =
    if leb 400 status then fail 502 service_token_failed else ok token

module _ {W : Type 0} (peers : Peers W) where
  unfoldable pub advance_fulfillment :
      ℕ → Fulfillment → String → Option String → W → Result Error Unit × W
  advance_fulfillment order body token request_id w =
      let (answer, w') = peers.post_fulfillment order body token request_id w in
      (read_fulfillment answer, w')

  unfoldable pub service_token : W → Result Error String × W
  service_token w = let (answer, w') = peers.post_service_token w in (read_token answer, w')

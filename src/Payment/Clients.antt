-- ===== src/Payment/Clients.antt =====
-- services/payment-service/app/services/order_client.py, auth_client.py and stripe_client.py: the
-- calls of the order service, the auth service and Stripe. Those are a parameter: what an HTTP
-- request answers, `none` for a failed connection or a StripeError.
use market_place_app.Prelude.{ℕ, String, Option, none, some, ◌+◌, ◌==◌, leb, if◌then◌else◌}
use market_place_app.Prelude.Session.{Result, ok, err, Failure, service_error}

pub data Code : Type 0 where
  idempotency_conflict payment_already_exists order_not_payable payment_not_found : Code
  payment_not_refundable refund_exceeds_remaining stripe_error order_not_found order_error : Code
  order_callback_failed order_unavailable auth_unavailable service_token_failed forbidden : Code

abbrev pub Error : Type 0
Error = Failure Code

pub record OrderSnapshot : Type 0 where
  pub status : String
  pub grand_total : ℕ
  pub currency_code : String

-- An amount that a caller gave, a `Decimal` of any number of places: whole cents, and what is left of
-- a cent.
pub data Rest : Type 0 where
  nothing below_half half_or_more : Rest

pub record Decimal : Type 0 where
  pub cents : ℕ
  pub rest : Rest

-- The bodies of the callbacks.
pub record Authorized : Type 0 where
  pub payment_reference : String
  pub authorized_amount : ℕ
  pub currency_code : String

pub record Failed : Type 0 where
  pub payment_reference : Option String
  pub reason : String

pub record Refunded : Type 0 where
  pub refunded_amount : Decimal
  pub currency_code : String
  pub reason : Option String

pub record StripePaymentIntent : Type 0 where
  pub id : String
  pub client_secret : Option String

-- The other services and Stripe, acting on their own state `W`.
pub record Peers (W : Type 0) : Type 0 where
  pub get_order : ℕ → String → W → Option (ℕ × OrderSnapshot) × W
  pub post_authorized : ℕ → Authorized → String → Option String → W → Option ℕ × W
  pub post_failed : ℕ → Failed → String → Option String → W → Option ℕ × W
  pub post_refunded : ℕ → Refunded → String → Option String → W → Option ℕ × W
  -- A token request, or the cached token.
  pub post_service_token : W → Option (ℕ × String) × W
  -- The amount, the currency, and the order and the customer of the metadata.
  pub create_intent : ℕ → String → ℕ → ℕ → W → Option StripePaymentIntent × W
  -- The amount in cents, or none for all that is left.
  pub create_provider_refund : String → Option ℕ → Option String → W → Option String × W

abbrev fail : {A : Type 0} → ℕ → Code → Result Error A
fail status code = err (service_error status code)

unfoldable pub read_order : Option (ℕ × OrderSnapshot) → Result Error OrderSnapshot
read_order none = fail 503 order_unavailable
read_order (some (status, order)) =
    if status == 404
    then fail 404 order_not_found
    else if leb 400 status
    then fail 502 order_error
    else ok order

unfoldable pub read_callback : Option ℕ → Result Error Unit
read_callback none = fail 503 order_unavailable
read_callback (some status) = if leb 400 status then fail 502 order_callback_failed else ok tt

unfoldable pub read_token : Option (ℕ × String) → Result Error String
read_token none = fail 503 auth_unavailable
read_token (some (status, token)) =
    if leb 400 status then fail 502 service_token_failed else ok token

-- Half up, to whole cents: `to_minor_units`, and how a column of two places stores an amount.
unfoldable pub to_minor_units : Decimal → ℕ
to_minor_units amount = elim amount.rest [
  | nothing ↦ amount.cents
  | below_half ↦ amount.cents
  | half_or_more ↦ amount.cents + 1
]

abbrev in_minor_units : Option Decimal → Option ℕ
in_minor_units none = none
in_minor_units (some amount) = some (to_minor_units amount)

abbrev or_stripe_error : {A : Type 0} → Option A → Result Error A
or_stripe_error none = fail 502 stripe_error
or_stripe_error (some a) = ok a

module _ {W : Type 0} (peers : Peers W) where
  unfoldable pub get_order : ℕ → String → W → Result Error OrderSnapshot × W
  get_order order token w =
      let (answer, w') = peers.get_order order token w in (read_order answer, w')

  unfoldable pub payment_authorized :
      ℕ → Authorized → String → Option String → W → Result Error Unit × W
  payment_authorized order body token request_id w =
      let (answer, w') = peers.post_authorized order body token request_id w in
      (read_callback answer, w')

  unfoldable pub payment_failed : ℕ → Failed → String → Option String → W → Result Error Unit × W
  payment_failed order body token request_id w =
      let (answer, w') = peers.post_failed order body token request_id w in
      (read_callback answer, w')

  unfoldable pub payment_refunded :
      ℕ → Refunded → String → Option String → W → Result Error Unit × W
  payment_refunded order body token request_id w =
      let (answer, w') = peers.post_refunded order body token request_id w in
      (read_callback answer, w')

  unfoldable pub service_token : W → Result Error String × W
  service_token w = let (answer, w') = peers.post_service_token w in (read_token answer, w')

  unfoldable pub create_payment_intent :
      ℕ → String → ℕ → ℕ → W → Result Error StripePaymentIntent × W
  create_payment_intent amount currency order customer w =
      let (answer, w') = peers.create_intent amount currency order customer w in
      (or_stripe_error answer, w')

  unfoldable pub create_refund_at_stripe :
      String → Option Decimal → Option String → W → Result Error String × W
  unfolding to_minor_units
  create_refund_at_stripe intent amount key w =
      let (answer, w') = peers.create_provider_refund intent (in_minor_units amount) key w in
      (or_stripe_error answer, w')

-- ===== src/Order/Clients.antt =====
-- services/order-service/app/clients.py: the calls of the other services. The services themselves
-- are a parameter: what an HTTP request answers, `none` for a failed connection (`RequestError`).
-- The cached token of auth_client.py is one such answer. Tracing headers are left out.
use market_place_app.Prelude.{
  ℕ, String, Bool, Option, none, some, List, ◌==◌, leb, ◌&&◌, ◌||◌, not, if◌then◌else◌,
}
use market_place_app.Prelude.Session.{Result, ok, err, Failure, service_error}

pub data Code : Type 0 where
  idempotency_conflict order_already_exists cart_ownership_error order_not_found : Code
  version_conflict order_not_cancellable invalid_order_state payment_amount_mismatch : Code
  invalid_order_transition cart_unavailable cart_not_available cart_mismatch : Code
  cart_version_conflict cart_not_ready cart_update_failed product_unavailable : Code
  product_not_available inventory_unavailable inventory_error inventory_commit_failed : Code
  inventory_release_failed auth_unavailable service_token_failed forbidden : Code

abbrev pub Error : Type 0
Error = Failure Code

pub record CartItemSnapshot : Type 0 where
  pub product_id : ℕ
  pub variant_id : ℕ
  pub sku : String
  pub product_name : String
  pub variant_name : String
  pub quantity : ℕ
  pub unit_price : ℕ
  pub product_version : ℕ

pub record CartSnapshot : Type 0 where
  pub id : ℕ
  pub customer_id : ℕ
  pub currency_code : String
  pub subtotal : ℕ
  pub version : ℕ
  pub items : List CartItemSnapshot

pub record Readiness : Type 0 where
  pub ready : Bool
  pub price_changed : Bool

pub record BatchReservationLine : Type 0 where
  pub sku : String
  pub quantity : ℕ
  pub seller_id : ℕ

pub record BatchReservationRequest : Type 0 where
  pub customer_id : ℕ
  pub cart_reference : ℕ
  pub order_reference : String
  pub expires_at : ℕ
  pub lines : List BatchReservationLine

-- The services behind the HTTP clients, acting on their own state `W`: the status of each answer,
-- with what the code reads of the body.
pub record Peers (W : Type 0) : Type 0 where
  pub get_cart : String → W → Option (ℕ × CartSnapshot) × W
  pub post_readiness : ℕ → String → W → Option (ℕ × Readiness) × W
  pub get_product_owner : ℕ → W → Option (ℕ × ℕ) × W
  pub post_batch : BatchReservationRequest → String → String → W → Option (ℕ × ℕ) × W
  pub post_commit : ℕ → String → String → W → Option ℕ × W
  pub post_release : ℕ → String → String → W → Option ℕ × W
  pub post_checked_out : ℕ → ℕ → ℕ → String → W → Option ℕ × W
  pub post_notification : ℕ → String → String → W → W
  -- The token request of auth_client.py, where the service is given one; a cached token is an
  -- answer too.
  pub post_service_token : Option (W → Option (ℕ × String) × W)

abbrev fail : {A : Type 0} → ℕ → Code → Result Error A
fail status code = err (service_error status code)

-- The rest of `CartClient.snapshot`, once both requests were answered.
unfoldable pub read_cart : ℕ → ℕ → ℕ × CartSnapshot → ℕ × Readiness → Result Error CartSnapshot
read_cart cart_id version (cart_status, cart) (ready_status, readiness) =
    if leb 400 cart_status
    then fail 422 cart_not_available
    else if not (cart.id == cart_id)
    then fail 409 cart_mismatch
    else if not (cart.version == version)
    then fail 409 cart_version_conflict
    else if leb 400 ready_status
    then fail 422 cart_not_ready
    else if not readiness.ready || readiness.price_changed
    then fail 409 cart_not_ready
    else ok cart

unfoldable pub read_owner : Option (ℕ × ℕ) → Result Error ℕ
read_owner none = fail 503 product_unavailable
read_owner (some (status, owner)) =
    if leb 400 status then fail 422 product_not_available else ok owner

unfoldable pub read_batch : Option (ℕ × ℕ) → Result Error ℕ
read_batch none = fail 503 inventory_unavailable
read_batch (some (status, group)) =
    if status == 409 || status == 422
    then fail 409 inventory_unavailable
    else if leb 400 status
    then fail 502 inventory_error
    else ok group

unfoldable pub read_commit : Option ℕ → Result Error Unit
read_commit none = fail 503 inventory_unavailable
read_commit (some status) = if leb 400 status then fail 502 inventory_commit_failed else ok tt

-- A 409 of the release endpoint counts as success.
unfoldable pub read_release : Option ℕ → Result Error Unit
read_release none = fail 503 inventory_unavailable
read_release (some status) =
    if leb 400 status && not (status == 409) then fail 502 inventory_release_failed else ok tt

unfoldable pub read_token : Option (ℕ × String) → Result Error String
read_token none = fail 503 auth_unavailable
read_token (some (status, token)) =
    if leb 400 status then fail 502 service_token_failed else ok token

unfoldable pub read_checked_out : Option ℕ → Result Error Unit
read_checked_out none = fail 503 cart_unavailable
read_checked_out (some status) = if leb 400 status then fail 502 cart_update_failed else ok tt

module _ {W : Type 0} (peers : Peers W) where
  unfoldable pub snapshot : ℕ → ℕ → String → W → Result Error CartSnapshot × W
  snapshot cart_id version token w =
      let (cart, w₁) = peers.get_cart token w in
      elim cart [
        | none ↦ (fail 503 cart_unavailable, w₁)
        | some c ↦
            let (ready, w₂) = peers.post_readiness version token w₁ in
            elim ready [
              | none ↦ (fail 503 cart_unavailable, w₂)
              | some r ↦ (read_cart cart_id version c r, w₂)
            ]
      ]

  unfoldable pub seller_for_product : ℕ → W → Result Error ℕ × W
  seller_for_product product w =
      let (answer, w') = peers.get_product_owner product w in (read_owner answer, w')

  unfoldable pub reserve_batch : BatchReservationRequest → String → String → W → Result Error ℕ × W
  reserve_batch body token key w =
      let (answer, w') = peers.post_batch body token key w in (read_batch answer, w')

  unfoldable pub commit_group : ℕ → String → String → W → Result Error Unit × W
  commit_group group reference token w =
      let (answer, w') = peers.post_commit group reference token w in (read_commit answer, w')

  unfoldable pub release_group : ℕ → String → String → W → Result Error Unit × W
  release_group group reason token w =
      let (answer, w') = peers.post_release group reason token w in (read_release answer, w')

  unfoldable pub mark_checked_out : ℕ → ℕ → ℕ → String → W → Result Error Unit × W
  mark_checked_out cart order customer token w =
      let (answer, w') = peers.post_checked_out cart order customer token w in
      (read_checked_out answer, w')

  -- `OrderService._service_token`: without an auth client the caller's token is forwarded.
  unfoldable pub service_token : String → W → Result Error String × W
  service_token fallback w = elim peers.post_service_token [
    | none ↦ (ok fallback, w)
    | some post ↦ let (answer, w') = post w in (read_token answer, w')
  ]

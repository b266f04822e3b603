-- ===== src/Order/Service.antt =====
-- services/order-service/app/service.py: the handlers that act on one order. `Checkout` has
-- `create`. The row lock of `_locked` is why the handlers that take it read the order once; `cancel`
-- reads without it, so `others` may commit while it waits for the inventory.
use market_place_app.Prelude.{
  ℕ, String, Option, none, some, [], ◌∷◌, ◌==◌, ltb, ◌&&◌, ◌||◌, not, str_eq, if◌then◌else◌,
}
use market_place_app.Prelude.Table.{get}
use market_place_app.Prelude.Session.{
  pure, query, or_raise, remote, ◌>>=◌, ◌>>◌, raise_if, modify, commit, service_error,
  integrity_error, interleave,
}
use market_place_app.Prelude.Principal.{Principal, has_role}
use market_place_app.Order.Model.{
  OrderStatus, pending_payment, confirmed, cancelled, payment_failed, status_eq, PaymentStatus,
  Order, OrderDb, CancelOrder, PaymentAuthorized, PaymentFailed, PaymentRefunded, FulfillmentUpdate,
}
use market_place_app.Order.Clients.{
  order_not_found, version_conflict, order_not_cancellable, invalid_order_state,
  payment_amount_mismatch, invalid_order_transition, Peers, commit_group, release_group,
  service_token,
}
use market_place_app.Order.Transitions.{
  Handler, advanced, allowed, audit, cancellable, event, is_allowed, refund_row, refundable, save,
  write_transition,
}

module _ {W : Type 0} where
  -- `_locked`
  unfoldable pub locked : ℕ → Handler W Order
  locked order_id = do
    found ← query (λ db. get order_id db.orders)
    or_raise found (service_error 404 order_not_found)

  unfoldable pub customer_order : ℕ → Principal → Handler W Order
  customer_order order_id principal = do
    found ← query (λ db. get order_id db.orders)
    o ← or_raise found (service_error 404 order_not_found)
    raise_if (not (o.customer_id == principal.subject) && not (has_role principal ("admin" ∷ [])))
        (service_error 404 order_not_found)
    pure o

  -- `_transition`, on a row that the handler may have changed before.
  unfoldable pub transition :
      ℕ → Order → OrderStatus → ℕ → Option String → Option String → Handler W Order
  transition order_id o new_status actor reason request_id = do
    modify (write_transition order_id o new_status actor reason request_id)
    pure (advanced o new_status)

  unfoldable pub payment_refunded :
      ℕ → PaymentRefunded → Principal → Option String → Handler W Order
  unfolding locked save event audit
  payment_refunded order_id body principal request_id = do
    o ← locked order_id
    raise_if (not (refundable o.payment_status)) (service_error 409 invalid_order_state)
    raise_if (not (str_eq body.currency_code o.currency_code))
        (service_error 422 payment_amount_mismatch)
    raise_if (ltb o.grand_total body.refunded_amount) (service_error 422 payment_amount_mismatch)
    let o' = refund_row o body
    modify (save order_id o')
    modify (event order_id o' "order.payment_refunded" request_id)
    modify (audit order_id o' principal.subject "order.payment_refunded" request_id)
    commit
    pure o'

  unfoldable pub fulfillment : ℕ → FulfillmentUpdate → Principal → Option String → Handler W Order
  unfolding locked transition
  fulfillment order_id body principal request_id = do
    o ← locked order_id
    raise_if (not (is_allowed (allowed o.status) body.status))
        (service_error 409 invalid_order_transition)
    o' ← transition order_id o body.status principal.subject body.shipment_reference request_id
    commit
    pure o'

module _ {W : Type 0} (peers : Peers W) where
  -- `if order.reservation_group_id: await self.inventory.release_group(...)`
  unfoldable pub release_held : Order → String → String → Handler W Unit
  release_held o reason token = elim o.reservation_group_id [
    | none ↦ pure tt
    | some group ↦ remote (release_group peers group reason token)
  ]

  unfoldable pub commit_held : Order → String → Handler W Unit
  commit_held o access_token = elim o.reservation_group_id [
    | none ↦ pure tt
    | some group ↦ do
      token ← remote (service_token peers access_token)
      remote (commit_group peers group o.order_number token)
  ]

  unfoldable pub release_held_as_service : Order → String → String → Handler W Unit
  release_held_as_service o reason access_token = elim o.reservation_group_id [
    | none ↦ pure tt
    | some group ↦ do
      token ← remote (service_token peers access_token)
      remote (release_group peers group reason token)
  ]

  -- `cancel`, once the order is known to be cancellable. History, event and audit are of the order
  -- as it was read; the UPDATE writes the columns that changed into the row as it is by then, and
  -- fails where there is none. The answer is the row, refreshed.
  unfoldable pub withdraw :
      (OrderDb → OrderDb)
      → ℕ
      → Order
      → CancelOrder
      → Principal
      → String
      → Option String
      → Handler W Order
  unfolding release_held transition save
  withdraw others order_id o body principal access_token request_id = do
    release_held o body.reason access_token
    interleave others
    found ← query (λ db. get order_id db.orders)
    row ← or_raise found integrity_error
    o' ← transition order_id o cancelled principal.subject (some body.reason) request_id
    let row' = record row {
      status = o'.status;
      version = o'.version;
      cancellation_reason = some body.reason;
    }
    modify (save order_id row')
    commit
    pure row'

  unfoldable pub cancel :
      (OrderDb → OrderDb)
      → ℕ
      → CancelOrder
      → Principal
      → String
      → ℕ
      → Option String
      → Handler W Order
  unfolding customer_order
  cancel others order_id body principal access_token expected_version request_id = do
    o ← customer_order order_id principal
    raise_if (not (o.version == expected_version)) (service_error 409 version_conflict)
    raise_if (not (cancellable o.status)) (service_error 409 order_not_cancellable)
    withdraw others order_id o body principal access_token request_id

  -- `payment_authorized`, once the order is known to await payment.
  unfoldable pub authorize :
      ℕ → Order → PaymentAuthorized → Principal → String → Option String → Handler W Order
  unfolding commit_held transition
  authorize order_id o body principal access_token request_id = do
    raise_if
        (not (str_eq body.currency_code o.currency_code)
          || not (body.authorized_amount == o.grand_total))
        (service_error 422 payment_amount_mismatch)
    commit_held o access_token
    let paid = record o {
      payment_status = PaymentStatus.authorized;
      payment_reference = some body.payment_reference;
    }
    o' ← transition order_id paid confirmed principal.subject (some "payment_authorized") request_id
    commit
    pure o'

  unfoldable pub payment_authorized_handler :
      ℕ → PaymentAuthorized → Principal → String → Option String → Handler W Order
  unfolding locked
  payment_authorized_handler order_id body principal access_token request_id = do
    o ← locked order_id
    if status_eq o.status confirmed then pure o else do
      raise_if (not (status_eq o.status pending_payment)) (service_error 409 invalid_order_state)
      authorize order_id o body principal access_token request_id

  -- `payment_failed`, once the order is known to await payment.
  unfoldable pub decline :
      ℕ → Order → PaymentFailed → Principal → String → Option String → Handler W Order
  unfolding release_held_as_service transition
  decline order_id o body principal access_token request_id = do
    release_held_as_service o body.reason access_token
    let failed = record o {
      payment_status = PaymentStatus.failed;
      payment_reference = body.payment_reference;
    }
    o' ← transition order_id failed payment_failed principal.subject (some body.reason) request_id
    commit
    pure o'

  unfoldable pub payment_failed_handler :
      ℕ → PaymentFailed → Principal → String → Option String → Handler W Order
  unfolding locked
  payment_failed_handler order_id body principal access_token request_id = do
    o ← locked order_id
    if status_eq o.status payment_failed then pure o else do
      raise_if (not (status_eq o.status pending_payment)) (service_error 409 invalid_order_state)
      decline order_id o body principal access_token request_id

-- ===== src/Payment/Service.antt =====
-- services/payment-service/app/services/payment_service.py: the buyer's requests. `Webhook` has the
-- rest. The row lock of `create_refund` is why the payment's refunds do not change under it.
use market_place_app.Prelude.{ℕ, String, Option, none, some, ◌+◌, ◌-◌, not, str_eq, is_some}
use market_place_app.Prelude.Table.{get}
use market_place_app.Prelude.Session.{
  pure, query, remote, ◌>>=◌, ◌>>◌, raise_if, interleave, try_pass, service_error,
}
use market_place_app.Prelude.Principal.{Principal}
use market_place_app.Payment.Model.{
  Payment, Refund, refundable, refunded_amount, get_payment_by_order,
}
use market_place_app.Payment.Clients.{
  payment_already_exists, order_not_payable, payment_not_refundable, refund_exceeds_remaining,
  Decimal, Peers, get_order, payment_refunded, service_token, create_payment_intent,
  create_refund_at_stripe,
}
use market_place_app.Payment.Stores.{
  Handler, exceeds, RefundCreate, Surroundings, given, new_payment, new_refund, or_remaining,
  replayed, store_payment, store_refund, visible_payment,
}

module _ {W : Type 0} (peers : Peers W) where
  -- `create_payment`, where the key is not a replay.
  unfoldable pub open_payment :
      Surroundings
      → ℕ
      → Principal
      → String
      → Option String
      → Handler W (ℕ × Payment × Option String)
  open_payment env order_id principal buyer_token key = do
    existing ← query (get_payment_by_order order_id)
    raise_if (is_some existing) (service_error 409 payment_already_exists)
    order ← remote (get_order peers order_id buyer_token)
    raise_if (not (str_eq order.status "pending_payment")) (service_error 409 order_not_payable)
    intent ← remote (
        create_payment_intent peers order.grand_total order.currency_code order_id
          principal.subject)
    interleave env.others
    let p = new_payment order_id principal order intent
    store_payment env p principal key
    pure (env.new_id, p, intent.client_secret)

  -- A replay answers without the client secret, which is not kept.
  unfoldable pub create_payment :
      Surroundings
      → ℕ
      → Principal
      → String
      → Option String
      → Handler W (ℕ × Payment × Option String)
  create_payment env order_id principal buyer_token idempotency_key = do
    let key = given idempotency_key
    existing ← replayed env principal.subject key
    elim existing [
      | none ↦ open_payment env order_id principal buyer_token key
      | some id ↦ do
        found ← query (λ db. get id db.payments)
        elim found [
          | none ↦ open_payment env order_id principal buyer_token key
          | some p ↦ pure (id, p, none)
        ]
    ]

  -- The best-effort callback of `create_refund`. The token's own failure is raised.
  unfoldable pub report_refund : Surroundings → Payment → Decimal → RefundCreate → Handler W Unit
  report_refund env p total body = do
    token ← remote (service_token peers)
    try_pass (
        remote (
          payment_refunded peers p.order_id
            (record {
              refunded_amount = total;
              currency_code = p.currency_code;
              reason = body.reason;
            })
            token env.request_id))

  -- `create_refund` once Stripe has paid: the rows, then the callback with the total.
  unfoldable pub record_refund :
      Surroundings
      → ℕ
      → Payment
      → RefundCreate
      → Refund
      → Decimal
      → ℕ
      → ℕ
      → Option String
      → Handler W (ℕ × Refund)
  record_refund env id p body r amount previously actor key = do
    store_refund env id p r amount (p.amount - previously) actor key
    report_refund env p (record amount { cents = previously + amount.cents }) body
    pure (env.new_id, r)

  -- `create_refund` once the amount is known to be left.
  unfoldable pub pay_back :
      Surroundings
      → ℕ
      → Payment
      → RefundCreate
      → ℕ
      → Decimal
      → ℕ
      → Option String
      → Handler W (ℕ × Refund)
  pay_back env id p body previously amount actor key = do
    provider_refund ←
        remote (create_refund_at_stripe peers p.provider_payment_intent_id body.amount key)
    let r = new_refund id provider_refund amount body
    record_refund env id p body r amount previously actor key

  -- `create_refund`, where the key is not a replay.
  unfoldable pub refund_payment :
      Surroundings → ℕ → RefundCreate → Principal → Option String → Handler W (ℕ × Refund)
  unfolding visible_payment
  refund_payment env id body principal key = do
    p ← visible_payment id principal
    raise_if (not (refundable p.status)) (service_error 409 payment_not_refundable)
    previously ← query (refunded_amount id)
    let remaining = p.amount - previously
    let amount = or_remaining body.amount remaining
    raise_if (exceeds amount remaining) (service_error 422 refund_exceeds_remaining)
    pay_back env id p body previously amount principal.subject key

  unfoldable pub create_refund :
      Surroundings → ℕ → RefundCreate → Principal → Option String → Handler W (ℕ × Refund)
  create_refund env id body principal idempotency_key = do
    let key = given idempotency_key
    existing ← replayed env principal.subject key
    elim existing [
      | none ↦ refund_payment env id body principal key
      | some refund_id ↦ do
        found ← query (λ db. get refund_id db.refunds)
        elim found [
          | none ↦ refund_payment env id body principal key
          | some r ↦ pure (refund_id, r)
        ]
    ]

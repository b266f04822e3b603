-- ===== src/Payment/Webhook.antt =====
-- services/payment-service/app/services/payment_service.py: the events of Stripe. The route has
-- checked the event's signature before; that is Stripe's library.
use market_place_app.Prelude.{
  ℕ, String, true, false, Option, none, some, [], ◌∷◌, ◌++◌, ◌+◌, str_eq, is_some, if◌then◌else◌,
}
use market_place_app.Prelude.Session.{pure, query, remote, ◌>>=◌, ◌>>◌, modify, commit}
use market_place_app.Payment.Model.{
  PaymentStatus, Payment, PaymentDb, is_succeeded, is_failed, get_payment_by_intent,
  get_webhook_event,
}
use market_place_app.Payment.Clients.{Peers, payment_authorized, payment_failed, service_token}
use market_place_app.Payment.Stores.{Handler, save_payment}

-- An event of Stripe: its id, its type, and of its object the intent's id and the message of the
-- last error.
pub record StripeEvent : Type 0 where
  pub id : String
  pub event_type : String
  pub intent : String
  pub last_error : Option String

-- `_decline_reason`. An empty message counts as none.
unfoldable pub decline_reason : Option String → String
decline_reason none = "payment_failed"
decline_reason (some message) = if str_eq message "" then "payment_failed" else message

unfoldable pub log_event : StripeEvent → PaymentDb → PaymentDb
log_event e db = record db {
  webhook_events =
      db.webhook_events ++ record { provider_event_id = e.id; event_type = e.event_type } ∷ [];
}

abbrev pub settled : Payment → Payment
settled p = record p { status = PaymentStatus.succeeded; version = p.version + 1 }

abbrev pub declined : Payment → String → Payment
declined p reason = record p {
  status = PaymentStatus.failed;
  failure_reason = some reason;
  version = p.version + 1;
}

module _ {W : Type 0} (peers : Peers W) where
  -- `_on_payment_succeeded` for a payment that was not settled yet.
  unfoldable pub settle : ℕ → Payment → Option String → Handler W Unit
  unfolding save_payment
  settle id p request_id = do
    modify (save_payment id (settled p))
    token ← remote (service_token peers)
    remote (
        payment_authorized peers p.order_id
          (record {
            payment_reference = p.provider_payment_intent_id;
            authorized_amount = p.amount;
            currency_code = p.currency_code;
          })
          token request_id)
    commit

  -- `_on_payment_succeeded`
  unfoldable pub on_payment_succeeded : String → Option String → Handler W Unit
  on_payment_succeeded intent request_id = do
    found ← query (get_payment_by_intent intent)
    elim found [
      | none ↦ commit
      | some (id, p) ↦ elim (is_succeeded p.status) [
        | true ↦ commit
        | false ↦ settle id p request_id
      ]
    ]

  -- `_on_payment_failed` for a payment that had not failed yet.
  unfoldable pub decline : ℕ → Payment → String → Option String → Handler W Unit
  unfolding save_payment
  decline id p reason request_id = do
    modify (save_payment id (declined p reason))
    token ← remote (service_token peers)
    remote (
        payment_failed peers p.order_id
          (record { payment_reference = some p.provider_payment_intent_id; reason = reason }) token
          request_id)
    commit

  -- `_on_payment_failed`
  unfoldable pub on_payment_failed : StripeEvent → Option String → Handler W Unit
  on_payment_failed e request_id = do
    found ← query (get_payment_by_intent e.intent)
    elim found [
      | none ↦ commit
      | some (id, p) ↦ elim (is_failed p.status) [
        | true ↦ commit
        | false ↦ decline id p (decline_reason e.last_error) request_id
      ]
    ]

  -- The event's row is stored with what the event does, or with nothing.
  unfoldable pub process_event : StripeEvent → Option String → Handler W Unit
  process_event e request_id = do
    modify (log_event e)
    if str_eq e.event_type "payment_intent.succeeded"
        then on_payment_succeeded e.intent request_id
        else if str_eq e.event_type "payment_intent.payment_failed"
        then on_payment_failed e request_id
        else commit

  unfoldable pub handle_webhook_event : StripeEvent → Option String → Handler W Unit
  handle_webhook_event e request_id = do
    seen ← query (get_webhook_event e.id)
    if is_some seen then pure tt else process_event e request_id

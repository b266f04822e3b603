-- ===== src/Payment/Keeping.antt =====
-- The requests to the payment service and the bound on the refunds of a payment.
use market_place_app.Prelude.{
  ℕ, String, ◌+◌, ◌-◌, ◌≤◌, ◌≡◌, refl, false, Option, none, some, arith, Option-cases, inl, inr,
}
use market_place_app.Prelude.Table.{get}
use market_place_app.Prelude.Table.Rows.{IsOrdered, find_row-stored}
use market_place_app.Prelude.Session.{Session, request, Result-cases}
use market_place_app.Prelude.Principal.{Principal}
use market_place_app.Payment.Model.{Payment, PaymentDb, refunded_amount, get_payment_by_intent}
use market_place_app.Payment.Clients.{
  Decimal, to_minor_units, Peers, get_order, create_payment_intent, create_refund_at_stripe,
}
use market_place_app.Payment.Service.{
  open_payment, create_payment, report_refund, record_refund, pay_back, refund_payment,
  create_refund,
}
use market_place_app.Payment.Stores.{
  Surroundings, RefundCreate, given, replayed, new_payment, new_refund, store_refund, save_payment,
  or_remaining, exceeds,
}
use market_place_app.Payment.Webhook.{
  StripeEvent, log_event, settled, declined, settle, on_payment_succeeded, decline,
  on_payment_failed, process_event, handle_webhook_event, decline_reason,
}
use market_place_app.Payment.Bounds.{
  IsWithin, Safe, fresh, save_payment-IsWithin, store_payment-Safe, store_refund-Safe,
}

-- An amount within what is left is within it once it is rounded.
pub to_minor_units-le :
    (amount : Decimal) (remaining : ℕ)
    → exceeds amount remaining ≡ false
    → to_minor_units amount ≤ remaining
unfolding to_minor_units
to_minor_units-le amount remaining h = ground arith

pub replayed_reads :
    {W : Type 0} (env : Surroundings) (actor : ℕ) (key : Option String) (s : Session PaymentDb W)
    → (replayed env actor key s).1 ≡ s
unfolding replayed
replayed_reads env actor none s = refl
replayed_reads env actor (some key) s = ground arith

-- The callback after a refund commits nothing.
pub report_refund_keeps :
    {W : Type 0} (peers : Peers W) (env : Surroundings) (payment : Payment) (total : Decimal)
    (body : RefundCreate) (s : Session PaymentDb W)
    → (report_refund peers env payment total body s).1.durable ≡ s.durable
unfolding report_refund
report_refund_keeps peers env payment total body s = ground arith

module _ {W : Type 0} (peers : Peers W) (k : ℕ) (env : Surroundings) (p : Principal) (d : PaymentDb)
    (w : W) (h : IsWithin k d) where
  open_payment-IsWithin :
      (order_id : ℕ) (token : String) (key : Option String)
      → IsWithin k (env.others d)
      → IsWithin k (request (open_payment peers env order_id p token key) d w).1
  unfolding open_payment
  open_payment-IsWithin order_id token key h' =
      let got = get_order peers order_id token w in
      elim (Result-cases got.0) [
        | inr (x, e) ↦ ground arith
        | inl (order, e) ↦
            let made =
              create_payment_intent peers order.grand_total order.currency_code order_id p.subject
                got.1 in
            elim (Result-cases made.0) [
              | inr (x, f) ↦ ground arith
              | inl (intent, f) ↦ ground (
                arith,
                store_payment-Safe k env (new_payment order_id p order intent) p key
                    (fresh (env.others d) made.1),
              )
            ]
      ]

  pub create_payment-IsWithin :
      (order_id : ℕ) (token : String) (key : Option String)
      → IsWithin k (env.others d)
      → IsWithin k (request (create_payment peers env order_id p token key) d w).1
  unfolding create_payment
  create_payment-IsWithin order_id token key h' = ground (
    arith,
    replayed_reads env p.subject (given key) (fresh d w),
    open_payment-IsWithin order_id token (given key),
  )

  pay_back-IsWithin :
      (id : ℕ) (payment : Payment) (body : RefundCreate) (amount : Decimal) (actor : ℕ)
      (key : Option String)
      → get id d.payments ≡ some payment
      → to_minor_units amount ≤ payment.amount - refunded_amount id d
      → IsWithin k
          (pay_back peers env id payment body
            (refunded_amount id d)
            amount
            actor
            key
            (fresh d w)).1.durable
  unfolding pay_back record_refund
  pay_back-IsWithin id payment body amount actor key stored enough =
      let paid =
        create_refund_at_stripe peers payment.provider_payment_intent_id body.amount key w in
      elim (Result-cases paid.0) [
        | inr (x, e) ↦ ground arith
        | inl (provider, e) ↦
            let r = new_refund id provider amount body in
            let t =
              store_refund env id payment r amount (payment.amount - refunded_amount id d) actor key
                (fresh d paid.1) in
            ground (
              arith,
              store_refund-Safe k env id payment r amount actor key (fresh d paid.1) stored refl
                  enough,
              report_refund_keeps peers env payment
                  (record amount { cents = refunded_amount id d + amount.cents }) body t.1,
            )
      ]

  refund_payment-IsWithin :
      (id : ℕ) (body : RefundCreate) (key : Option String)
      → IsWithin k (request (refund_payment peers env id body p key) d w).1
  unfolding refund_payment
  refund_payment-IsWithin id body key = elim (Option-cases (get id d.payments)) [
    | inl e ↦ ground arith
    | inr (payment, e) ↦
        let remaining = payment.amount - refunded_amount id d in
        let amount = or_remaining body.amount remaining in
        ground (
          arith,
          to_minor_units-le amount remaining,
          pay_back-IsWithin id payment body amount p.subject key e,
        )
  ]

  pub create_refund-IsWithin :
      (id : ℕ) (body : RefundCreate) (key : Option String)
      → IsWithin k (request (create_refund peers env id body p key) d w).1
  unfolding create_refund
  create_refund-IsWithin id body key = ground (
    arith,
    replayed_reads env p.subject (given key) (fresh d w),
    refund_payment-IsWithin id body (given key),
  )

-- A write of a payment that was loaded, its amount unchanged.
save_loaded-IsWithin :
    (k id : ℕ) (old p : Payment) (d : PaymentDb)
    → get id d.payments ≡ some old
    → p.amount ≡ old.amount
    → IsWithin k d
    → IsWithin k (save_payment id p d)
save_loaded-IsWithin k id old p d e same h = ground (arith, save_payment-IsWithin k id p d)

log_event-IsWithin :
    (k : ℕ) (e : StripeEvent) (d : PaymentDb) → IsWithin k d → IsWithin k (log_event e d)
unfolding log_event
log_event-IsWithin k e d h = ground arith

pub payment_by_intent_stored :
    (intent : String) (d : PaymentDb) (id : ℕ) (p : Payment)
    → IsOrdered d.payments
    → get_payment_by_intent intent d ≡ some (id, p)
    → get id d.payments ≡ some p
unfolding get_payment_by_intent
payment_by_intent_stored intent d id p o e = find_row-stored _ d.payments id p o e

module _ {W : Type 0} (peers : Peers W) (k : ℕ) (request_id : Option String) where
  settle-Safe :
      (id : ℕ) (p : Payment) (s : Session PaymentDb W)
      → get id s.working.payments ≡ some p
      → Safe k s
      → Safe k (settle peers id p request_id s).1
  unfolding settle
  settle-Safe id p s e h = ground (arith, save_loaded-IsWithin k id p (settled p) s.working e refl)

  decline-Safe :
      (id : ℕ) (p : Payment) (reason : String) (s : Session PaymentDb W)
      → get id s.working.payments ≡ some p
      → Safe k s
      → Safe k (decline peers id p reason request_id s).1
  unfolding decline
  decline-Safe id p reason s e h =
      ground (arith, save_loaded-IsWithin k id p (declined p reason) s.working e refl)

  on_payment_succeeded-Safe :
      (intent : String) (s : Session PaymentDb W)
      → Safe k s
      → Safe k (on_payment_succeeded peers intent request_id s).1
  unfolding on_payment_succeeded
  on_payment_succeeded-Safe intent s h =
      elim (Option-cases (get_payment_by_intent intent s.working)) [
        | inl e ↦ ground arith
        | inr ((id, p), e) ↦ ground (
          arith,
          settle-Safe id p s,
          payment_by_intent_stored intent s.working id p h.1.payments_ordered e,
        )
      ]

  on_payment_failed-Safe :
      (e : StripeEvent) (s : Session PaymentDb W)
      → Safe k s
      → Safe k (on_payment_failed peers e request_id s).1
  unfolding on_payment_failed
  on_payment_failed-Safe ev s h = elim (Option-cases (get_payment_by_intent ev.intent s.working)) [
    | inl e ↦ ground arith
    | inr ((id, p), e) ↦ ground (
      arith,
      decline-Safe id p (decline_reason ev.last_error) s,
      payment_by_intent_stored ev.intent s.working id p h.1.payments_ordered e,
    )
  ]

  pub handle_webhook_event-IsWithin :
      (e : StripeEvent) (d : PaymentDb) (w : W)
      → IsWithin k d
      → IsWithin k (request (handle_webhook_event peers e request_id) d w).1
  unfolding handle_webhook_event process_event
  handle_webhook_event-IsWithin e d w h =
      let s : Session PaymentDb W = record { durable = d; working = log_event e d; world = w } in
      ground (
        arith,
        log_event-IsWithin k e d h,
        on_payment_succeeded-Safe e.intent s,
        on_payment_failed-Safe e s,
      )

-- ===== src/Payment/Seen.antt =====
-- The webhook log of services/payment-service/app/services/payment_service.py: no request forgets an
-- event of Stripe that is stored.
use market_place_app.Prelude.{
  ℕ, String, ◌≡◌, ◌-◌, ◌+◌, refl, true, Option, none, some, List, [], ◌∷◌, arith, Option-cases, inl,
  inr, ◌⊎◌, is_some, str_eq, All, find, ◌++◌, Bool,
}
use market_place_app.Prelude.Table.{get}
use market_place_app.Prelude.Session.{Session, request, Result-cases}
use market_place_app.Prelude.Principal.{Principal}
use market_place_app.Payment.Model.{
  Payment, Refund, PaymentDb, WebhookEvent, get_webhook_event, refunded_amount,
}
use market_place_app.Payment.Clients.{
  Decimal, Peers, get_order, create_payment_intent, create_refund_at_stripe,
}
use market_place_app.Payment.Service.{
  open_payment, create_payment, record_refund, pay_back, refund_payment, create_refund,
}
use market_place_app.Payment.Stores.{
  Surroundings, RefundCreate, given, new_payment, new_refund, remember, save_payment, save_refund,
  store_payment, write_refund, store_refund, or_remaining,
}
use market_place_app.Payment.Webhook.{StripeEvent, log_event, handle_webhook_event}
use market_place_app.Payment.Runs.{Call, pay, refund, event, respond, serve, step, run, Request}
use market_place_app.Payment.Bounds.{fresh}
use market_place_app.Payment.Keeping.{replayed_reads, report_refund_keeps}

-- What is found stays found.
find-append_found :
    {A : Type 0} (p : A → Bool) (xs ys : List A)
    → is_some (find p xs) ≡ true
    → is_some (find p (xs ++ ys)) ≡ true
find-append_found p [] ys h = cc
find-append_found p (x ∷ xs) ys h = ground (arith, find-append_found p xs ys)

-- The event is in the log.
abbrev pub IsSeen : String → PaymentDb → Type 0
IsSeen id d = is_some (get_webhook_event id d) ≡ true

pub IsSeen-same :
    (id : String) (d d' : PaymentDb)
    → d'.webhook_events ≡ d.webhook_events
    → IsSeen id d
    → IsSeen id d'
unfolding get_webhook_event
IsSeen-same id d d' same h = rw same h

log_event-IsSeen :
    (id : String) (e : StripeEvent) (d : PaymentDb) → IsSeen id d → IsSeen id (log_event e d)
unfolding get_webhook_event log_event
log_event-IsSeen id e d h =
    find-append_found (λ (x : WebhookEvent). str_eq x.provider_event_id id) d.webhook_events _ h

remember_events :
    (env : Surroundings) (actor : ℕ) (key : Option String) (kind : String) (id : ℕ) (d : PaymentDb)
    → (remember env actor key kind id d).webhook_events ≡ d.webhook_events
unfolding remember
remember_events env actor none kind id d = refl
remember_events env actor (some key) kind id d = refl

write_refund_events :
    (env : Surroundings) (k : ℕ) (p : Payment) (r : Refund) (amount : Decimal) (remaining actor : ℕ)
    (key : Option String) (d : PaymentDb)
    → (write_refund env k p r amount remaining actor key d).webhook_events ≡ d.webhook_events
unfolding write_refund save_payment save_refund
write_refund_events env k p r amount remaining actor key d =
    remember_events env actor key "refund" env.new_id _

module _ {W : Type 0} (env : Surroundings) (id : String) where
  store_payment-IsSeen :
      (p : Payment) (principal : Principal) (key : Option String) (s : Session PaymentDb W)
      → IsSeen id s.durable
      → IsSeen id s.working
      → IsSeen id (store_payment env p principal key s).1.durable
  unfolding store_payment save_payment
  store_payment-IsSeen p principal key s h h' =
      let saved = save_payment env.new_id p s.working in
      ground (
        arith,
        IsSeen-same id s.working (remember env principal.subject key "payment" env.new_id saved)
            (remember_events env principal.subject key "payment" env.new_id saved) h',
      )

  store_refund-IsSeen :
      (k : ℕ) (p : Payment) (r : Refund) (amount : Decimal) (remaining actor : ℕ)
      (key : Option String) (s : Session PaymentDb W)
      → IsSeen id s.durable
      → IsSeen id s.working
      → IsSeen id (store_refund env k p r amount remaining actor key s).1.durable
  unfolding store_refund
  store_refund-IsSeen k p r amount remaining actor key s h h' = ground (
    arith,
    IsSeen-same id s.working (write_refund env k p r amount remaining actor key s.working)
        (write_refund_events env k p r amount remaining actor key s.working) h',
  )

module _ {W : Type 0} (peers : Peers W) (id : String) (env : Surroundings) (p : Principal)
    (d : PaymentDb) (w : W) (h : IsSeen id d) where
  open_payment-IsSeen :
      (order_id : ℕ) (token : String) (key : Option String)
      → IsSeen id (env.others d)
      → IsSeen id (request (open_payment peers env order_id p token key) d w).1
  unfolding open_payment
  open_payment-IsSeen order_id token key h' =
      let got = get_order peers order_id token w in
      elim (Result-cases got.0) [
        | inr (x, e) ↦ ground arith
        | inl (order, e) ↦
            let made =
              create_payment_intent peers order.grand_total order.currency_code order_id p.subject
                got.1 in
            elim (Result-cases made.0) [
              | inr (x, f) ↦ ground arith
              | inl (intent, f) ↦ ground (
                arith,
                store_payment-IsSeen env id (new_payment order_id p order intent) p key
                    (fresh (env.others d) made.1) h' h',
              )
            ]
      ]

  create_payment-IsSeen :
      (order_id : ℕ) (token : String) (key : Option String)
      → IsSeen id (env.others d)
      → IsSeen id (request (create_payment peers env order_id p token key) d w).1
  unfolding create_payment
  create_payment-IsSeen order_id token key h' = ground (
    arith,
    replayed_reads env p.subject (given key) (fresh d w),
    open_payment-IsSeen order_id token (given key),
  )

  pay_back-IsSeen :
      (k : ℕ) (payment : Payment) (body : RefundCreate) (previously : ℕ) (amount : Decimal)
      (actor : ℕ) (key : Option String)
      → IsSeen id
          (pay_back peers env k payment body previously amount actor key (fresh d w)).1.durable
  unfolding pay_back record_refund
  pay_back-IsSeen k payment body previously amount actor key =
      let paid =
        create_refund_at_stripe peers payment.provider_payment_intent_id body.amount key w in
      elim (Result-cases paid.0) [
        | inr (x, e) ↦ ground arith
        | inl (provider, e) ↦
            let r = new_refund k provider amount body in
            let t =
              store_refund env k payment r amount (payment.amount - previously) actor key
                (fresh d paid.1) in
            ground (
              arith,
              store_refund-IsSeen env id k payment r amount (payment.amount - previously) actor key
                  (fresh d paid.1) h h,
              report_refund_keeps peers env payment
                  (record amount { cents = previously + amount.cents }) body t.1,
            )
      ]

  refund_payment-IsSeen :
      (k : ℕ) (body : RefundCreate) (key : Option String)
      → IsSeen id (request (refund_payment peers env k body p key) d w).1
  unfolding refund_payment
  refund_payment-IsSeen k body key = elim (Option-cases (get k d.payments)) [
    | inl e ↦ ground arith
    | inr (payment, e) ↦
        let before = refunded_amount k d in
        ground (
          arith,
          pay_back-IsSeen k payment body before (or_remaining body.amount (payment.amount - before))
              p.subject key,
        )
  ]

  create_refund-IsSeen :
      (k : ℕ) (body : RefundCreate) (key : Option String)
      → IsSeen id (request (create_refund peers env k body p key) d w).1
  unfolding create_refund
  create_refund-IsSeen k body key = ground (
    arith,
    replayed_reads env p.subject (given key) (fresh d w),
    refund_payment-IsSeen k body (given key),
  )

-- Other requests that commit meanwhile keep the event in the log.
abbrev pub OthersKeepEvent : String → Call → Type 0
OthersKeepEvent id c = (d : PaymentDb) → IsSeen id d → IsSeen id (c.surroundings.others d)

-- A handler of an event commits the log with that event added, or nothing.
abbrev pub Logs : StripeEvent → PaymentDb → PaymentDb → Type 0
Logs e d d' = (d' ≡ d) ⊎ (d'.webhook_events ≡ (log_event e d).webhook_events)

pub Logs-IsSeen :
    (id : String) (e : StripeEvent) (d d' : PaymentDb) → Logs e d d' → IsSeen id d → IsSeen id d'
Logs-IsSeen id e d d' (inl same) h = rw same h
Logs-IsSeen id e d d' (inr same) h =
    IsSeen-same id (log_event e d) d' same (log_event-IsSeen id e d h)

module _ {W : Type 0} (peers : Peers W) (id : String)
    (handled : (e : StripeEvent) (rid : Option String) (d : PaymentDb) (w : W)
      → Logs e d (request (handle_webhook_event peers e rid) d w).1) where
  respond-IsSeen :
      (env : Surroundings) (p : Principal) (r : Request) (d : PaymentDb) (w : W)
      → IsSeen id (env.others d)
      → IsSeen id d
      → IsSeen id (request (respond peers env p r) d w).1
  unfolding respond
  respond-IsSeen env p (pay order token key) d w o h =
      ground (arith, create_payment-IsSeen peers id env p d w h order token key o)
  respond-IsSeen env p (refund k body key) d w o h =
      ground (arith, create_refund-IsSeen peers id env p d w h k body key)
  respond-IsSeen env p (event e) d w o h =
      Logs-IsSeen id e d (request (handle_webhook_event peers e env.request_id) d w).1
        (handled e env.request_id d w) h

  step-IsSeen :
      (c : Call) (d : PaymentDb) (w : W)
      → IsSeen id (c.surroundings.others d)
      → IsSeen id d
      → IsSeen id (step peers c d w).0
  unfolding step serve
  step-IsSeen c d w o h = ground (arith, respond-IsSeen c.surroundings c.caller c.body d w o h)

  pub run-IsSeen :
      (cs : List Call) (d : PaymentDb) (w : W)
      → All (OthersKeepEvent id) cs
      → IsSeen id d
      → IsSeen id (run peers cs d w).0
  unfolding run
  run-IsSeen [] d w o h = h
  run-IsSeen (c ∷ cs) d w o h =
      run-IsSeen cs (step peers c d w).0 (step peers c d w).1 o.1 (step-IsSeen c d w (o.0 d h) h)

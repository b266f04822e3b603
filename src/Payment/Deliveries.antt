-- ===== src/Payment/Deliveries.antt =====
-- The deliveries of Stripe's events to services/payment_service.py, the repeated ones too.
use market_place_app.Prelude.{
  String, ◌≡◌, refl, sym, subst, true, Option, none, arith, List, All, Option-cases, Bool-cases,
  inl, inr, is_some, str_eq, str_eq_iff, find-append_none,
}
use market_place_app.Prelude.Session.{Result, ok, err, Session, request}
use market_place_app.Payment.Model.{
  PaymentDb, WebhookEvent, get_webhook_event, get_payment_by_intent,
}
use market_place_app.Payment.Clients.{Peers, Error}
use market_place_app.Payment.Stores.{save_payment}
use market_place_app.Payment.Runs.{Call, run}
use market_place_app.Payment.Seen.{IsSeen, IsSeen-same, Logs, OthersKeepEvent, run-IsSeen}
use market_place_app.Payment.Webhook.{
  StripeEvent, log_event, decline_reason, settle, on_payment_succeeded, decline, on_payment_failed,
  process_event, handle_webhook_event,
}

get_webhook_event-log_event :
    (e : StripeEvent) (d : PaymentDb)
    → get_webhook_event e.id d ≡ none
    → is_some (get_webhook_event e.id (log_event e d)) ≡ true
unfolding get_webhook_event log_event
get_webhook_event-log_event e d new = ground (
  arith,
  str_eq_iff e.id e.id,
  find-append_none (λ (x : WebhookEvent). str_eq x.provider_event_id e.id) d.webhook_events
      (record { provider_event_id = e.id; event_type = e.event_type }),
)

-- How a handler ends that has logged its event: it commits the event with all that it did, or
-- commits nothing.
abbrev Ends : {W : Type 0} → Session PaymentDb W → Result Error Unit × Session PaymentDb W → Type 0
Ends s (ok a, s') = s'.durable.webhook_events ≡ s.working.webhook_events
Ends s (err e, s') = s'.durable ≡ s.durable

module _ {W : Type 0} (peers : Peers W) (request_id : Option String) where
  settle-Ends : (id : _) (p : _) (s : Session PaymentDb W) → Ends s (settle peers id p request_id s)
  unfolding settle save_payment
  settle-Ends id p s = ground arith

  decline-Ends :
      (id : _) (p : _) (reason : String) (s : Session PaymentDb W)
      → Ends s (decline peers id p reason request_id s)
  unfolding decline save_payment
  decline-Ends id p reason s = ground arith

  succeeded-Ends :
      (intent : String) (s : Session PaymentDb W)
      → Ends s (on_payment_succeeded peers intent request_id s)
  unfolding on_payment_succeeded
  succeeded-Ends intent s = elim (Option-cases (get_payment_by_intent intent s.working)) [
    | inl f ↦ ground arith
    | inr ((id, p), f) ↦ ground (arith, settle-Ends id p s)
  ]

  failed-Ends :
      (e : StripeEvent) (s : Session PaymentDb W) → Ends s (on_payment_failed peers e request_id s)
  unfolding on_payment_failed
  failed-Ends e s = elim (Option-cases (get_payment_by_intent e.intent s.working)) [
    | inl f ↦ ground arith
    | inr ((id, p), f) ↦ ground (arith, decline-Ends id p (decline_reason e.last_error) s)
  ]

  process_event-Ends :
      (e : StripeEvent) (d : PaymentDb) (w : W)
      → Ends
          (record { durable = d; working = log_event e d; world = w })
          (process_event peers e request_id (record { durable = d; working = d; world = w }))
  unfolding process_event
  process_event-Ends e d w =
      let s : Session PaymentDb W = record { durable = d; working = log_event e d; world = w } in
      elim (Bool-cases (str_eq e.event_type "payment_intent.succeeded")) [
        | inl f ↦ rw f (succeeded-Ends e.intent s)
        | inr f ↦ elim (Bool-cases (str_eq e.event_type "payment_intent.payment_failed")) [
          | inl g ↦ rw (f, g) (failed-Ends e s)
          | inr g ↦ rw (f, g) refl
        ]
      ]

  seen_again :
      (e : StripeEvent) (d : PaymentDb) (w : W)
      → IsSeen e.id d
      → request (handle_webhook_event peers e request_id) d w ≡ (ok tt, d, w)
  unfolding handle_webhook_event
  seen_again e d w seen = ground arith

  first_time :
      (e : StripeEvent) (d : PaymentDb) (w : W)
      → get_webhook_event e.id d ≡ none
      → handle_webhook_event peers e request_id (record { durable = d; working = d; world = w })
        ≡ process_event peers e request_id (record { durable = d; working = d; world = w })
  unfolding handle_webhook_event
  first_time e d w new = ground arith

  -- An answered delivery leaves its event in the log, and a refused one leaves all as it was.
  abbrev Logged : StripeEvent → PaymentDb → Result Error Unit → PaymentDb → Type 0
  Logged e d (ok a) d' = IsSeen e.id d' × Logs e d d'
  Logged e d (err x) d' = d' ≡ d

  ended :
      (e : StripeEvent) (d : PaymentDb) (t : Result Error Unit × Session PaymentDb W) (w : W)
      → get_webhook_event e.id d ≡ none
      → Ends (record { durable = d; working = log_event e d; world = w }) t
      → Logged e d t.0 t.1.durable
  ended e d (ok a, s) w new h =
      (IsSeen-same e.id (log_event e d) s.durable h (get_webhook_event-log_event e d new), inr h)
  ended e d (err x, s) w new h = h

  handled :
      (e : StripeEvent) (d : PaymentDb) (w : W)
      → let (r, d', w') = request (handle_webhook_event peers e request_id) d w in Logged e d r d'
  handled e d w = elim (Option-cases (get_webhook_event e.id d)) [
    | inl new ↦
        let t = process_event peers e request_id (record { durable = d; working = d; world = w }) in
        subst (λ (t : Result Error Unit × Session PaymentDb W). Logged e d t.0 t.1.durable)
          (sym (first_time e d w new)) (ended e d t w new (process_event-Ends e d w))
    | inr (x, old) ↦
        subst (λ (t : Result Error Unit × PaymentDb × W). Logged e d t.0 t.1)
          (sym (seen_again e d w (rw old))) (rw old, inl refl)
  ]

  Logged-Logs :
      (e : StripeEvent) (d d' : PaymentDb) (r : Result Error Unit) → Logged e d r d' → Logs e d d'
  Logged-Logs e d d' (ok a) h = h.1
  Logged-Logs e d d' (err x) h = inl h

module _ {W : Type 0} (peers : Peers W) where
  handled-Logs :
      (e : StripeEvent) (rid : Option String) (d : PaymentDb) (w : W)
      → Logs e d (request (handle_webhook_event peers e rid) d w).1
  handled-Logs e rid d w =
      let t = request (handle_webhook_event peers e rid) d w in
      Logged-Logs peers rid e d t.1 t.0 (handled peers rid e d w)

  -- What a delivery of an event leaves, and what becomes of a second delivery after the requests
  -- `cs`.
  abbrev pub Delivered :
      StripeEvent
      → List Call
      → Option String
      → PaymentDb
      → Result Error Unit × PaymentDb × W
      → Type 0
  Delivered e cs later d (ok a, d', w') =
      let (d₂, w₂) = run peers cs d' w' in
      request (handle_webhook_event peers e later) d₂ w₂ ≡ (ok tt, d₂, w₂)
  Delivered e cs later d (err x, d', w') = d' ≡ d

  delivered :
      (e : StripeEvent) (cs : List Call) (later : Option String) (d : PaymentDb)
      (t : Result Error Unit × PaymentDb × W)
      → All (OthersKeepEvent e.id) cs
      → Logged peers later e d t.0 t.1
      → Delivered e cs later d t
  delivered e cs later d (ok a, d', w') o h =
      let t = run peers cs d' w' in
      seen_again peers later e t.0 t.1 (run-IsSeen peers e.id handled-Logs cs d' w' o h.0)
  delivered e cs later d (err x, d', w') o h = h

  -- Where a delivery of an event is answered with success, a later delivery of it, after any other
  -- requests, is answered with success at once: it stores nothing and calls nobody. Where a delivery
  -- is refused, it stores nothing. Other requests that commit meanwhile keep the event in the log.
  pub delivery_lem :
      (e : StripeEvent) (cs : List Call) (first later : Option String) (d : PaymentDb) (w : W)
      → All (OthersKeepEvent e.id) cs
      → Delivered e cs later d (request (handle_webhook_event peers e first) d w)
  delivery_lem e cs first later d w o =
      delivered e cs later d (request (handle_webhook_event peers e first) d w) o
        (handled peers first e d w)

-- ===== src/Payment/Tests.antt =====
-- The payment service on concrete payments, with an order service that takes every callback and a
-- Stripe that answers every call.
use market_place_app.Prelude.{ℕ, ◌≡◌, refl, none, some, List, [], ◌∷◌, arith}
use market_place_app.Prelude.Table.{get, put, find_row}
use market_place_app.Prelude.Session.{request}
use market_place_app.Prelude.Principal.{Principal, has_role}
use market_place_app.Payment.Model.{
  Payment, PaymentStatus, PaymentDb, refunded_amount, get_payment_by_order, get_payment_by_intent,
  get_webhook_event, get_idempotency_record,
}
use market_place_app.Payment.Clients.{
  half_or_more, to_minor_units, Peers, read_order, read_callback, read_token, get_order,
  payment_authorized, payment_refunded, service_token, create_payment_intent,
  create_refund_at_stripe,
}
use market_place_app.Payment.Service.{
  open_payment, create_payment, report_refund, record_refund, pay_back, refund_payment,
  create_refund,
}
use market_place_app.Payment.Stores.{
  RefundCreate, Surroundings, whole, replayed, remember, save_payment, save_refund, store_payment,
  write_refund, store_refund,
}
use market_place_app.Payment.Webhook.{
  StripeEvent, log_event, settle, on_payment_succeeded, process_event, handle_webhook_event,
}
use market_place_app.Payment.Bounds.{IsWithin}
use market_place_app.Payment.Runs.{
  Call, pay, refund, event, permitted, respond, serve, step, run, run-IsWithin,
}
use market_place_app.Payment.Deliveries.{Delivered, delivery_lem}
use market_place_app.Payment.Refunds.{Refunds, refund_payment_lem}

-- The state of the other services is left out.
abbrev peers : Peers Unit
peers = record {
  get_order = λ order token w. (
    some (200, record { status = "pending_payment"; grand_total = 1800; currency_code = "USD" }),
    w,
  );
  post_authorized = λ order body token rid w. (some 200, w);
  post_failed = λ order body token rid w. (some 200, w);
  post_refunded = λ order body token rid w. (some 200, w);
  post_service_token = λ w. (some (200, "t"), w);
  create_intent =
      λ amount currency order customer w. (some (record { id = "pi"; client_secret = none }), w);
  create_provider_refund = λ intent amount key w. (some "re", w);
}

abbrev env : ℕ → Surroundings
env id = record { new_id = id; hash = "h"; request_id = none; others = λ d. d }

abbrev buyer : Principal
buyer = record { subject = 7; roles = "buyer" ∷ []; scopes = [] }

abbrev nothing_paid : PaymentDb
nothing_paid = record { payments = []; refunds = []; idempotency_records = []; webhook_events = [] }

abbrev succeeded : StripeEvent
succeeded = record {
  id = "evt";
  event_type = "payment_intent.succeeded";
  intent = "pi";
  last_error = none;
}

abbrev paid : Payment
paid = record {
  order_id = 1;
  customer_id = 7;
  amount = 1800;
  currency_code = "USD";
  provider_payment_intent_id = "pi";
  status = PaymentStatus.succeeded;
  failure_reason = none;
  version = 2;
}

abbrev one_payment : PaymentDb
one_payment = record nothing_paid { payments = (50, paid) ∷ [] }

-- Pay, let Stripe confirm it, take 500 back, and then all that is left.
abbrev calls : List Call
calls =
    record { caller = buyer; surroundings = env 50; body = pay 1 "t" (some "k1") }
    ∷ record { caller = buyer; surroundings = env 51; body = event succeeded }
    ∷ record {
      caller = buyer;
      surroundings = env 52;
      body = refund 50 (record { amount = some (whole 500); reason = none }) (some "k2");
    }
    ∷ record {
      caller = buyer;
      surroundings = env 53;
      body = refund 50 (record { amount = none; reason = none }) (some "k3");
    }
    ∷ []

run-IsWithin_example : IsWithin 50 (run peers calls nothing_paid tt).0
run-IsWithin_example =
    run-IsWithin peers 50 calls nothing_paid tt
      ((λ d h. h), ((λ d h. h), ((λ d h. h), ((λ d h. h), tt))))
      (record { within = omega arith; ordered = tt; payments_ordered = tt })

-- Both refunds were taken, and nothing is left.
all_refunded : refunded_amount 50 (run peers calls nothing_paid tt).0 ≡ 1800
unfolding run step serve respond permitted create_payment open_payment store_payment save_payment
    replayed remember create_refund refund_payment pay_back record_refund store_refund write_refund
    save_refund report_refund handle_webhook_event process_event on_payment_succeeded settle
    log_event get_payment_by_order get_payment_by_intent get_webhook_event get_idempotency_record
    get put find_row has_role read_order read_callback read_token get_order payment_authorized
    payment_refunded service_token to_minor_units create_payment_intent create_refund_at_stripe
all_refunded = refl

delivery_lem_example :
    Delivered peers succeeded calls none one_payment
      (request (handle_webhook_event peers succeeded none) one_payment tt)
delivery_lem_example =
    delivery_lem peers succeeded calls none none one_payment tt
      ((λ d h. h), ((λ d h. h), ((λ d h. h), ((λ d h. h), tt))))

is_stored : get 50 one_payment.payments ≡ some paid
unfolding get
is_stored = refl

-- 4.995, which is stored as 5.00.
abbrev odd_amount : RefundCreate
odd_amount = record { amount = some (record { cents = 499; rest = half_or_more }); reason = none }

refund_payment_lem_example :
    (let (r, d', w') =
        request (refund_payment peers (env 52) 50 odd_amount buyer none) one_payment tt in
      Refunds peers
        (env 52)
        50
        paid
        buyer
        one_payment
        tt
        is_stored
        tt
        (omega arith)
        odd_amount
        r
        d')
refund_payment_lem_example =
    refund_payment_lem peers (env 52) 50 paid buyer one_payment tt is_stored tt (omega arith)
      odd_amount none

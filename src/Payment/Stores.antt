-- ===== src/Payment/Stores.antt =====
-- services/payment-service/app/services/payment_service.py: idempotency keys and the rows of a payment
-- and of a refund.
use market_place_app.Prelude.{
  ℕ, String, Bool, Option, none, some, [], ◌∷◌, ◌++◌, ◌+◌, ◌==◌, ◌||◌, ◌&&◌, ltb, not, str_eq,
  is_some, if◌then◌else◌,
}
use market_place_app.Prelude.Table.{get, put}
use market_place_app.Prelude.Session.{
  Tx, pure, query, or_raise, ◌>>=◌, ◌>>◌, raise_if, modify, commit, service_error, integrity_error,
}
use market_place_app.Prelude.Principal.{Principal, has_role}
use market_place_app.Payment.Model.{
  PaymentStatus, RefundStatus, Payment, Refund, PaymentDb, get_payment_by_order,
  get_payment_by_intent, get_idempotency_record,
}
use market_place_app.Payment.Clients.{
  idempotency_conflict, payment_not_found, Error, OrderSnapshot, StripePaymentIntent, Decimal, Rest,
  nothing, below_half, half_or_more, to_minor_units,
}

abbrev pub Handler : Type 0 → Type 0 → Type 0
Handler W A = Tx PaymentDb W Error A

pub record RefundCreate : Type 0 where
  pub amount : Option Decimal
  pub reason : Option String

-- New ids, the SHA-256 of the request, the id of the request, and what other requests commit while
-- this one waits for its peers.
pub record Surroundings : Type 0 where
  pub new_id : ℕ
  pub hash : String
  pub request_id : Option String
  pub others : PaymentDb → PaymentDb

-- `if idempotency_key:`, which an empty text fails.
abbrev pub given : Option String → Option String
given none = none
given (some key) = if str_eq key "" then none else some key

-- The resource of a replayed key.
unfoldable pub replayed : {W : Type 0} → Surroundings → ℕ → Option String → Handler W (Option ℕ)
replayed env actor none = pure none
replayed env actor (some key) = do
  existing ← query (get_idempotency_record actor key)
  elim existing [
    | none ↦ pure none
    | some r ↦ do
      raise_if (not (str_eq r.request_hash env.hash)) (service_error 409 idempotency_conflict)
      pure (some r.resource_id)
  ]

abbrev pub remembered : ℕ → Option String → PaymentDb → Bool
remembered actor none db = Bool.false
remembered actor (some key) db = is_some (get_idempotency_record actor key db)

unfoldable pub remember : Surroundings → ℕ → Option String → String → ℕ → PaymentDb → PaymentDb
remember env actor none kind id db = db
remember env actor (some key) kind id db = record db {
  idempotency_records =
      db.idempotency_records
      ++ record {
        actor_id = actor;
        idempotency_key = key;
        request_hash = env.hash;
        resource_type = kind;
        resource_id = id;
      }
        ∷ [];
}

unfoldable pub save_payment : ℕ → Payment → PaymentDb → PaymentDb
save_payment id p db = record db { payments = put id p db.payments }

unfoldable pub save_refund : ℕ → Refund → PaymentDb → PaymentDb
save_refund id r db = record db { refunds = put id r db.refunds }

abbrev pub new_payment : ℕ → Principal → OrderSnapshot → StripePaymentIntent → Payment
new_payment order_id principal order intent = record {
  order_id = order_id;
  customer_id = principal.subject;
  amount = order.grand_total;
  currency_code = order.currency_code;
  provider_payment_intent_id = intent.id;
  status = PaymentStatus.pending;
  failure_reason = none;
  version = 1;
}

-- The constraints of the table `payments` that a new row can violate.
unfoldable pub breaks_payment : ℕ → Payment → PaymentDb → Bool
breaks_payment id p db =
    is_some (get id db.payments)
    || is_some (get_payment_by_order p.order_id db)
    || is_some (get_payment_by_intent p.provider_payment_intent_id db)
    || p.amount == 0

-- The rows of `create_payment`, flushed and committed.
unfoldable pub store_payment :
    {W : Type 0} → Surroundings → Payment → Principal → Option String → Handler W Unit
unfolding breaks_payment
store_payment env p principal key = do
  broken ← query (breaks_payment env.new_id p)
  raise_if broken integrity_error
  seen ← query (remembered principal.subject key)
  raise_if seen integrity_error
  modify (save_payment env.new_id p)
  modify (remember env principal.subject key "payment" env.new_id)
  commit

-- The owner's payment, or an admin's view of it.
abbrev pub may_see : Principal → Payment → Bool
may_see principal p = p.customer_id == principal.subject || has_role principal ("admin" ∷ [])

-- `get_payment`, by which `create_refund` finds its payment as well.
unfoldable pub visible_payment : {W : Type 0} → ℕ → Principal → Handler W Payment
visible_payment id principal = do
  found ← query (λ db. get id db.payments)
  p ← or_raise found (service_error 404 payment_not_found)
  raise_if (not (may_see principal p)) (service_error 404 payment_not_found)
  pure p

abbrev pub whole : ℕ → Decimal
whole n = record { cents = n; rest = nothing }

abbrev pub is_whole : Rest → Bool
is_whole nothing = Bool.true
is_whole below_half = Bool.false
is_whole half_or_more = Bool.false

-- `amount == remaining` and `amount > remaining`, for `remaining` in cents.
abbrev pub is_exactly : Decimal → ℕ → Bool
is_exactly amount remaining = amount.cents == remaining && is_whole amount.rest

abbrev pub exceeds : Decimal → ℕ → Bool
exceeds amount remaining =
    ltb remaining amount.cents || (amount.cents == remaining && not (is_whole amount.rest))

abbrev pub or_remaining : Option Decimal → ℕ → Decimal
or_remaining none remaining = whole remaining
or_remaining (some amount) remaining = amount

-- The row as it is stored, with its amount in cents.
abbrev pub new_refund : ℕ → String → Decimal → RefundCreate → Refund
new_refund payment_id provider_refund_id amount body = record {
  payment_id = payment_id;
  provider_refund_id = provider_refund_id;
  amount = to_minor_units amount;
  reason = body.reason;
  status = RefundStatus.succeeded;
}

-- The payment after a refund of `amount`, where `remaining` was left.
abbrev pub after_refund : Payment → Decimal → ℕ → Payment
after_refund p amount remaining = record p {
  status =
      if is_exactly amount remaining
      then PaymentStatus.refunded
      else PaymentStatus.partially_refunded;
  version = p.version + 1;
}

-- The rows of `create_refund`.
unfoldable pub write_refund :
    Surroundings → ℕ → Payment → Refund → Decimal → ℕ → ℕ → Option String → PaymentDb → PaymentDb
unfolding save_payment save_refund remember
write_refund env id p r amount remaining actor key db =
    remember env actor key "refund" env.new_id
      (save_payment id (after_refund p amount remaining) (save_refund env.new_id r db))

-- They are flushed and committed: a refund of nothing violates a check, and keys are unique.
unfoldable pub store_refund :
    {W : Type 0}
    → Surroundings
    → ℕ
    → Payment
    → Refund
    → Decimal
    → ℕ
    → ℕ
    → Option String
    → Handler W Unit
store_refund env id p r amount remaining actor key = do
  raise_if (r.amount == 0) integrity_error
  same_key ← query (λ db. get env.new_id db.refunds)
  raise_if (is_some same_key) integrity_error
  seen ← query (remembered actor key)
  raise_if seen integrity_error
  modify (write_refund env id p r amount remaining actor key)
  commit

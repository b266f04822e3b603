-- ===== src/Order/Payments.antt =====
-- Refunds of an order.
use market_place_app.Prelude.{
  ℕ, String, ◌≡◌, ◌+◌, refl, sym, subst, Bool, Bool-cases, inl, inr, Option, some, ◌==◌, arith,
  str_eq, if◌then◌else◌, ◌&&◌, leb,
}
use market_place_app.Prelude.Table.{get, get-put_self}
use market_place_app.Prelude.Session.{Result, ok, err, service_error, request}
use market_place_app.Prelude.Principal.{Principal}
use market_place_app.Order.Model.{PaymentStatus, Order, OrderDb, PaymentRefunded}
use market_place_app.Order.Clients.{Error, invalid_order_state, payment_amount_mismatch}
use market_place_app.Order.Lifecycle.{SameSnapshot}
use market_place_app.Order.Service.{payment_refunded}
use market_place_app.Order.Transitions.{refundable, refund_row, save, event, audit}

-- What a stored order says of refunds of `amount` in all.
abbrev pub refund_status : Order → ℕ → PaymentStatus
refund_status o amount =
    if amount == o.grand_total then PaymentStatus.refunded else PaymentStatus.partially_refunded

-- The order as a refund leaves it.
abbrev pub HasRefund : Order → Order → ℕ → Type 0
HasRefund o' o amount =
    (o'.payment_status ≡ refund_status o amount)
    × (o'.version ≡ o.version + 1)
    × (o'.status ≡ o.status)
    × (o'.payment_reference ≡ o.payment_reference)
    × SameSnapshot o o'

-- Of what refuses a refund callback, the first: an order that was not paid, or an amount or a
-- currency that is not its own.
abbrev pub refusal : Order → Error
refusal o =
    if refundable o.payment_status
    then service_error 422 payment_amount_mismatch
    else service_error 409 invalid_order_state

module _ {W : Type 0} (k : ℕ) (o : Order) (body : PaymentRefunded) (p : Principal)
    (rid : Option String) (d : OrderDb) (w : W) (stored : get k d.orders ≡ some o) where
  abbrev pub accepted : Bool
  accepted =
      refundable o.payment_status
      && str_eq body.currency_code o.currency_code
      && leb body.refunded_amount o.grand_total

  abbrev logged : OrderDb
  logged =
      let o' = refund_row o body in
      audit k o' p.subject "order.payment_refunded" rid
        (event k o' "order.payment_refunded" rid (save k o' d))

  refund_end :
      request (payment_refunded k body p rid) d w
      ≡ (if accepted then (ok (refund_row o body), logged, w) else (err (refusal o), d, w))
  unfolding payment_refunded
  refund_end = ground arith

  logged-orders : get k logged.orders ≡ some (refund_row o body)
  unfolding save event audit
  logged-orders = get-put_self k (refund_row o body) d.orders

  -- How a refund callback ends.
  unfoldable pub Ends : Result Error Order × OrderDb × W → Type 0
  Ends (r, d', w') =
      (w' ≡ w)
      × (if accepted
          then ((o' : Order) × (r ≡ ok o')
              × (get k d'.orders ≡ some o')
              × HasRefund o' o body.refunded_amount
              × (d'
                  ≡ audit k o' p.subject "order.payment_refunded" rid
                      (event k o' "order.payment_refunded" rid (save k o' d))))
          else (r ≡ err (refusal o)) × (d' ≡ d))

  -- A refund callback is accepted exactly when the order was paid, the currency agrees and no more
  -- is refunded in all than was paid. Then it is answered with the order as it is stored from then
  -- on, which says so, is one version further, and keeps its fulfilment status, the reference of
  -- its charge and its snapshot; with it go one event and one audit record, and nothing else
  -- changes. Otherwise it is answered with 409 or 422, and nothing is stored.
  pub refund_lem : Ends (request (payment_refunded k body p rid) d w)
  unfolding Ends
  refund_lem = subst Ends (sym refund_end) (elim (Bool-cases accepted) [
    | inl e ↦ rw e (
      refl,
      (refund_row o body, refl, logged-orders, (refl, refl, refl, refl, ground arith), refl),
    )
    | inr e ↦ rw e (refl, (refl, refl))
  ])

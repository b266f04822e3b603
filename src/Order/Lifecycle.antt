-- ===== src/Order/Lifecycle.antt =====
-- What one request does to the orders that are stored: the transitions of an order's status, its
-- version, and the columns that never change.
use market_place_app.Prelude.{
  ℕ, String, ◌+◌, ◌≡◌, refl, Bool, true, false, Option, none, some, ◌||◌, arith, Option-cases, ◌⊎◌,
  inl, inr,
}
use market_place_app.Prelude.Table.{get, get-put}
use market_place_app.Prelude.Session.{request}
use market_place_app.Prelude.Principal.{Principal}
use market_place_app.Order.Model.{
  OrderStatus, status_eq, Order, OrderDb, CancelOrder, PaymentAuthorized, PaymentFailed,
  PaymentRefunded, FulfillmentUpdate,
}
use market_place_app.Order.Clients.{Peers}
use market_place_app.Order.Service.{
  fulfillment, cancel, payment_authorized_handler, payment_failed_handler, payment_refunded,
  withdraw, authorize, decline,
}
use market_place_app.Order.Transitions.{orders-write_transition, advanced, cancellable}

-- The transitions that an order may make.
abbrev pub may_follow : OrderStatus → OrderStatus → Bool
may_follow OrderStatus.pending_payment OrderStatus.confirmed = true
may_follow OrderStatus.pending_payment OrderStatus.payment_failed = true
may_follow OrderStatus.pending_payment OrderStatus.cancelled = true
may_follow OrderStatus.payment_authorized OrderStatus.cancelled = true
may_follow OrderStatus.confirmed OrderStatus.cancelled = true
may_follow OrderStatus.confirmed OrderStatus.processing = true
may_follow OrderStatus.processing OrderStatus.shipped = true
may_follow OrderStatus.shipped OrderStatus.delivered = true
may_follow _ _ = false

-- The columns that no request changes.
pub record SameSnapshot (o o' : Order) : Type 0 where
  pub same_number : o'.order_number ≡ o.order_number
  pub same_customer : o'.customer_id ≡ o.customer_id
  pub same_cart : o'.cart_id ≡ o.cart_id
  pub same_currency : o'.currency_code ≡ o.currency_code
  pub same_total : o'.grand_total ≡ o.grand_total
  pub same_items : o'.items ≡ o.items
  pub same_group : o'.reservation_group_id ≡ o.reservation_group_id

-- A row is left alone, or its version grows by one, its snapshot stays, and its status stays or
-- makes an allowed transition.
abbrev pub Evolves : Option Order → Option Order → Type 0
Evolves none none = Unit
Evolves none (some o) = ⊥
Evolves (some o) none = ⊥
Evolves (some o) (some o') =
    (o' ≡ o)
    ⊎ ((o'.version ≡ o.version + 1)
        × ((status_eq o.status o'.status || may_follow o.status o'.status) ≡ true)
        × SameSnapshot o o')

pub Evolves-refl : (x : Option Order) → Evolves x x
Evolves-refl none = tt
Evolves-refl (some o) = inl refl

module _ {W : Type 0} (peers : Peers W) (k j : ℕ) (p : Principal) (rid : Option String)
    (d : OrderDb) (w : W) where
  pub fulfillment-Evolves :
      (body : FulfillmentUpdate)
      → Evolves (get j d.orders) (get j (request (fulfillment k body p rid) d w).1.orders)
  unfolding fulfillment advanced
  fulfillment-Evolves body = elim (Option-cases (get k d.orders)) [
    | inl e ↦ ground (arith, Evolves-refl (get j d.orders))
    | inr (o, e) ↦ grind (arith, Evolves-refl, get-put, orders-write_transition)
  ]

  pub refunded-Evolves :
      (body : PaymentRefunded)
      → Evolves (get j d.orders) (get j (request (payment_refunded k body p rid) d w).1.orders)
  unfolding payment_refunded
  refunded-Evolves body = elim (Option-cases (get k d.orders)) [
    | inl e ↦ ground (arith, Evolves-refl (get j d.orders))
    | inr (o, e) ↦ grind (arith, Evolves-refl, get-put, orders-write_transition)
  ]

  module _ (others : OrderDb → OrderDb) (quiet : (others d).orders ≡ d.orders) where
    withdraw-Evolves :
        (o : Order) (body : CancelOrder) (token : String)
        → get k d.orders ≡ some o
        → cancellable o.status ≡ true
        → Evolves
            (get j d.orders)
            (get j (request (withdraw peers others k o body p token rid) d w).1.orders)
    unfolding withdraw advanced
    withdraw-Evolves o body token e c =
        grind (arith, Evolves-refl, get-put, orders-write_transition)

    pub cancel-Evolves :
        (body : CancelOrder) (token : String) (v : ℕ)
        → Evolves
            (get j d.orders)
            (get j (request (cancel peers others k body p token v rid) d w).1.orders)
    unfolding cancel
    cancel-Evolves body token v = elim (Option-cases (get k d.orders)) [
      | inl e ↦ ground (arith, Evolves-refl (get j d.orders))
      | inr (o, e) ↦ ground (arith, Evolves-refl (get j d.orders), withdraw-Evolves o body token e)
    ]

  authorize-Evolves :
      (o : Order) (body : PaymentAuthorized) (token : String)
      → get k d.orders ≡ some o
      → o.status ≡ OrderStatus.pending_payment
      → Evolves
          (get j d.orders)
          (get j (request (authorize peers k o body p token rid) d w).1.orders)
  unfolding authorize advanced
  authorize-Evolves o body token e c = grind (arith, Evolves-refl, get-put, orders-write_transition)

  pub authorized-Evolves :
      (body : PaymentAuthorized) (token : String)
      → Evolves
          (get j d.orders)
          (get j (request (payment_authorized_handler peers k body p token rid) d w).1.orders)
  unfolding payment_authorized_handler
  authorized-Evolves body token = elim (Option-cases (get k d.orders)) [
    | inl e ↦ ground (arith, Evolves-refl (get j d.orders))
    | inr (o, e) ↦ ground (arith, Evolves-refl (get j d.orders), authorize-Evolves o body token e)
  ]

  decline-Evolves :
      (o : Order) (body : PaymentFailed) (token : String)
      → get k d.orders ≡ some o
      → o.status ≡ OrderStatus.pending_payment
      → Evolves (get j d.orders) (get j (request (decline peers k o body p token rid) d w).1.orders)
  unfolding decline advanced
  decline-Evolves o body token e c = grind (arith, Evolves-refl, get-put, orders-write_transition)

  pub failed-Evolves :
      (body : PaymentFailed) (token : String)
      → Evolves
          (get j d.orders)
          (get j (request (payment_failed_handler peers k body p token rid) d w).1.orders)
  unfolding payment_failed_handler
  failed-Evolves body token = elim (Option-cases (get k d.orders)) [
    | inl e ↦ ground (arith, Evolves-refl (get j d.orders))
    | inr (o, e) ↦ ground (arith, Evolves-refl (get j d.orders), decline-Evolves o body token e)
  ]

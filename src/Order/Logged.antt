-- ===== src/Order/Logged.antt =====
-- The logs that a request leaves beside an order: history, outbox events and audit records.
use market_place_app.Prelude.{
  ℕ, String, ◌≡◌, refl, Option, none, some, List, [], ◌∷◌, ◌+◌, ◌++◌, ◌==◌, arith, Option-cases,
  Bool-cases, inl, inr, sum_of, sum_of-append, if◌then◌else◌,
}
use market_place_app.Prelude.Table.{get, get-put, get-put_self}
use market_place_app.Prelude.Session.{request}
use market_place_app.Prelude.Principal.{Principal}
use market_place_app.Order.Model.{
  OrderStatus, PaymentStatus, value, Order, OrderDb, OrderStatusHistory, OutboxEvent, AuditRecord,
  CancelOrder, PaymentAuthorized, PaymentFailed, PaymentRefunded, FulfillmentUpdate,
}
use market_place_app.Order.Clients.{Peers}
use market_place_app.Order.Service.{
  fulfillment, cancel, payment_authorized_handler, payment_failed_handler, payment_refunded,
  withdraw, authorize, decline,
}
use market_place_app.Order.Transitions.{write_transition, save, advanced, orders-write_transition}
use market_place_app.Order.Routes.{
  Request, cancel_order, authorized, failed, refunded, fulfilled, respond, permitted, serve,
}

-- The status that the history gives an order: that of its last row.
unfoldable pub last_status : ℕ → Option String → List OrderStatusHistory → Option String
last_status j found [] = found
last_status j found (r ∷ rs) =
    last_status j (if r.order_id == j then some r.to_status else found) rs

pub last_status-append :
    (j : ℕ) (found : Option String) (rs : List OrderStatusHistory) (r : OrderStatusHistory)
    → last_status j found (rs ++ r ∷ [])
      ≡ (if r.order_id == j then some r.to_status else last_status j found rs)
unfolding last_status
last_status-append j found [] r = refl
last_status-append j found (x ∷ rs) r =
    last_status-append j (if x.order_id == j then some x.to_status else found) rs r

abbrev pub events_of : ℕ → List OutboxEvent → ℕ
events_of j = sum_of (λ e. if e.aggregate_id == j then 1 else 0)

abbrev pub audits_of : ℕ → List AuditRecord → ℕ
audits_of j = sum_of (λ e. if e.order_id == j then 1 else 0)

abbrev pub status_text : Option Order → Option String
status_text none = none
status_text (some o) = some (value o.status)

abbrev pub version_or_zero : Option Order → ℕ
version_or_zero none = 0
version_or_zero (some o) = o.version

-- The history ends in the order's status, and there is one event and one audit record for each
-- version that the order has had; none for an order that is not stored.
pub record IsLogged (j : ℕ) (d : OrderDb) : Type 0 where
  pub history_ends : last_status j none d.history ≡ status_text (get j d.orders)
  pub each_event : events_of j d.outbox ≡ version_or_zero (get j d.orders)
  pub each_audit : audits_of j d.audits ≡ version_or_zero (get j d.orders)

ruleset log_rules = (arith, get-put, last_status-append, sum_of-append)

write_transition-IsLogged :
    (k j : ℕ) (old o : Order) (new : OrderStatus) (actor : ℕ) (reason rid : Option String)
    (d : OrderDb)
    → get k d.orders ≡ some old
    → o.version ≡ old.version
    → IsLogged j d
    → IsLogged j (write_transition k o new actor reason rid d)
unfolding write_transition
write_transition-IsLogged k j old o new actor reason rid d e v h = grind log_rules

-- A write of the row alone that keeps its status and version.
save-IsLogged :
    (k j : ℕ) (old o : Order) (d : OrderDb)
    → get k d.orders ≡ some old
    → o.version ≡ old.version
    → o.status ≡ old.status
    → IsLogged j d
    → IsLogged j (save k o d)
unfolding save
save-IsLogged k j old o d e v s h = grind log_rules

-- What `cancel` writes on the row that it read: the transition, and the reason.
cancelled-IsLogged :
    (k j : ℕ) (o : Order) (reason : String) (actor : ℕ) (rid : Option String) (d : OrderDb)
    → get k d.orders ≡ some o
    → IsLogged j d
    → let o' = advanced o OrderStatus.cancelled in
      IsLogged j (
        save k
          (record o' { cancellation_reason = some reason })
          (write_transition k o OrderStatus.cancelled actor (some reason) rid d))
unfolding advanced
cancelled-IsLogged k j o reason actor rid d e h =
    save-IsLogged k j (advanced o OrderStatus.cancelled)
      (record (advanced o OrderStatus.cancelled) { cancellation_reason = some reason })
      (write_transition k o OrderStatus.cancelled actor (some reason) rid d)
      (rw orders-write_transition (get-put_self k (advanced o OrderStatus.cancelled) d.orders)) refl
      refl
      (write_transition-IsLogged k j o o OrderStatus.cancelled actor (some reason) rid d e refl h)

module _ {W : Type 0} (peers : Peers W) (k j : ℕ) (p : Principal) (rid : Option String)
    (d : OrderDb) (w : W) (h : IsLogged j d) where
  fulfillment-IsLogged :
      (body : FulfillmentUpdate) → IsLogged j (request (fulfillment k body p rid) d w).1
  unfolding fulfillment
  fulfillment-IsLogged body = elim (Option-cases (get k d.orders)) [
    | inl e ↦ ground arith
    | inr (o, e) ↦ ground (
      arith,
      write_transition-IsLogged k j o o body.status p.subject body.shipment_reference rid d e refl
          h,
    )
  ]

  -- The row that `cancel` writes is the one that it read, where nothing else was committed.
  withdrawn-IsLogged :
      (o : Order) (reason : String)
      → get k d.orders ≡ some o
      → IsLogged j (
          save k
            (record o {
              status = OrderStatus.cancelled;
              version = o.version + 1;
              cancellation_reason = some reason;
            })
            (write_transition k o OrderStatus.cancelled p.subject (some reason) rid d))
  unfolding advanced
  withdrawn-IsLogged o reason e = cancelled-IsLogged k j o reason p.subject rid d e h

  withdraw-IsLogged :
      (others : OrderDb → OrderDb) (o : Order) (body : CancelOrder) (token : String)
      → others d ≡ d
      → get k d.orders ≡ some o
      → IsLogged j (request (withdraw peers others k o body p token rid) d w).1
  unfolding withdraw advanced
  withdraw-IsLogged others o body token quiet e = elim (Option-cases o.reservation_group_id) [
    | inl f ↦ ground (arith, withdrawn-IsLogged o body.reason e)
    | inr (group, f) ↦ ground (arith, withdrawn-IsLogged o body.reason e)
  ]

  cancel-IsLogged :
      (others : OrderDb → OrderDb) (body : CancelOrder) (token : String) (v : ℕ)
      → others d ≡ d
      → IsLogged j (request (cancel peers others k body p token v rid) d w).1
  unfolding cancel
  cancel-IsLogged others body token v quiet = elim (Option-cases (get k d.orders)) [
    | inl e ↦ ground arith
    | inr (o, e) ↦ ground (arith, withdraw-IsLogged others o body token quiet e)
  ]

  authorize-IsLogged :
      (o : Order) (body : PaymentAuthorized) (token : String)
      → get k d.orders ≡ some o
      → IsLogged j (request (authorize peers k o body p token rid) d w).1
  unfolding authorize
  authorize-IsLogged o body token e =
      let paid = record o {
        payment_status = PaymentStatus.authorized;
        payment_reference = some body.payment_reference;
      } in
      ground (
        arith,
        write_transition-IsLogged k j o paid OrderStatus.confirmed p.subject
            (some "payment_authorized") rid d e refl h,
      )

  authorized-IsLogged :
      (body : PaymentAuthorized) (token : String)
      → IsLogged j (request (payment_authorized_handler peers k body p token rid) d w).1
  unfolding payment_authorized_handler
  authorized-IsLogged body token = elim (Option-cases (get k d.orders)) [
    | inl e ↦ ground arith
    | inr (o, e) ↦ ground (arith, authorize-IsLogged o body token e)
  ]

  decline-IsLogged :
      (o : Order) (body : PaymentFailed) (token : String)
      → get k d.orders ≡ some o
      → IsLogged j (request (decline peers k o body p token rid) d w).1
  unfolding decline
  decline-IsLogged o body token e =
      let failed = record o {
        payment_status = PaymentStatus.failed;
        payment_reference = body.payment_reference;
      } in
      ground (
        arith,
        write_transition-IsLogged k j o failed OrderStatus.payment_failed p.subject
            (some body.reason) rid d e refl h,
      )

  failed-IsLogged :
      (body : PaymentFailed) (token : String)
      → IsLogged j (request (payment_failed_handler peers k body p token rid) d w).1
  unfolding payment_failed_handler
  failed-IsLogged body token = elim (Option-cases (get k d.orders)) [
    | inl e ↦ ground arith
    | inr (o, e) ↦ ground (arith, decline-IsLogged o body token e)
  ]

  refunded-IsLogged :
      (body : PaymentRefunded) → IsLogged j (request (payment_refunded k body p rid) d w).1
  unfolding payment_refunded
  refunded-IsLogged body = elim (Option-cases (get k d.orders)) [
    | inl e ↦ ground arith
    | inr (o, e) ↦ grind log_rules
  ]

-- Every request on an order, accepted or refused, during which no other request commits, keeps the logs of every order complete: the
-- history ends in the order's status, and each version of it has its outbox event and its audit record.
pub serve-IsLogged :
    {W : Type 0} (peers : Peers W) (others : OrderDb → OrderDb) (k j : ℕ) (r : Request)
    (p : Principal) (token : String) (rid : Option String) (d : OrderDb) (w : W)
    → others d ≡ d
    → IsLogged j d
    → IsLogged j (request (serve peers others k r p token rid) d w).1
unfolding serve
serve-IsLogged peers others k j r p token rid d w quiet h = elim (Bool-cases (permitted r p)) [
  | inl e ↦ rw e (by_request r)
  | inr e ↦ rw e h
]
  where
    by_request : (r : Request) → IsLogged j (request (respond peers others k r p token rid) d w).1
    by_request (cancel_order body v) =
        cancel-IsLogged peers k j p rid d w h others body token v quiet
    by_request (authorized body) = authorized-IsLogged peers k j p rid d w h body token
    by_request (failed body) = failed-IsLogged peers k j p rid d w h body token
    by_request (refunded body) = refunded-IsLogged peers k j p rid d w h body
    by_request (fulfilled body) = fulfillment-IsLogged peers k j p rid d w h body

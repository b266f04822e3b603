-- ===== src/Market/Fulfilment.antt =====
-- A shipment and its order advance together: services/shipping-service calls the fulfilment
-- endpoint of services/order-service before it commits.
use market_place_app.Prelude.{
  ℕ, String, ◌≤◌, ◌≡◌, ◌≢◌, sym, subst, Option, some, arith, Option-cases, inl, inr,
}
use market_place_app.Prelude.Table.{get, get-put}
use market_place_app.Prelude.Session.{Result, ok, err, request}
use market_place_app.Prelude.Principal.{Principal}
use market_place_app.Order.Model.{OrderStatus, Order, OrderDb}
use market_place_app.Order.Clients as Order
use market_place_app.Order.Service.{fulfillment}
use market_place_app.Order.Transitions.{advanced, orders-write_transition}
use market_place_app.Order.Routes.{fulfilled, serve, respond}
use market_place_app.Shipping.Clients as Shipping
use market_place_app.Market.InStep.{Moves}
use market_place_app.Market.OrderApi.{
  Fate, answer_lost, arrive, http_status, fulfillment_status, call, post_fulfillment,
}

-- What a fulfilment request leaves of the orders: order `k` in the new status and the others as
-- they were; or, where it is refused, all as they were.
abbrev Fulfils : ℕ → OrderStatus → OrderDb → Result Order.Error Order → OrderDb → Type 0
Fulfils k status d (ok o) d' = (o.status ≡ status) × Moves k o d d'
Fulfils k status d (err x) d' = (d' ≡ d) × (400 ≤ http_status {A = Order} (err x))

module _ {V : Type 0} (peers : Order.Peers V) (k : ℕ) (status : OrderStatus)
    (reference : Option String) (caller : Principal) (d : OrderDb) (v : V) where
  fulfillment_effect :
      (rid : Option String)
      → let (r, d', v') =
          request
            (fulfillment k (record { status = status; shipment_reference = reference }) caller rid)
            d
            v in
        Fulfils k status d r d'
  unfolding fulfillment advanced http_status
  fulfillment_effect rid = elim (Option-cases (get k d.orders)) [
    | inl e ↦ ground arith
    | inr (o, e) ↦ ground (
      arith,
      λ (j : ℕ). get-put k j (advanced o status) d.orders,
      orders-write_transition k o status caller.subject reference rid d,
    )
  ]

  serve_effect :
      (token : String) (rid : Option String)
      → let (r, d', v') =
          request
            (serve peers
              (λ db. db)
              k
              (fulfilled (record { status = status; shipment_reference = reference }))
              caller
              token
              rid)
            d
            v in
        Fulfils k status d r d'
  unfolding serve respond http_status
  serve_effect token rid = ground (arith, fulfillment_effect rid)

-- The order advanced, and the others left; or all left, with an error.
abbrev pub Advances : ℕ → OrderStatus → Result Shipping.Error Unit → OrderDb → OrderDb → Type 0
Advances k status (ok a) d d' = (o : Order) × (o.status ≡ status) × Moves k o d d'
Advances k status (err x) d d' = d' ≡ d

-- The answer read as the shipping service reads it.
answer-Advances :
    (k : ℕ) (status : OrderStatus) (d d' : OrderDb) (r : Result Order.Error Order)
    → Fulfils k status d r d'
    → Advances k status (Shipping.read_fulfillment (some (http_status r))) d d'
unfolding http_status Shipping.read_fulfillment
answer-Advances k status d d' (ok o) h = (o, h.0, h.1)
answer-Advances k status d d' (err x) h = ground arith

module _ {V : Type 0} (peers : Order.Peers V) (decode : String → Option Principal) where
  -- The answer of the fulfilment endpoint, with the state that it leaves.
  abbrev Answers : ℕ → OrderStatus → OrderDb → Option ℕ × (OrderDb × V) → Type 0
  Answers k status d t = Advances k status (Shipping.read_fulfillment t.0) d (t.1.0)

  call-Advances :
      (k : ℕ) (status : OrderStatus) (reference : Option String) (token : String)
      (rid : Option String) (d : OrderDb) (v : V)
      → Answers k status d (
          call peers decode k
            (fulfilled (record { status = status; shipment_reference = reference }))
            token
            rid
            (d, v))
  unfolding call Shipping.read_fulfillment
  call-Advances k status reference token rid d v = elim (Option-cases (decode token)) [
    | inl e ↦ ground arith
    | inr (caller, e) ↦
        let body = fulfilled (record { status = status; shipment_reference = reference }) in
        let t = request (serve peers (λ db. db) k body caller token rid) d v in
        let called : call peers decode k body token rid (d, v)
            ≡ (some (http_status t.0), (t.1, t.2)) =
          ground arith in
        subst (Answers k status d) (sym called) (
          answer-Advances k status d t.1 t.0
            (serve_effect peers k status reference caller d v token rid))
  ]

  pub post-Advances :
      (network : OrderDb × V → Fate) (k : ℕ) (status : OrderStatus) (body : Shipping.Fulfillment)
      (token : String) (rid : Option String) (d : OrderDb) (v : V)
      → network (d, v) ≢ answer_lost
      → fulfillment_status body.status ≡ some status
      → Answers k status d (post_fulfillment peers decode network k body token rid (d, v))
  unfolding post_fulfillment arrive Shipping.read_fulfillment
  post-Advances network k status body token rid d v kept e =
      ground (arith, call-Advances k status body.shipment_reference token rid d v)

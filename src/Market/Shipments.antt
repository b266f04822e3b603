-- ===== src/Market/Shipments.antt =====
-- The shipping service with the order service behind its client.
use market_place_app.Prelude.{
  ℕ, String, ◌≡◌, ◌≢◌, refl, sym, ap, subst, Option, none, some, arith, Option-cases, Bool-cases,
  inl, inr,
}
use market_place_app.Prelude.Table.{get}
use market_place_app.Prelude.Session.{Result, ok, err, Session, remote, request, bind_rule, ◌>>=◌}
use market_place_app.Prelude.Principal.{Principal}
use market_place_app.Order.Model.{OrderStatus, Order, OrderDb}
use market_place_app.Order.Clients as Order
use market_place_app.Shipping.Model.{
  Shipment, ShippingDb, ShipmentCreate, ShipmentShip, ShipmentDeliver, ShipmentException,
  get_by_order,
}
use market_place_app.Shipping.Clients.{
  Peers, Error, Fulfillment, service_token, advance_fulfillment,
}
use market_place_app.Shipping.Service.{
  Handler, Surroundings, save_shipment, add_event, advance, new_shipment, write_shipment,
  breaks_shipment, book, open_shipment, create_shipment, booked, shipped, handed_over, delivered,
  arrived, lost, or_now, hand_over, ship, arrive, deliver, record_exception,
}
use market_place_app.Shipping.Routes.{
  Request, create, ship_it, deliver_it, report_exception, respond, serve,
}
use market_place_app.Market.OrderApi.{Fate, answer_lost, fulfillment_status, post_fulfillment}
use market_place_app.Market.InStep.{
  IsInStep, Moves, moved-IsInStep, new-IsInStep, idle-IsInStep, lost-IsInStep,
}
use market_place_app.Market.Fulfilment.{Advances, post-Advances}

-- The clients' view of the order service and of the auth service, which gives tokens.
abbrev pub joined :
    {V : Type 0}
    → Order.Peers V
    → (String → Option Principal)
    → (V → Option (ℕ × String) × V)
    → (OrderDb × V → Fate)
    → Peers (OrderDb × V)
joined peers decode tokens network = record {
  post_fulfillment =
      λ order body token rid w. post_fulfillment peers decode network order body token rid w;
  post_service_token = λ w. let (token, v) = tokens w.1 in (token, (w.0, v));
}

module _ {V : Type 0} (peers : Order.Peers V) (decode : String → Option Principal)
    (tokens : V → Option (ℕ × String) × V) (network : OrderDb × V → Fate) (env : Surroundings)
    (kept : (w : OrderDb × V) → network w ≢ answer_lost) where
  abbrev services : Peers (OrderDb × V)
  services = joined peers decode tokens network

  abbrev State : Type 0
  State = Session ShippingDb (OrderDb × V)

  -- The shipments stay as they are while the order advances.
  abbrev Advanced : ℕ → OrderStatus → State → Result Error Unit × State → Type 0
  Advanced k status s t =
      (t.1 ≡ record s { world = t.1.world }) × Advances k status t.0 (s.world.0) (t.1.world.0)

  advance_lem :
      (k : ℕ) (status : OrderStatus) (body : Fulfillment) (s : State)
      → fulfillment_status body.status ≡ some status
      → Advanced k status s (advance services env k body s)
  unfolding advance service_token advance_fulfillment
  advance_lem k status body s e =
      bind_rule (Advanced k status s) (remote (service_token services))
        (λ token. remote (advance_fulfillment services k body token env.request_id)) s
        (λ token f. (
          refl,
          post-Advances peers decode network k status body token env.request_id s.world.0
              (tokens s.world.1).1 (kept (s.world.0, (tokens s.world.1).1)) e,
        ))
        (λ x f. (refl, refl))

  -- The rule of a handler that goes on once the order has advanced.
  advance_rule :
      {A : Type 0} (P : Result Error A × State → Type 0) (k : ℕ) (status : OrderStatus)
      (body : Fulfillment) (rest : Unit {0} → Handler (OrderDb × V) A) (s : State)
      → fulfillment_status body.status ≡ some status
      → ((u : Unit {0}) (w : OrderDb × V) (o : Order)
          → o.status ≡ status
          → Moves k o (s.world.0) (w.0)
          → P (rest u (record s { world = w })))
      → ((x : Error) (w : OrderDb × V) → w.0 ≡ s.world.0 → P (err x, record s { world = w }))
      → P ((advance services env k body >>= rest) s)
  advance_rule P k status body rest s e on_ok on_err =
      let t = advance services env k body s in
      let done = advance_lem k status body s e in
      let moved = λ (r : Result Error Unit) (f : t ≡ (r, t.1)).
        subst (λ (q : Result Error Unit). Advances k status q (s.world.0) (t.1.world.0))
          (ap (λ (q : Result Error Unit × State). q.0) f) done.1 in
      bind_rule P (advance services env k body) rest s
        (λ u f.
          let (o, at, moves) = moved (ok u) f in
          subst (λ (q : State). P (rest u q)) (sym done.0) (on_ok u t.1.world o at moves))
        (λ x f.
          subst (λ (q : State). P (err x, q)) (sym done.0) (on_err x t.1.world (moved (err x) f)))

  abbrev fresh : ShippingDb → OrderDb × V → State
  fresh d w = record { durable = d; working = d; world = w }

  -- What is committed is in step with the orders.
  abbrev Holds : {A : Type 0} → Result Error A × State → Type 0
  Holds t = IsInStep t.1.durable (t.1.world.0)

  module _ (d : ShippingDb) (w : OrderDb × V) (h : IsInStep d (w.0)) where
    hand_over-Holds :
        (id : ℕ) (x : Shipment) (body : ShipmentShip)
        → get id d.shipments ≡ some x
        → Holds (hand_over services env id x body (fresh d w))
    unfolding hand_over handed_over fulfillment_status
    hand_over-Holds id x body stored =
        advance_rule Holds x.order_id OrderStatus.shipped
          (record {
            status = "shipped";
            shipment_reference = some body.tracking_number;
            occurred_at = body.occurred_at;
          })
          (λ u. handed_over env id x body) (fresh d w) refl
          (λ u v o at moves.
            moved-IsInStep id (shipped x body (or_now body.occurred_at env.now)) d _ (w.0) (v.0) o
              refl h x stored refl moves (ground arith))
          (λ e v same. rw same h)

    arrive-Holds :
        (id : ℕ) (x : Shipment) (body : ShipmentDeliver)
        → get id d.shipments ≡ some x
        → Holds (arrive services env id x body (fresh d w))
    unfolding arrive arrived fulfillment_status
    arrive-Holds id x body stored =
        advance_rule Holds x.order_id OrderStatus.delivered
          (record {
            status = "delivered";
            shipment_reference = none;
            occurred_at = body.occurred_at;
          })
          (λ u. arrived env id x body) (fresh d w) refl
          (λ u v o at moves.
            moved-IsInStep id (delivered x (or_now body.occurred_at env.now)) d _ (w.0) (v.0) o refl
              h x stored refl moves (ground arith))
          (λ e v same. rw same h)

    -- A session that goes on from the advanced order; `create_shipment` writes or raises.
    booked-InStep :
        (body : ShipmentCreate) (p : Principal) (key : String) (v : OrderDb × V) (o : Order)
        → get_by_order body.order_id d ≡ none
        → env.others d ≡ d
        → o.status ≡ OrderStatus.processing
        → Moves body.order_id o (w.0) (v.0)
        → Holds (booked env body p key (fresh d v))
    unfolding booked write_shipment
    booked-InStep body p key v o free quiet at moves =
        let x = new_shipment body p in
        let still = idle-IsInStep body.order_id o d (w.0) (v.0) free moves h in
        elim (Bool-cases (breaks_shipment env body p key d)) [
          | inl e ↦ ground arith
          | inr e ↦ ground (
            arith,
            new-IsInStep env.new_id x d (write_shipment env body x p key d) (w.0) (v.0) o refl h
                free moves (ground arith),
          )
        ]

    book-Holds :
        (body : ShipmentCreate) (p : Principal) (key : String)
        → get_by_order body.order_id d ≡ none
        → env.others d ≡ d
        → Holds (book services env body p key (fresh d w))
    unfolding book fulfillment_status
    book-Holds body p key free quiet =
        advance_rule Holds body.order_id OrderStatus.processing
          (record { status = "processing"; shipment_reference = none; occurred_at = none })
          (λ u. booked env body p key) (fresh d w) refl
          (λ u v o at moves. booked-InStep body p key v o free quiet at moves)
          (λ e v same. rw same h)

    create_shipment-Holds :
        (body : ShipmentCreate) (p : Principal) (key : String)
        → env.others d ≡ d
        → Holds (create_shipment services env body p key (fresh d w))
    unfolding create_shipment open_shipment
    create_shipment-Holds body p key quiet = elim (Option-cases (get_by_order body.order_id d)) [
      | inl e ↦ ground (arith, book-Holds body p key e quiet)
      | inr (x, e) ↦ ground arith
    ]

    ship-Holds :
        (id : ℕ) (body : ShipmentShip) (p : Principal)
        → Holds (ship services env id body p (fresh d w))
    unfolding ship
    ship-Holds id body p = elim (Option-cases (get id d.shipments)) [
      | inl e ↦ ground arith
      | inr (x, e) ↦ ground (arith, hand_over-Holds id x body e)
    ]

    deliver-Holds :
        (id : ℕ) (body : ShipmentDeliver) (p : Principal)
        → Holds (deliver services env id body p (fresh d w))
    unfolding deliver
    deliver-Holds id body p = elim (Option-cases (get id d.shipments)) [
      | inl e ↦ ground arith
      | inr (x, e) ↦ ground (arith, arrive-Holds id x body e)
    ]

    record_exception-Holds :
        (id : ℕ) (body : ShipmentException) (p : Principal)
        → Holds (record_exception {W = OrderDb × V} env id body p (fresh d w))
    unfolding record_exception
    record_exception-Holds id body p = elim (Option-cases (get id d.shipments)) [
      | inl e ↦ ground arith
      | inr (x, e) ↦
          let x' = lost x body.reason in
          let d' =
            add_event id "exception" body.reason (or_now body.occurred_at env.now)
              (save_shipment id x' d) in
          ground (arith, lost-IsInStep id x' x d d' (w.0) refl e refl refl h)
    ]

    respond-Holds :
        (p : Principal) (r : Request)
        → env.others d ≡ d
        → Holds (respond services env p r (fresh d w))
    unfolding respond
    respond-Holds p (create body key) quiet = ground (arith, create_shipment-Holds body p key quiet)
    respond-Holds p (ship_it id body) quiet = ground (arith, ship-Holds id body p)
    respond-Holds p (deliver_it id body) quiet = ground (arith, deliver-Holds id body p)
    respond-Holds p (report_exception id body) quiet =
        ground (arith, record_exception-Holds id body p)

    -- A request to the shipping service, with the order service behind it, with no other
    -- request committing meanwhile, and with no answer of the order service lost after it acted, keeps every shipment in step with its order: a booked shipment's
    -- order is in processing, a shipped one's is shipped and a delivered one's is delivered,
    -- whatever the services answer, and also where a call does not reach them; and one shipment
    -- for each order.
    pub serve-IsInStep :
        (p : Principal) (r : Request)
        → env.others d ≡ d
        → let (result, d', w') = request (serve services env p r) d w in IsInStep d' (w'.0)
    unfolding serve
    serve-IsInStep p r quiet = ground (arith, respond-Holds p r quiet)

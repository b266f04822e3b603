-- ===== src/Order/Runs.antt =====
-- Any number of requests, one after the other, each in a session of its own.
use market_place_app.Prelude.{
  ℕ, String, ◌≤◌, ◌≡◌, Bool, true, Option, none, some, List, [], ◌∷◌, arith, inl, inr, Bool-cases,
  Option-cases, ◌||◌, All,
}
use market_place_app.Prelude.Table.{get}
use market_place_app.Prelude.Session.{request}
use market_place_app.Prelude.Principal.{Principal}
use market_place_app.Order.Model.{Order, OrderDb, OrderStatus, delivered, status_eq, is_terminal}
use market_place_app.Order.Clients.{Peers}
use market_place_app.Order.Lifecycle.{
  Evolves, Evolves-refl, SameSnapshot, fulfillment-Evolves, refunded-Evolves, cancel-Evolves,
  authorized-Evolves, failed-Evolves,
}
use market_place_app.Order.Routes.{
  Request, cancel_order, authorized, failed, refunded, fulfilled, respond, permitted, serve,
}

-- A request as it arrives: the order, the caller, the bearer token, the correlation id, and what
-- other requests commit while it waits.
pub record Call : Type 0 where
  pub order_id : ℕ
  pub body : Request
  pub caller : Principal
  pub token : String
  pub request_id : Option String
  pub others : OrderDb → OrderDb

module _ {W : Type 0} (peers : Peers W) where
  pub step : Call → OrderDb → W → OrderDb × W
  step c d w =
      let (r, d', w') =
        request (serve peers c.others c.order_id c.body c.caller c.token c.request_id) d w in
      (d', w')

  pub run : List Call → OrderDb → W → OrderDb × W
  run [] d w = (d, w)
  run (c ∷ cs) d w = let (d', w') = step c d w in run cs d' w'

  respond-Evolves :
      (others : OrderDb → OrderDb) (k j : ℕ) (r : Request) (p : Principal) (token : String)
      (rid : Option String) (d : OrderDb) (w : W)
      → (others d).orders ≡ d.orders
      → Evolves
          (get j d.orders)
          (get j (request (respond peers others k r p token rid) d w).1.orders)
  unfolding respond
  respond-Evolves others k j (cancel_order body v) p token rid d w quiet =
      cancel-Evolves peers k j p rid d w others quiet body token v
  respond-Evolves others k j (authorized body) p token rid d w quiet =
      authorized-Evolves peers k j p rid d w body token
  respond-Evolves others k j (failed body) p token rid d w quiet =
      failed-Evolves peers k j p rid d w body token
  respond-Evolves others k j (refunded body) p token rid d w quiet =
      refunded-Evolves peers k j p rid d w body
  respond-Evolves others k j (fulfilled body) p token rid d w quiet =
      fulfillment-Evolves peers k j p rid d w body

  -- Whatever the request, its caller and the answers of the other services, and where no other
  -- request commits to the orders while a cancellation waits, each stored order is
  -- left as it is, or its version grows by one, its status stays or makes one of the allowed
  -- transitions, and its number, owner, cart, currency, total, items and reservation stay.
  pub step-Evolves :
      (c : Call) (j : ℕ) (d : OrderDb) (w : W)
      → (c.others d).orders ≡ d.orders
      → Evolves (get j d.orders) (get j (step c d w).0.orders)
  unfolding step serve
  step-Evolves c j d w quiet = elim (Bool-cases (permitted c.body c.caller)) [
    | inl e ↦
        rw e (respond-Evolves c.others c.order_id j c.body c.caller c.token c.request_id d w quiet)
    | inr e ↦ rw e (Evolves-refl (get j d.orders))
  ]

-- What stays of an order over any number of requests once it is closed.
abbrev pub Settled : Order → Option Order → Type 0
Settled o none = ⊥
Settled o (some o') = (o'.status ≡ o.status) × (o.version ≤ o'.version) × SameSnapshot o o'

-- Whatever is stored, no other request commits to the orders while this one waits.
abbrev pub IsAlone : Call → Type 0
IsAlone c = (d : OrderDb) → (c.others d).orders ≡ d.orders

-- Delivered, cancelled, or its payment failed.
abbrev pub is_closed : OrderStatus → Bool
is_closed status = status_eq status delivered || is_terminal status

closed_step :
    (o o₁ o₂ : Order)
    → is_closed o.status ≡ true
    → Settled o (some o₁)
    → Evolves (some o₁) (some o₂)
    → Settled o (some o₂)
unfolding is_terminal
closed_step o o₁ o₂ h s (inl e) = rw e s
closed_step o o₁ o₂ h s (inr (v, f, same)) = ground arith

module _ {W : Type 0} (peers : Peers W) (j : ℕ) (o : Order) (h : is_closed o.status ≡ true) where
  run-Settled_from :
      (cs : List Call) (d : OrderDb) (w : W) (o₁ : Order)
      → All IsAlone cs
      → get j d.orders ≡ some o₁
      → Settled o (some o₁)
      → Settled o (get j (run peers cs d w).0.orders)
  unfolding run
  run-Settled_from [] d w o₁ alone e s = rw e s
  run-Settled_from (c ∷ cs) d w o₁ alone e s =
      let moved : Evolves (some o₁) (get j (step peers c d w).0.orders) =
        rw e at (step-Evolves peers c j d w (alone.0 d)) in
      elim (Option-cases (get j (step peers c d w).0.orders)) [
        | inl q ↦ absurd (rw q at moved)
        | inr (o₂, q) ↦
            run-Settled_from cs (step peers c d w).0 (step peers c d w).1 o₂ alone.1 q
              (closed_step o o₁ o₂ h s (rw q at moved))
      ]

  -- An order that is delivered, cancelled or failed keeps its status and its snapshot over any
  -- number of requests that arrive after it closed, one after the other, and its version never falls.
  -- A cancellation under way when it closes is not among them.
  pub run-Settled :
      (cs : List Call) (d : OrderDb) (w : W)
      → All IsAlone cs
      → get j d.orders ≡ some o
      → Settled o (get j (run peers cs d w).0.orders)
  run-Settled cs d w alone e = run-Settled_from cs d w o alone e (ground arith)

-- ===== src/Market/InStep.antt =====
-- Shipments in step with their orders: what a write of a shipment with its order's move keeps.
use market_place_app.Prelude.{
  ℕ, ◌≡◌, Bool, true, false, Option, none, some, arith, ◌==◌, if◌then◌else◌,
}
use market_place_app.Prelude.Table.{get, put, get-put, find_row-none}
use market_place_app.Order.Model.{OrderStatus, status_eq, Order, OrderDb}
use market_place_app.Shipping.Model.{ShipmentStatus, Shipment, ShippingDb, get_by_order}

-- The order's status that a shipment stands for. A failed shipment leaves its order where it is.
abbrev pub stands_for : ShipmentStatus → Option OrderStatus
stands_for ShipmentStatus.pending = some OrderStatus.processing
stands_for ShipmentStatus.shipped = some OrderStatus.shipped
stands_for ShipmentStatus.delivered = some OrderStatus.delivered
stands_for ShipmentStatus.failed = none

abbrev has_status : Option Order → OrderStatus → Bool
has_status none status = false
has_status (some o) status = status_eq o.status status

abbrev pub agrees : Option Order → ShipmentStatus → Bool
agrees o status = elim (stands_for status) [ none ↦ true | some expected ↦ has_status o expected ]

-- Every shipment stands for its order's status, and no two shipments are of one order.
pub record IsInStep (s : ShippingDb) (d : OrderDb) : Type 0 where
  pub in_step :
      (k : ℕ) (x : Shipment)
      → get k s.shipments ≡ some x
      → agrees (get x.order_id d.orders) x.status ≡ true
  pub single :
      (j k : ℕ) (x y : Shipment)
      → get j s.shipments ≡ some x
      → get k s.shipments ≡ some y
      → x.order_id ≡ y.order_id
      → j ≡ k

-- Order `k` is now `o`, and the others are as they were.
abbrev pub Moves : ℕ → Order → OrderDb → OrderDb → Type 0
Moves k o d d' = (j : ℕ) → get j d'.orders ≡ (if k == j then some o else get j d.orders)

module _ (id : ℕ) (x : Shipment) (s s' : ShippingDb) (d d' : OrderDb) (o : Order)
    (written : s'.shipments ≡ put id x s.shipments) (h : IsInStep s d) where
  -- A stored shipment and its order, advanced together.
  pub moved-IsInStep :
      (old : Shipment)
      → get id s.shipments ≡ some old
      → x.order_id ≡ old.order_id
      → Moves x.order_id o d d'
      → agrees (some o) x.status ≡ true
      → IsInStep s' d'
  moved-IsInStep old stored same moves fits = record {
    in_step = λ k y e.
        ground
          (arith, get-put id k x s.shipments, moves y.order_id, h.in_step k y, h.single id k old y);
    single = λ j k y z a b c. ground (
      arith,
      get-put id j x s.shipments,
      get-put id k x s.shipments,
      h.single j k y z,
      h.single j k y old,
      h.single j k old z,
      h.single j k old old,
    );
  }

  -- A new shipment of an order that had none.
  pub new-IsInStep :
      get_by_order x.order_id s ≡ none
      → Moves x.order_id o d d'
      → agrees (some o) x.status ≡ true
      → IsInStep s' d'
  unfolding get_by_order
  new-IsInStep free moves fits = record {
    in_step = λ k y e. ground (
      arith,
      get-put id k x s.shipments,
      moves y.order_id,
      h.in_step k y,
      find_row-none (λ (z : Shipment). z.order_id == x.order_id) k y s.shipments free,
    );
    single = λ j k y z a b c. ground (
      arith,
      get-put id j x s.shipments,
      get-put id k x s.shipments,
      h.single j k y z,
      find_row-none (λ (z : Shipment). z.order_id == x.order_id) k z s.shipments free,
      find_row-none (λ (z : Shipment). z.order_id == x.order_id) j y s.shipments free,
    );
  }

-- An order advanced that has no shipment.
pub idle-IsInStep :
    (k : ℕ) (o : Order) (s : ShippingDb) (d d' : OrderDb)
    → get_by_order k s ≡ none
    → Moves k o d d'
    → IsInStep s d
    → IsInStep s d'
unfolding get_by_order
idle-IsInStep k o s d d' free moves h = record {
  in_step = λ j y e. ground (
    arith,
    moves y.order_id,
    h.in_step j y,
    find_row-none (λ (z : Shipment). z.order_id == k) j y s.shipments free,
  );
  single = h.single;
}

-- A failed shipment, its order left alone.
pub lost-IsInStep :
    (id : ℕ) (x old : Shipment) (s s' : ShippingDb) (d : OrderDb)
    → s'.shipments ≡ put id x s.shipments
    → get id s.shipments ≡ some old
    → x.order_id ≡ old.order_id
    → x.status ≡ ShipmentStatus.failed
    → IsInStep s d
    → IsInStep s' d
lost-IsInStep id x old s s' d written stored same gone h = record {
  in_step = λ k y e. ground (arith, get-put id k x s.shipments, h.in_step k y);
  single = λ j k y z a b c. ground (
    arith,
    get-put id j x s.shipments,
    get-put id k x s.shipments,
    h.single j k y z,
    h.single j k y old,
    h.single j k old z,
    h.single j k old old,
  );
}

-- ===== src/Order/Uniqueness.antt =====
-- One live order for each cart, and replayed checkouts.
use market_place_app.Prelude.{
  ℕ, String, ◌≡◌, refl, true, false, Option, some, ◌==◌, ◌&&◌, arith, str_eq, str_eq_iff,
  find-append_none,
}
use market_place_app.Prelude.Table.{get, put, get-put, get-put_self, find_row-none}
use market_place_app.Prelude.Session.{ok, request}
use market_place_app.Prelude.Principal.{Principal}
use market_place_app.Order.Model.{
  Order, OrderDb, occupies, by_customer_cart, idempotency, IdempotencyRecord,
}
use market_place_app.Order.Clients.{Peers}
use market_place_app.Order.Checkout.{create}
use market_place_app.Order.Drafts.{
  OrderCreate, Surroundings, insert_order, breaks_cart_index, breaks_other_index,
}

-- `uq_order_customer_cart`: no two orders of a customer for a cart, but for those that are
-- cancelled or whose payment failed.
pub record OneLiveOrder (d : OrderDb) : Type 0 where
  pub same_order :
      (customer cart j k : ℕ) (o o' : Order)
      → get j d.orders ≡ some o
      → get k d.orders ≡ some o'
      → occupies customer cart o ≡ true
      → occupies customer cart o' ≡ true
      → j ≡ k

orders-insert_order :
    (env : Surroundings) (body : OrderCreate) (o : Order) (p : Principal) (key : String)
    (rid : Option String) (d : OrderDb)
    → (insert_order env body o p key rid d).orders ≡ put env.new_id o d.orders
unfolding insert_order
orders-insert_order env body o p key rid d = refl

not_occupied :
    (customer cart k : ℕ) (o o' : Order) (d : OrderDb)
    → breaks_cart_index o d ≡ false
    → get k d.orders ≡ some o'
    → occupies customer cart o ≡ true
    → occupies customer cart o' ≡ false
unfolding breaks_cart_index by_customer_cart occupies
not_occupied customer cart k o o' d h e c =
    ground (arith, find_row-none (occupies o.customer_id o.cart_id) k o' d.orders)

-- A checkout that finds no live order for its cart keeps the rule.
pub insert_order-OneLiveOrder :
    (env : Surroundings) (body : OrderCreate) (o : Order) (p : Principal) (key : String)
    (rid : Option String) (d : OrderDb)
    → breaks_cart_index o d ≡ false
    → OneLiveOrder d
    → OneLiveOrder (insert_order env body o p key rid d)
insert_order-OneLiveOrder env body o p key rid d free h = record {
  same_order = λ customer cart j k a b ea eb ca cb. ground (
    arith,
    orders-insert_order env body o p key rid d,
    get-put env.new_id j o d.orders,
    get-put env.new_id k o d.orders,
    h.same_order customer cart j k a b,
    not_occupied customer cart j o a d free,
    not_occupied customer cart k o b d free,
  );
}

abbrev request_record : Surroundings → OrderCreate → Principal → String → IdempotencyRecord
request_record env body p key = record {
  actor_id = p.subject;
  key = key;
  request_hash = env.hash body;
  resource_id = env.new_id;
}

idempotency-insert_order :
    (env : Surroundings) (body : OrderCreate) (o : Order) (p : Principal) (key : String)
    (rid : Option String) (d : OrderDb)
    → breaks_other_index env.new_id o key d ≡ false
    → o.customer_id ≡ p.subject
    → idempotency p.subject key (insert_order env body o p key rid d)
      ≡ some (request_record env body p key)
unfolding insert_order breaks_other_index idempotency
idempotency-insert_order env body o p key rid d free owner = ground (
  arith,
  str_eq_iff key key,
  find-append_none (λ (r : IdempotencyRecord). r.actor_id == p.subject && str_eq r.key key)
      d.idempotency_records (request_record env body p key),
)

module _ {W : Type 0} (peers : Peers W) (env env' : Surroundings) (body : OrderCreate) (o : Order)
    (p : Principal) (key token : String) (rid rid' : Option String) (d : OrderDb) (w : W) where
  -- Once an order is stored under an id, number and key that were new, its buyer's request with the same key and the same body is answered
  -- with that order: nothing more is stored and no other service is called.
  pub create_replay :
      breaks_other_index env.new_id o key d ≡ false
      → o.customer_id ≡ p.subject
      → env'.hash body ≡ env.hash body
      → let d' = insert_order env body o p key rid d in
        request (create peers env' body p token key rid') d' w ≡ (ok (env.new_id, o), d', w)
  unfolding create
  create_replay free owner same = ground (
    arith,
    idempotency-insert_order env body o p key rid d free owner,
    orders-insert_order env body o p key rid d,
    get-put_self env.new_id o d.orders,
    str_eq_iff (env.hash body) (env'.hash body),
  )

-- ===== src/Order/Tests.antt =====
-- The order service on concrete orders, with services that answer every call and count the
-- releases of stock.
use market_place_app.Prelude.{ℕ, suc, ◌≡◌, refl, true, false, none, some, List, [], ◌∷◌, arith}
use market_place_app.Prelude.Table.{Table, get, put, find_row}
use market_place_app.Prelude.Session.{request, ok}
use market_place_app.Prelude.Principal.{Principal}
use market_place_app.Order.Model.{
  Order, OrderStatus, PaymentStatus, OrderDb, OrderItem, PaymentAuthorized, PaymentRefunded,
  by_customer_cart, occupies, is_terminal, idempotency, value,
}
use market_place_app.Order.Clients.{
  Peers, CartSnapshot, CartItemSnapshot, snapshot, read_cart, seller_for_product, read_owner,
  service_token, reserve_batch, read_batch,
}
use market_place_app.Order.Service.{payment_refunded}
use market_place_app.Order.Checkout.{create, place, reserve, resolve_sellers}
use market_place_app.Order.Drafts.{
  OrderCreate, Surroundings, insert_order, breaks_other_index, new_order, order_items,
  reservation_lines,
}
use market_place_app.Order.Routes.{authorized, cancel_order, serve}
use market_place_app.Order.Lifecycle.{Evolves}
use market_place_app.Order.Runs.{Call, step, run, Settled, step-Evolves, run-Settled}
use market_place_app.Order.Lines.{LineByLine}
use market_place_app.Order.Placing.{Settles, place_lem}
use market_place_app.Order.Payments.{refund_lem, Ends}
use market_place_app.Order.Uniqueness.{OneLiveOrder, create_replay}
use market_place_app.Order.Checkouts.{create-OneLiveOrder, create-IsLogged}
use market_place_app.Order.Logged.{IsLogged, last_status, serve-IsLogged}

abbrev mug : CartItemSnapshot
mug = record {
  product_id = 4;
  variant_id = 5;
  sku = "MUG";
  product_name = "Mug";
  variant_name = "White";
  quantity = 2;
  unit_price = 900;
  product_version = 1;
}

abbrev cart : CartSnapshot
cart = record {
  id = 3;
  customer_id = 7;
  currency_code = "USD";
  subtotal = 1800;
  version = 6;
  items = mug ∷ [];
}

-- The state of the other services is how often stock was released.
abbrev peers : Peers ℕ
peers = record {
  get_cart = λ token w. (some (200, cart), w);
  post_readiness =
      λ version token w. (some (200, record { ready = true; price_changed = false }), w);
  get_product_owner = λ product w. (some (200, 9), w);
  post_batch = λ body token key w. (some (201, 77), w);
  post_commit = λ group reference token w. (some 200, w);
  post_release = λ group reason token w. (some 204, suc w);
  post_checked_out = λ cart order customer token w. (some 200, w);
  post_notification = λ customer number kind w. w;
  post_service_token = none;
}

abbrev env : Surroundings
env = record {
  new_id = 50;
  now = 100;
  date = "20260101";
  short_hex = λ n. "00000000AB";
  order_number_prefix = "MP";
  reservation_minutes = 15;
  hash = λ body. "h";
  others = λ db. db;
}

abbrev buyer : Principal
buyer = record { subject = 7; roles = "buyer" ∷ []; scopes = [] }

abbrev payments : Principal
payments = record { subject = 2; roles = []; scopes = "orders:payment" ∷ [] }

abbrev checkout : OrderCreate
checkout = record {
  cart_id = 3;
  cart_version = 6;
  shipping_address = "here";
  billing_address = none;
}

abbrev no_orders : OrderDb
no_orders = record { orders = []; idempotency_records = []; history = []; outbox = []; audits = [] }

-- An order of the cart with this status and this payment status.
abbrev order : OrderStatus → PaymentStatus → Order
order status payment_status = record {
  order_number = "MP-1";
  customer_id = 7;
  cart_id = 3;
  status = status;
  payment_status = payment_status;
  currency_code = "USD";
  subtotal = 1800;
  tax_total = 0;
  shipping_total = 0;
  discount_total = 0;
  grand_total = 1800;
  shipping_address = "here";
  billing_address = "here";
  reservation_group_id = some 77;
  payment_reference = none;
  cancellation_reason = none;
  version = 1;
  items = [];
}

abbrev pending_order : Order
pending_order = order OrderStatus.pending_payment PaymentStatus.pending

abbrev confirmed_order : Order
confirmed_order = order OrderStatus.confirmed PaymentStatus.authorized

abbrev cancelled_order : Order
cancelled_order = order OrderStatus.cancelled PaymentStatus.pending

abbrev holding : Order → OrderDb
holding o = record no_orders { orders = (50, o) ∷ [] }

stored : (o : Order) → get 50 (holding o).orders ≡ some o
unfolding get
stored o = refl

abbrev paid : PaymentAuthorized
paid = record { payment_reference = "pi_1"; authorized_amount = 1800; currency_code = "USD" }

abbrev payment_call : Call
payment_call = record {
  order_id = 50;
  body = authorized paid;
  caller = payments;
  token = "t";
  request_id = none;
  others = λ d. d;
}

abbrev cancel_call : Call
cancel_call = record {
  order_id = 50;
  body = cancel_order (record { reason = "late" }) 1;
  caller = buyer;
  token = "t";
  request_id = none;
  others = λ d. d;
}

step-Evolves_example :
    Evolves
      (get 50 (holding pending_order).orders)
      (get 50 (step peers payment_call (holding pending_order) 0).0.orders)
step-Evolves_example = step-Evolves peers payment_call 50 (holding pending_order) 0 refl

run-Settled_example :
    Settled cancelled_order
      (get 50 (run peers (payment_call ∷ cancel_call ∷ []) (holding cancelled_order) 0).0.orders)
unfolding is_terminal
run-Settled_example =
    run-Settled peers 50 cancelled_order refl (payment_call ∷ cancel_call ∷ [])
      (holding cancelled_order) 0 ((λ d. refl), ((λ d. refl), tt)) (stored cancelled_order)

abbrev half_back : PaymentRefunded
half_back = record { refunded_amount = 900; currency_code = "USD"; reason = none }

refund_lem_example :
    Ends 50 confirmed_order half_back payments none
      (holding confirmed_order)
      0
      (stored confirmed_order)
      (request {W = ℕ} (payment_refunded 50 half_back payments none) (holding confirmed_order) 0)
refund_lem_example =
    refund_lem 50 confirmed_order half_back payments none (holding confirmed_order) 0
      (stored confirmed_order)

-- A checkout's order and logs.
abbrev placed : OrderDb
placed = insert_order env checkout pending_order buyer "key" none no_orders

placed-IsLogged : IsLogged 50 placed
unfolding insert_order get put last_status value
placed-IsLogged = ground arith

serve-IsLogged_example :
    IsLogged 50 (request (serve peers (λ d. d) 50 (authorized paid) payments "t" none) placed 0).1
serve-IsLogged_example =
    serve-IsLogged peers (λ d. d) 50 50 (authorized paid) payments "t" none placed 0 refl
      placed-IsLogged

-- A cart whose order was cancelled.
abbrev once_cancelled : OrderDb
once_cancelled = record no_orders { orders = (40, cancelled_order) ∷ [] }

one_cancelled : OneLiveOrder once_cancelled
unfolding get occupies is_terminal
one_cancelled = record { same_order = λ customer cart j k a b ea eb ca cb. ground arith }

-- The cart of a cancelled order is ordered again.
create-OneLiveOrder_example :
    OneLiveOrder (request (create peers env checkout buyer "t" "key" none) once_cancelled 0).1
create-OneLiveOrder_example =
    create-OneLiveOrder peers env checkout buyer "t" "key" none once_cancelled 0 one_cancelled
      one_cancelled

nothing-IsLogged : IsLogged 50 no_orders
unfolding get last_status
nothing-IsLogged = ground arith

create-IsLogged_example :
    IsLogged 50 (request (create peers env checkout buyer "t" "key" none) no_orders 0).1
create-IsLogged_example =
    create-IsLogged 50 peers env checkout buyer "t" "key" none no_orders 0 nothing-IsLogged
      nothing-IsLogged

new_key : breaks_other_index 50 pending_order "key" no_orders ≡ false
unfolding breaks_other_index idempotency get find_row
new_key = refl

create_replay_example :
    request (create peers env checkout buyer "t" "key" none) placed 4
    ≡ (ok (50, pending_order), placed, 4)
create_replay_example =
    create_replay peers env env checkout pending_order buyer "key" "t" none none no_orders 4 new_key
      refl refl

no_order_yet : by_customer_cart 7 3 no_orders ≡ none
unfolding by_customer_cart find_row
no_order_yet = refl

-- The products' sellers.
abbrev sellers : Table ℕ
sellers = (4, 9) ∷ []

reserved :
    reserve peers env checkout buyer "t" "key"
      (record { durable = no_orders; working = no_orders; world = 0 })
    ≡ (ok (cart, sellers, 77), record { durable = no_orders; working = no_orders; world = 0 })
unfolding reserve snapshot read_cart resolve_sellers seller_for_product read_owner reservation_lines
    service_token reserve_batch read_batch get put
reserved = refl

place_lem_example :
    (items : List OrderItem) × (order_items sellers cart.items ≡ some items)
    × LineByLine sellers cart.items (new_order env checkout buyer cart 77 items).items
    × Settles peers env checkout buyer "t" "key" none
        (new_order env checkout buyer cart 77 items)
        77
        no_orders
        0
        (request (place peers env checkout buyer "t" "key" none) no_orders 0)
place_lem_example =
    place_lem peers env checkout buyer "t" "key" none no_orders 0 cart sellers 77
      (record { durable = no_orders; working = no_orders; world = 0 }) no_order_yet reserved

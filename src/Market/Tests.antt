-- ===== src/Market/Tests.antt =====
-- The shipping service with the order service behind it, on a concrete order.
use market_place_app.Prelude.{refl, none, some, [], ◌∷◌, arith}
use market_place_app.Prelude.Table.{get}
use market_place_app.Prelude.Session.{request}
use market_place_app.Prelude.Principal.{Principal}
use market_place_app.Order.Model.{Order, OrderStatus, PaymentStatus, OrderDb}
use market_place_app.Order.Clients as Order
use market_place_app.Shipping.Model.{ShippingDb}
use market_place_app.Shipping.Service.{Surroundings}
use market_place_app.Shipping.Routes.{create, serve}
use market_place_app.Market.OrderApi.{answered}
use market_place_app.Market.InStep.{IsInStep}
use market_place_app.Market.Shipments.{joined, serve-IsInStep}

-- The order service's own peers take every call.
abbrev peers : Order.Peers Unit
peers = record {
  get_cart = λ token w. (none, w);
  post_readiness = λ version token w. (none, w);
  get_product_owner = λ product w. (none, w);
  post_batch = λ body token key w. (none, w);
  post_commit = λ group reference token w. (some 200, w);
  post_release = λ group reason token w. (some 204, w);
  post_checked_out = λ cart order customer token w. (some 200, w);
  post_notification = λ customer number kind w. w;
  post_service_token = none;
}

abbrev shipping : Principal
shipping = record { subject = 3; roles = []; scopes = "orders:fulfillment" ∷ [] }

abbrev seller : Principal
seller = record { subject = 9; roles = "seller" ∷ []; scopes = [] }

abbrev confirmed : Order
confirmed = record {
  order_number = "MP-1";
  customer_id = 7;
  cart_id = 3;
  status = OrderStatus.confirmed;
  payment_status = PaymentStatus.captured;
  currency_code = "USD";
  subtotal = 1800;
  tax_total = 0;
  shipping_total = 0;
  discount_total = 0;
  grand_total = 1800;
  shipping_address = "here";
  billing_address = "here";
  reservation_group_id = some 77;
  payment_reference = some "pi";
  cancellation_reason = none;
  version = 2;
  items = [];
}

abbrev orders : OrderDb
orders = record {
  orders = (1, confirmed) ∷ [];
  idempotency_records = [];
  history = [];
  outbox = [];
  audits = [];
}

abbrev no_shipments : ShippingDb
no_shipments = record { shipments = []; events = []; idempotency_records = [] }

abbrev env : Surroundings
env = record { new_id = 5; now = 100; hash = "h"; request_id = none; others = λ d. d }

in_step : IsInStep no_shipments orders
unfolding get
in_step = record { in_step = λ k x e. ground arith; single = λ j k x y a b c. ground arith }

serve-IsInStep_example :
    (let (result, d', w') =
        request
          (serve
            (joined peers (λ token. some shipping) (λ v. (some (200, "t"), v)) (λ w. answered))
            env
            seller
            (create (record { order_id = 1; carrier = "post"; service_level = none }) "k"))
          no_shipments
          (orders, tt) in
      IsInStep d' (w'.0))
serve-IsInStep_example =
    serve-IsInStep peers (λ token. some shipping) (λ v. (some (200, "t"), v)) (λ w. answered) env
      (λ w. λ e. cc) no_shipments (orders, tt) in_step seller
      (create (record { order_id = 1; carrier = "post"; service_level = none }) "k") refl

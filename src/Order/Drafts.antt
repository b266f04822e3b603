-- ===== src/Order/Drafts.antt =====
-- services/order-service/app/service.py: the rows of a new order, which `create` makes and stores.
use market_place_app.Prelude.{
  ℕ, String, ◌+++◌, Bool, Option, none, some, List, [], ◌∷◌, ◌++◌, ◌*◌, ◌||◌, str_eq, is_some,
}
use market_place_app.Prelude.Table.{Table, get, find_row}
use market_place_app.Prelude.Principal.{Principal}
use market_place_app.Order.Model.{
  pending_payment, PaymentStatus, value, Order, OrderItem, OrderDb, by_customer_cart, idempotency,
}
use market_place_app.Order.Clients.{CartSnapshot, CartItemSnapshot, BatchReservationLine}
use market_place_app.Order.Transitions.{event, audit, save, add_history}

pub record OrderCreate : Type 0 where
  pub cart_id : ℕ
  pub cart_version : ℕ
  pub shipping_address : String
  pub billing_address : Option String

-- What the body takes from outside: `uuid4()`, the clock, `strftime`, `hex[:10].upper()`, the
-- settings, the SHA-256 of the request's JSON, and the concurrent writes.
pub record Surroundings : Type 0 where
  pub new_id : ℕ
  pub now : ℕ
  pub date : String
  pub short_hex : ℕ → String
  pub order_number_prefix : String
  pub reservation_minutes : ℕ
  pub hash : OrderCreate → String
  pub others : OrderDb → OrderDb

-- `_order_number`
unfoldable pub order_number : Surroundings → String
order_number env =
    env.order_number_prefix +++ ("-" +++ (env.date +++ ("-" +++ env.short_hex env.new_id)))

abbrev pub is_empty : List CartItemSnapshot → Bool
is_empty [] = Bool.true
is_empty (x ∷ xs) = Bool.false

-- `seller_cache[item.product_id]` for each item, in order; a missing key would be a `KeyError`.
unfoldable pub reservation_lines :
    Table ℕ → List CartItemSnapshot → Option (List BatchReservationLine)
reservation_lines cache [] = some []
reservation_lines cache (i ∷ is) =
    let rest = reservation_lines cache is in
    elim (get i.product_id cache) [
      | none ↦ none
      | some seller ↦ elim rest [
        | none ↦ none
        | some lines ↦
            some (record { sku = i.sku; quantity = i.quantity; seller_id = seller } ∷ lines)
      ]
    ]

unfoldable pub order_items : Table ℕ → List CartItemSnapshot → Option (List OrderItem)
order_items cache [] = some []
order_items cache (i ∷ is) =
    let rest = order_items cache is in
    elim (get i.product_id cache) [
      | none ↦ none
      | some seller ↦ elim rest [
        | none ↦ none
        | some items ↦ some (
            record {
              product_id = i.product_id;
              variant_id = i.variant_id;
              seller_id = seller;
              sku = i.sku;
              product_name = i.product_name;
              variant_name = i.variant_name;
              quantity = i.quantity;
              unit_price = i.unit_price;
              line_total = i.unit_price * i.quantity;
              product_version = i.product_version;
            }
            ∷ items)
      ]
    ]

abbrev billing_or_shipping : OrderCreate → String
billing_or_shipping body = elim body.billing_address [ none ↦ body.shipping_address | some a ↦ a ]

unfoldable pub new_order :
    Surroundings → OrderCreate → Principal → CartSnapshot → ℕ → List OrderItem → Order
unfolding order_number
new_order env body principal cart group items = record {
  order_number = order_number env;
  customer_id = principal.subject;
  cart_id = cart.id;
  status = pending_payment;
  payment_status = PaymentStatus.pending;
  currency_code = cart.currency_code;
  subtotal = cart.subtotal;
  tax_total = 0;
  shipping_total = 0;
  discount_total = 0;
  grand_total = cart.subtotal;
  shipping_address = body.shipping_address;
  billing_address = billing_or_shipping body;
  reservation_group_id = some group;
  payment_reference = none;
  cancellation_reason = none;
  version = 1;
  items = items;
}

-- The rows that `create` adds.
unfoldable pub insert_order :
    Surroundings → OrderCreate → Order → Principal → String → Option String → OrderDb → OrderDb
unfolding save add_history event audit
insert_order env body o principal key request_id db =
    let id = env.new_id in
    let db₁ = save id o db in
    let db₂ = record db₁ {
      idempotency_records =
          db₁.idempotency_records
          ++ record {
            actor_id = principal.subject;
            key = key;
            request_hash = env.hash body;
            resource_id = id;
          }
            ∷ [];
    } in
    let started = some "checkout_started" in
    let db₃ = add_history id none (value pending_payment) principal.subject started db₂ in
    let db₄ = event id o "order.created" request_id db₃ in
    audit id o principal.subject "order.create" request_id db₄

-- The constraints that the insertion can violate: the key, the order number and the key of the
-- request are unique as well as the customer's live order for a cart, which is reported first.
unfoldable pub breaks_cart_index : Order → OrderDb → Bool
breaks_cart_index o db = is_some (by_customer_cart o.customer_id o.cart_id db)

unfoldable pub breaks_other_index : ℕ → Order → String → OrderDb → Bool
breaks_other_index id o key db =
    is_some (get id db.orders)
    || is_some (find_row (λ other. str_eq other.order_number o.order_number) db.orders)
    || is_some (idempotency o.customer_id key db)

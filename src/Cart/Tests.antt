-- ===== src/Cart/Tests.antt =====
-- The cart service on concrete requests, with a product service that sells mugs in euros.
use market_place_app.Prelude.{ℕ, ◌≡◌, refl, true, none, some, List, [], ◌∷◌, arith}
use market_place_app.Prelude.Session.{ok}
use market_place_app.Cart.Model.{Cart, CartDb, ProductSnapshot}
use market_place_app.Cart.Clients.{Peers}
use market_place_app.Cart.Items.{move_line, item_of}
use market_place_app.Cart.Service.{Caller, Surroundings, empty_cart_of}
use market_place_app.Cart.Keeping.{AllTidy}
use market_place_app.Cart.Runs.{Request, add, update, remove, run, run-AllTidy}

abbrev peers : Peers Unit
peers = record {
  get_product = λ product w. (
    some (
      200,
      record {
        name = "Mug";
        first_image = none;
        variants =
            record {
              id = 5;
              is_active = true;
              sku = "MUG";
              name = "White";
              price_amount = 900;
              currency_code = "EUR";
              version = 1;
            }
            ∷ [];
      },
    ),
    w,
  );
  get_availability = λ sku quantity w. (some (200, (quantity, true)), w);
}

abbrev env : Surroundings
env = record {
  new_cart = 50;
  new_id = λ n. n;
  raw_token = "r";
  now = 100;
  token_hash = λ t. t;
  subject_text = λ n. "7";
  body_hash = "h";
  cart_ttl = 30;
  guest_cart_ttl = 7;
  max_distinct_items = 100;
  max_item_quantity = 3;
  others = λ d. d;
}

abbrev buyer : Caller
buyer = record {
  principal = some (record { subject = 7; roles = "buyer" ∷ []; scopes = [] });
  guest_token = none;
}

abbrev mugs : ℕ → Request
mugs quantity =
    add (record { product_id = 4; variant_id = 5; quantity = quantity }) buyer quantity none

abbrev no_carts : CartDb
no_carts = record { carts = []; audit_logs = []; outbox = []; idempotency_records = [] }

abbrev calls : List (Surroundings × Request)
calls = (env, mugs 1) ∷ (env, mugs 2) ∷ (env, update 0 3 buyer 3) ∷ (env, remove 0 buyer 4) ∷ []

run-AllTidy_example : AllTidy 3 (run peers calls no_carts tt).0
run-AllTidy_example =
    run-AllTidy peers 3 calls no_carts tt (omega arith)
      ((refl, (λ d h. h)), ((refl, (λ d h. h)), ((refl, (λ d h. h)), ((refl, (λ d h. h)), tt)))) tt

abbrev euros : ProductSnapshot
euros = record {
  product_id = 4;
  variant_id = 5;
  sku = "MUG";
  product_name = "Mug";
  variant_name = "White";
  image_url = none;
  unit_price = 900;
  currency_code = "EUR";
  product_version = 1;
}

abbrev new_cart_of_buyer : Cart
new_cart_of_buyer = empty_cart_of (some 7) none 200

-- A cart with a line in dollars.
abbrev dollars : Cart
dollars = record new_cart_of_buyer {
  items = item_of 1 1 (record euros { variant_id = 6; currency_code = "USD" }) ∷ [];
}

-- A saved item that is sold in euros joins it.
mixed_currencies :
    move_line 3 2 euros dollars
    ≡ ok (record dollars {
      items =
          item_of 1 1 (record euros { variant_id = 6; currency_code = "USD" })
          ∷ item_of 2 1 euros
          ∷ [];
    })
unfolding move_line
mixed_currencies = refl

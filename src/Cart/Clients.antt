-- ===== src/Cart/Clients.antt =====
-- services/cart-service/app/clients.py: the product and the inventory service as the cart service meets them. They are a
-- parameter: what an HTTP request answers, `none` for a failed connection.
use market_place_app.Prelude.{
  ℕ, String, Bool, Option, none, some, List, ◌==◌, leb, find, if◌then◌else◌,
}
use market_place_app.Prelude.Session.{Result, ok, err, Failure, service_error}
use market_place_app.Cart.Model.{ProductSnapshot}

pub data Code : Type 0 where
  concurrent_cart_change cart_not_active cart_expired version_conflict : Code
  cart_identity_required cart_not_found guest_cart_not_found idempotency_conflict : Code
  quantity_limit cart_item_limit currency_mismatch cart_item_not_found saved_item_not_found : Code
  empty_cart product_service_unavailable product_not_available product_service_error : Code
  variant_not_available inventory_service_unavailable inventory_service_error forbidden : Code

abbrev pub Error : Type 0
Error = Failure Code

-- What the code reads of a product.
pub record Variant : Type 0 where
  pub id : ℕ
  pub is_active : Bool
  pub sku : String
  pub name : String
  pub price_amount : ℕ
  pub currency_code : String
  pub version : ℕ

pub record Product : Type 0 where
  pub name : String
  pub first_image : Option String
  pub variants : List Variant

pub record Peers (W : Type 0) : Type 0 where
  pub get_product : ℕ → W → Option (ℕ × Product) × W
  -- What is available of a SKU, and whether that is the quantity asked for.
  pub get_availability : String → ℕ → W → Option (ℕ × (ℕ × Bool)) × W

abbrev fail : {A : Type 0} → ℕ → Code → Result Error A
fail status code = err (service_error status code)

abbrev snapshot_of : ℕ → ℕ → Product → Option Variant → Result Error ProductSnapshot
snapshot_of product_id variant_id product none = fail 422 variant_not_available
snapshot_of product_id variant_id product (some v) =
    if v.is_active
    then ok (record {
      product_id = product_id;
      variant_id = variant_id;
      sku = v.sku;
      product_name = product.name;
      variant_name = v.name;
      image_url = product.first_image;
      unit_price = v.price_amount;
      currency_code = v.currency_code;
      product_version = v.version;
    })
    else fail 422 variant_not_available

unfoldable pub read_product : ℕ → ℕ → Option (ℕ × Product) → Result Error ProductSnapshot
read_product product_id variant_id none = fail 503 product_service_unavailable
read_product product_id variant_id (some (status, product)) =
    if status == 404
    then fail 422 product_not_available
    else if leb 400 status
    then fail 502 product_service_error
    else snapshot_of product_id variant_id product (find (λ v. v.id == variant_id) product.variants)

unfoldable pub read_availability : Option (ℕ × (ℕ × Bool)) → Result Error (ℕ × Bool)
read_availability none = fail 503 inventory_service_unavailable
read_availability (some (status, available)) =
    if leb 400 status then fail 502 inventory_service_error else ok available

module _ {W : Type 0} (peers : Peers W) where
  unfoldable pub get_snapshot : ℕ → ℕ → W → Result Error ProductSnapshot × W
  get_snapshot product_id variant_id w =
      let (answer, w') = peers.get_product product_id w in
      (read_product product_id variant_id answer, w')

  unfoldable pub availability : String → ℕ → W → Result Error (ℕ × Bool) × W
  availability sku quantity w =
      let (answer, w') = peers.get_availability sku quantity w in (read_availability answer, w')

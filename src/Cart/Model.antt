-- ===== src/Cart/Model.antt =====
-- services/cart-service/app/models, the queries of repositories/cart_repository.py and the bodies of
-- schemas/cart.py. A cart is stored with its items; times are numbers, money is in cents.
use market_place_app.Prelude.{
  ℕ, String, Bool, true, false, Option, none, some, List, ◌==◌, ◌&&◌, str_eq, find,
}
use market_place_app.Prelude.Table.{Table, find_row}

pub data CartStatus : Type 0 where
  active checked_out abandoned expired merged : CartStatus

abbrev pub is_active : CartStatus → Bool
is_active CartStatus.active = true
is_active _ = false

pub record CartItem : Type 0 where
  pub id : ℕ
  pub product_id : ℕ
  pub variant_id : ℕ
  pub sku : String
  pub product_name : String
  pub variant_name : String
  pub image_url : Option String
  pub quantity : ℕ
  pub unit_price : ℕ
  pub currency_code : String
  pub product_version : ℕ
  pub version : ℕ

pub record SavedItem : Type 0 where
  pub id : ℕ
  pub product_id : ℕ
  pub variant_id : ℕ
  pub sku : String
  pub product_name : String
  pub variant_name : String
  pub image_url : Option String
  pub unit_price : ℕ
  pub currency_code : String

pub record Cart : Type 0 where
  pub customer_id : Option ℕ
  pub guest_token_hash : Option String
  pub status : CartStatus
  pub currency_code : String
  pub expires_at : ℕ
  pub merged_into_cart_id : Option ℕ
  pub version : ℕ
  pub items : List CartItem
  pub saved_items : List SavedItem

pub record AuditLog : Type 0 where
  pub actor_id : Option ℕ
  pub action : String
  pub resource_id : ℕ
  pub cart_version : ℕ

pub record OutboxEvent : Type 0 where
  pub aggregate_id : ℕ
  pub event_type : String
  pub customer_id : Option ℕ
  pub version : ℕ

pub record IdempotencyRecord : Type 0 where
  pub actor_key : String
  pub idempotency_key : String
  pub request_hash : String
  pub resource_id : ℕ

pub record CartDb : Type 0 where
  pub carts : Table Cart
  pub audit_logs : List AuditLog
  pub outbox : List OutboxEvent
  pub idempotency_records : List IdempotencyRecord

abbrev is_number : Option ℕ → ℕ → Bool
is_number none n = false
is_number (some m) n = m == n

abbrev is_text : Option String → String → Bool
is_text none t = false
is_text (some s) t = str_eq s t

unfoldable pub get_active_customer_cart : ℕ → CartDb → Option (ℕ × Cart)
get_active_customer_cart customer db =
    find_row (λ c. is_number c.customer_id customer && is_active c.status) db.carts

unfoldable pub get_guest_cart : String → CartDb → Option (ℕ × Cart)
get_guest_cart hash db =
    find_row (λ c. is_text c.guest_token_hash hash && is_active c.status) db.carts

unfoldable pub get_idempotency : String → String → CartDb → Option IdempotencyRecord
get_idempotency actor key db =
    find (λ r. str_eq r.actor_key actor && str_eq r.idempotency_key key) db.idempotency_records

pub record ProductSnapshot : Type 0 where
  pub product_id : ℕ
  pub variant_id : ℕ
  pub sku : String
  pub product_name : String
  pub variant_name : String
  pub image_url : Option String
  pub unit_price : ℕ
  pub currency_code : String
  pub product_version : ℕ

pub record CartItemCreate : Type 0 where
  pub product_id : ℕ
  pub variant_id : ℕ
  pub quantity : ℕ

-- ===== src/Inventory/Model.antt =====
-- services/inventory-service/app/models and the queries of repositories/inventory_repository.py.
-- A quantity is a natural number, as the table's constraints demand; a change of one is signed.
-- Logged rows keep the row that they snapshot; their own keys and times are left out.
use market_place_app.Prelude.{
  ℕ, String, ◌-◌, Bool, true, false, Option, none, some, List, ◌==◌, ◌&&◌, leb, str_eq, find,
}
use market_place_app.Prelude.Int.{ℤ}
use market_place_app.Prelude.Table.{Table, filter_rows}
use market_place_app.Prelude.Session.{Tx, Failure}

pub data ReservationStatus : Type 0 where
  active committed released expired : ReservationStatus

unfoldable pub value : ReservationStatus → String
value active = "active"
value committed = "committed"
value released = "released"
value expired = "expired"

abbrev pub is_active : ReservationStatus → Bool
is_active active = true
is_active _ = false

abbrev pub is_committed : ReservationStatus → Bool
is_committed committed = true
is_committed _ = false

abbrev pub is_released : ReservationStatus → Bool
is_released released = true
is_released _ = false

pub data MovementType : Type 0 where
  receipt adjustment reservation release commitment return : MovementType

pub data MovementReason : Type 0 where
  purchase_receipt cycle_count damage customer_order reservation_expired : MovementReason
  customer_cancelled customer_return admin_correction : MovementReason

pub record Warehouse : Type 0 where
  pub code : String
  pub name : String
  pub address_reference : Option String
  pub is_active : Bool
  pub version : ℕ

pub record CatalogSku : Type 0 where
  pub product_id : ℕ
  pub seller_id : ℕ
  pub sku : String
  pub is_active : Bool
  pub version : ℕ

pub record InventoryItem : Type 0 where
  pub warehouse_id : ℕ
  pub product_id : ℕ
  pub variant_id : ℕ
  pub seller_id : ℕ
  pub sku : String
  pub on_hand_quantity : ℕ
  pub reserved_quantity : ℕ
  pub low_stock_threshold : ℕ
  pub is_active : Bool
  pub version : ℕ

-- `InventoryItem.available_quantity`
abbrev pub available_quantity : InventoryItem → ℕ
available_quantity item = item.on_hand_quantity - item.reserved_quantity

pub record InventoryReservation : Type 0 where
  pub inventory_item_id : ℕ
  pub customer_id : ℕ
  pub cart_reference : Option String
  pub order_reference : Option String
  pub reservation_group_id : Option ℕ
  pub quantity : ℕ
  pub status : ReservationStatus
  pub expires_at : ℕ
  pub resolved_at : Option ℕ
  pub version : ℕ

-- What a movement refers to: the key of a row, or the text of an order's reference.
pub data Reference : Type 0 where
  by_id : ℕ → Reference
  by_text : String → Reference

pub record InventoryMovement : Type 0 where
  pub inventory_item_id : ℕ
  pub movement_type : MovementType
  pub reason : MovementReason
  pub on_hand_delta : ℤ
  pub reserved_delta : ℤ
  pub resulting_on_hand : ℕ
  pub resulting_reserved : ℕ
  pub reference_type : Option String
  pub reference_id : Option Reference
  pub actor_id : ℕ
  pub note : Option String
  pub created_at : ℕ

-- The JSON of a row, as `_snapshot` takes it.
pub data Snapshot : Type 0 where
  nothing : Snapshot
  of_warehouse : Warehouse → Snapshot
  of_sku : CatalogSku → Snapshot
  of_item : InventoryItem → Snapshot
  of_reservation : InventoryReservation → Snapshot

pub record AuditLog : Type 0 where
  pub actor_id : ℕ
  pub action : String
  pub resource_type : String
  pub resource_id : ℕ
  pub before_data : Snapshot
  pub after_data : Snapshot
  pub request_id : Option String

pub record OutboxEvent : Type 0 where
  pub aggregate_id : ℕ
  pub event_type : String
  pub item : InventoryItem
  pub reservation : Option (ℕ × InventoryReservation)
  pub correlation_id : Option String

pub record IdempotencyRecord : Type 0 where
  pub actor_id : ℕ
  pub idempotency_key : String
  pub request_hash : String
  pub resource_type : String
  pub resource_id : ℕ

pub record InventoryDb : Type 0 where
  pub warehouses : Table Warehouse
  pub catalog : Table CatalogSku
  pub items : Table InventoryItem
  pub reservations : Table InventoryReservation
  pub movements : List InventoryMovement
  pub audits : List AuditLog
  pub outbox : List OutboxEvent
  pub idempotency_records : List IdempotencyRecord

pub data Code : Type 0 where
  warehouse_not_found invalid_warehouse invalid_catalog_sku catalog_sku_forbidden : Code
  insufficient_unreserved_stock inventory_item_not_found insufficient_stock : Code
  invalid_expiration invalid_sku reservation_group_not_active reservation_expired : Code
  inventory_item_missing reservation_group_not_found reservation_forbidden : Code
  reservation_not_found reservation_not_active inventory_forbidden idempotency_conflict : Code
  version_conflict : Code

-- The service calls no other service.
abbrev pub Handler : Type 0 → Type 0
Handler A = Tx InventoryDb Unit (Failure Code) A

-- What a request takes from outside: the clock, the settings, new ids and the SHA-256 of its body.
pub record Surroundings : Type 0 where
  pub now : ℕ
  pub default_reservation_minutes : ℕ
  pub max_reservation_minutes : ℕ
  pub new_id : ℕ → ℕ
  pub hash : String
  pub request_id : Option String

-- `list_reservations_by_group`
unfoldable pub in_group : ℕ → InventoryReservation → Bool
in_group group r = elim r.reservation_group_id [ none ↦ false | some g ↦ g == group ]

unfoldable pub list_reservations_by_group : ℕ → InventoryDb → Table InventoryReservation
list_reservations_by_group group db = filter_rows (in_group group) db.reservations

-- The rows of `get_items_for_reservation` that belong to one pair.
unfoldable pub sells : ℕ → String → InventoryItem → Bool
sells seller sku item = item.seller_id == seller && str_eq item.sku sku && item.is_active

unfoldable pub items_for_reservation : ℕ → String → InventoryDb → Table InventoryItem
items_for_reservation seller sku db = filter_rows (sells seller sku) db.items

-- The filter of `list_expired_active`.
unfoldable pub is_due : ℕ → InventoryReservation → Bool
is_due now r = is_active r.status && leb r.expires_at now

unfoldable pub idempotency : ℕ → String → InventoryDb → Option IdempotencyRecord
idempotency actor key db =
    find (λ r. r.actor_id == actor && str_eq r.idempotency_key key) db.idempotency_records

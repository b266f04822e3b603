-- ===== src/Inventory/Items.antt =====
-- services/inventory-service/app/services/inventory_service.py: the stock of an item: create_item,
-- update_item and adjust_stock.
use market_place_app.Prelude.{
  ℕ, String, Bool, false, Option, none, some, [], ◌∷◌, ◌+◌, ◌-◌, ◌==◌, ltb, ◌&&◌, ◌||◌, not, str_eq,
  is_some, if◌then◌else◌,
}
use market_place_app.Prelude.Int.{ℤ, pos, pos_part, neg_part}
use market_place_app.Prelude.Table.{get, find_row}
use market_place_app.Prelude.Session.{
  pure, query, or_raise, ◌>>=◌, ◌>>◌, raise_if, modify, commit, service_error, integrity_error,
}
use market_place_app.Prelude.Principal.{Principal, has_role}
use market_place_app.Inventory.Model.{
  Warehouse, CatalogSku, InventoryItem, InventoryDb, MovementType, MovementReason, by_id, nothing,
  of_item, invalid_warehouse, invalid_catalog_sku, catalog_sku_forbidden,
  insufficient_unreserved_stock, inventory_item_not_found, inventory_forbidden, version_conflict,
  Handler, Surroundings,
}
use market_place_app.Inventory.Writes.{
  audit, event, movement, save_item, low_stock_event, remember, given, idempotency_lookup,
}
use market_place_app.Inventory.Stock.{
  InventoryItemCreate, InventoryItemUpdate, StockAdjustment, or_kept,
}

-- `_managed_item`
unfoldable pub managed_item : ℕ → Principal → Handler InventoryItem
managed_item id principal = do
  found ← query (λ db. get id db.items)
  item ← or_raise found (service_error 404 inventory_item_not_found)
  raise_if (not (has_role principal ("admin" ∷ []) || item.seller_id == principal.subject))
      (service_error 403 inventory_forbidden)
  pure item

abbrev open_warehouse : Option Warehouse → Bool
open_warehouse none = false
open_warehouse (some w) = w.is_active

abbrev matches_sku : InventoryItemCreate → CatalogSku → Bool
matches_sku body k = k.is_active && k.product_id == body.product_id && str_eq k.sku body.sku

abbrev pub new_item : InventoryItemCreate → Principal → InventoryItem
new_item body principal = record {
  warehouse_id = body.warehouse_id;
  product_id = body.product_id;
  variant_id = body.variant_id;
  seller_id = principal.subject;
  sku = body.sku;
  on_hand_quantity = body.initial_quantity;
  reserved_quantity = 0;
  low_stock_threshold = body.low_stock_threshold;
  is_active = body.is_active;
  version = 1;
}

-- The rows that `create_item` adds.
unfoldable pub write_item :
    Surroundings → Principal → ℕ → InventoryItem → Option String → InventoryDb → InventoryDb
unfolding save_item movement audit event remember
write_item env principal id item key db =
    let db₁ = save_item id item db in
    let db₂ =
      if item.on_hand_quantity == 0
      then db₁
      else movement env principal id item MovementType.receipt MovementReason.purchase_receipt
          (pos item.on_hand_quantity) (pos 0) (some "inventory_item") (some (by_id id))
          (some "Initial stock") db₁ in
    let db₃ =
      audit env principal "inventory_item.created" "inventory_item" id nothing (of_item item) db₂ in
    remember env principal.subject key "inventory_item" id
      (event env "inventory.item.created.v1" id item none db₃)

-- `create_item`, where the key is not a replay.
unfoldable pub add_item :
    Surroundings → InventoryItemCreate → Principal → Option String → Handler (ℕ × InventoryItem)
add_item env body principal key = do
  warehouse ← query (λ db. get body.warehouse_id db.warehouses)
  raise_if (not (open_warehouse warehouse)) (service_error 422 invalid_warehouse)
  found ← query (λ db. get body.variant_id db.catalog)
  sku ← or_raise found (service_error 422 invalid_catalog_sku)
  raise_if (not (matches_sku body sku)) (service_error 422 invalid_catalog_sku)
  raise_if (not (has_role principal ("admin" ∷ [])) && not (sku.seller_id == principal.subject))
      (service_error 403 catalog_sku_forbidden)
  let id = env.new_id 0
  let item = new_item body principal
  same_key ← query (λ db. get id db.items)
  same_place ←
      query (λ db.
        find_row (λ i. i.warehouse_id == item.warehouse_id && str_eq i.sku item.sku) db.items)
  raise_if (is_some same_key || is_some same_place) integrity_error
  modify (write_item env principal id item key)
  commit
  pure (id, item)

unfoldable pub create_item :
    Surroundings → InventoryItemCreate → Principal → Option String → Handler (ℕ × InventoryItem)
create_item env body principal idempotency_key = do
  let key = given idempotency_key
  existing ← idempotency_lookup env principal.subject key
  elim existing [
    | none ↦ add_item env body principal key
    | some seen ↦ do
      found ← query (λ db. get seen.resource_id db.items)
      elim found [
        | none ↦ add_item env body principal key
        | some item ↦ pure (seen.resource_id, item)
      ]
  ]

-- The columns that a request may change.
abbrev pub updated : InventoryItem → InventoryItemUpdate → InventoryItem
updated item body = record item {
  low_stock_threshold = or_kept body.low_stock_threshold item.low_stock_threshold;
  is_active = or_kept body.is_active item.is_active;
  version = item.version + 1;
}

unfoldable pub update_item :
    Surroundings → ℕ → InventoryItemUpdate → ℕ → Principal → Handler InventoryItem
unfolding managed_item audit event
update_item env id body expected_version principal = do
  item ← managed_item id principal
  raise_if (not (item.version == expected_version)) (service_error 412 version_conflict)
  let new = updated item body
  modify (save_item id new)
  modify (
      audit env principal "inventory_item.updated" "inventory_item" id (of_item item) (of_item new))
  modify (event env "inventory.item.updated.v1" id new none)
  commit
  pure new

-- `resulting_on_hand < item.reserved_quantity`, over the integers.
abbrev pub below_reserved : InventoryItem → ℤ → Bool
below_reserved item delta =
    ltb (item.on_hand_quantity + pos_part delta) (item.reserved_quantity + neg_part delta)

abbrev pub adjusted : InventoryItem → ℤ → InventoryItem
adjusted item delta = record item {
  on_hand_quantity = item.on_hand_quantity + pos_part delta - neg_part delta;
  version = item.version + 1;
}

-- What `adjust_stock` writes.
unfoldable pub write_adjusted :
    Surroundings
    → Principal
    → ℕ
    → InventoryItem
    → StockAdjustment
    → Option String
    → InventoryDb
    → InventoryDb
unfolding save_item movement audit event low_stock_event remember
write_adjusted env principal id item body key db =
    let item' = adjusted item body.quantity_delta in
    let db₁ =
      movement env principal id item' MovementType.adjustment body.reason body.quantity_delta
        (pos 0) body.reference_type body.reference_id body.note (save_item id item' db) in
    let db₂ =
      audit env principal "stock.adjusted" "inventory_item" id (of_item item) (of_item item') db₁ in
    let db₃ = event env "inventory.stock.adjusted.v1" id item' none db₂ in
    remember env principal.subject key "stock_adjustment" id (low_stock_event env id item' db₃)

-- `adjust_stock`, where the key is not a replay.
unfoldable pub change_stock :
    Surroundings → ℕ → StockAdjustment → ℕ → Principal → Option String → Handler InventoryItem
unfolding managed_item
change_stock env id body expected_version principal key = do
  item ← managed_item id principal
  raise_if (not (item.version == expected_version)) (service_error 412 version_conflict)
  raise_if (below_reserved item body.quantity_delta)
      (service_error 409 insufficient_unreserved_stock)
  modify (write_adjusted env principal id item body key)
  commit
  pure (adjusted item body.quantity_delta)

unfoldable pub adjust_stock :
    Surroundings → ℕ → StockAdjustment → ℕ → Principal → Option String → Handler InventoryItem
adjust_stock env id body expected_version principal idempotency_key = do
  let key = given idempotency_key
  existing ← idempotency_lookup env principal.subject key
  found ← query (λ db. get id db.items)
  elim existing [
    | none ↦ change_stock env id body expected_version principal key
    | some seen ↦ elim found [
      | none ↦ change_stock env id body expected_version principal key
      | some item ↦ pure item
    ]
  ]

-- ===== src/Inventory/Stock.antt =====
-- services/inventory-service/app/services/inventory_service.py: warehouses and the projection of the
-- catalog; and the bodies of the requests for items.
use market_place_app.Prelude.{
  ℕ, String, Bool, false, Option, none, some, ◌+◌, ◌==◌, ◌||◌, not, str_eq, is_some,
}
use market_place_app.Prelude.Int.{ℤ}
use market_place_app.Prelude.Table.{get, put, find_row}
use market_place_app.Prelude.Session.{
  pure, query, or_raise, ◌>>=◌, ◌>>◌, raise_if, modify, commit, service_error, integrity_error,
}
use market_place_app.Prelude.Principal.{Principal}
use market_place_app.Inventory.Model.{
  Warehouse, CatalogSku, InventoryDb, MovementReason, Reference, Snapshot, nothing, of_warehouse,
  of_sku, warehouse_not_found, version_conflict, Handler, Surroundings,
}
use market_place_app.Inventory.Writes.{audit}

pub record CatalogSkuSync : Type 0 where
  pub variant_id : ℕ
  pub product_id : ℕ
  pub seller_id : ℕ
  pub sku : String
  pub is_active : Bool

-- A field that the request leaves unset is `none`.
pub record WarehouseUpdate : Type 0 where
  pub name : Option String
  pub address_reference : Option (Option String)
  pub is_active : Option Bool

pub record InventoryItemCreate : Type 0 where
  pub warehouse_id : ℕ
  pub product_id : ℕ
  pub variant_id : ℕ
  pub sku : String
  pub initial_quantity : ℕ
  pub low_stock_threshold : ℕ
  pub is_active : Bool

pub record InventoryItemUpdate : Type 0 where
  pub low_stock_threshold : Option ℕ
  pub is_active : Option Bool

pub record StockAdjustment : Type 0 where
  pub quantity_delta : ℤ
  pub reason : MovementReason
  pub reference_type : Option String
  pub reference_id : Option Reference
  pub note : Option String

abbrev pub or_kept : {A : Type 0} → Option A → A → A
or_kept none old = old
or_kept (some new) old = new

unfoldable pub save_warehouse : ℕ → Warehouse → InventoryDb → InventoryDb
save_warehouse id w db = record db { warehouses = put id w db.warehouses }

unfoldable pub save_sku : ℕ → CatalogSku → InventoryDb → InventoryDb
save_sku id k db = record db { catalog = put id k db.catalog }

-- `create_warehouse`. Keys and codes are unique.
unfoldable pub create_warehouse : Surroundings → Warehouse → Principal → Handler (ℕ × Warehouse)
unfolding save_warehouse audit
create_warehouse env w principal = do
  let id = env.new_id 0
  let new = record w { version = 1 }
  same_key ← query (λ db. get id db.warehouses)
  same_code ← query (λ db. find_row (λ v. str_eq v.code new.code) db.warehouses)
  raise_if (is_some same_key || is_some same_code) integrity_error
  modify (save_warehouse id new)
  modify (audit env principal "warehouse.created" "warehouse" id nothing (of_warehouse new))
  commit
  pure (id, new)

abbrev synced : CatalogSkuSync → ℕ → CatalogSku
synced body version = record {
  product_id = body.product_id;
  seller_id = body.seller_id;
  sku = body.sku;
  is_active = body.is_active;
  version = version;
}

abbrev sku_snapshot : Option CatalogSku → Snapshot
sku_snapshot none = nothing
sku_snapshot (some k) = of_sku k

abbrev next_version : Option CatalogSku → ℕ
next_version none = 1
next_version (some k) = k.version + 1

-- The row that keeps a SKU for another variant.
unfoldable pub sku_taken : ℕ → String → InventoryDb → Bool
sku_taken variant sku db = elim (find_row (λ k. str_eq k.sku sku) db.catalog) [
  | none ↦ false
  | some (id, k) ↦ not (id == variant)
]

-- `sync_catalog_sku`
unfoldable pub sync_catalog_sku :
    Surroundings → CatalogSkuSync → Principal → Handler (ℕ × CatalogSku)
unfolding save_sku audit
sync_catalog_sku env body principal = do
  before ← query (λ db. get body.variant_id db.catalog)
  taken ← query (sku_taken body.variant_id body.sku)
  raise_if taken integrity_error
  let new = synced body (next_version before)
  modify (save_sku body.variant_id new)
  modify (
      audit env principal "catalog_sku.synced" "catalog_sku" body.variant_id (sku_snapshot before)
        (of_sku new))
  commit
  pure (body.variant_id, new)

-- `update_warehouse`
unfoldable pub update_warehouse :
    Surroundings → ℕ → WarehouseUpdate → ℕ → Principal → Handler Warehouse
unfolding save_warehouse audit
update_warehouse env id body expected_version principal = do
  found ← query (λ db. get id db.warehouses)
  w ← or_raise found (service_error 404 warehouse_not_found)
  raise_if (not (w.version == expected_version)) (service_error 412 version_conflict)
  let new = record w {
    name = or_kept body.name w.name;
    address_reference = or_kept body.address_reference w.address_reference;
    is_active = or_kept body.is_active w.is_active;
    version = w.version + 1;
  }
  modify (save_warehouse id new)
  modify
      (audit env principal "warehouse.updated" "warehouse" id (of_warehouse w) (of_warehouse new))
  commit
  pure new

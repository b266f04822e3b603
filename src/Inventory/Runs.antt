-- ===== src/Inventory/Runs.antt =====
-- Any number of requests to the inventory service, one after the other, each in a session of its
-- own, with the caller and the surroundings that it has.
use market_place_app.Prelude.{ℕ, String, Option, List, [], ◌∷◌, arith}
use market_place_app.Prelude.Table.{get}
use market_place_app.Prelude.Session.{request}
use market_place_app.Prelude.Principal.{Principal}
use market_place_app.Inventory.Model.{InventoryDb, MovementReason, Surroundings, Warehouse}
use market_place_app.Inventory.Stock.{
  WarehouseUpdate, CatalogSkuSync, InventoryItemCreate, InventoryItemUpdate, StockAdjustment,
  create_warehouse, update_warehouse, sync_catalog_sku,
}
use market_place_app.Inventory.Items.{create_item, update_item, adjust_stock}
use market_place_app.Inventory.Reservations.{
  ReservationCreate, create_reservation, commit_reservation, release_reservation,
  expire_reservations,
}
use market_place_app.Inventory.Groups.{BatchReservationCreate, create_batch_reservation}
use market_place_app.Inventory.GroupEnds.{commit_reservation_group, release_reservation_group}
use market_place_app.Inventory.Consistency.{IsConsistentAt}
use market_place_app.Inventory.Keeping.{
  create_warehouse-Keeps, update_warehouse-Keeps, sync_catalog_sku-Keeps, create_item-Keeps,
  update_item-Keeps, adjust_stock-Keeps, create_reservation-Keeps, commit_reservation-Keeps,
  release_reservation-Keeps,
}
use market_place_app.Inventory.Sweeps.{
  commit_reservation_group-Keeps, release_reservation_group-Keeps, expire_reservations-Keeps,
}
use market_place_app.Inventory.Batch.{create_batch_reservation-Keeps}

-- A request that writes, with its body, its expected version and its idempotency key.
pub data Request : Type 0 where
  add_warehouse : Warehouse → Request
  change_warehouse : ℕ → WarehouseUpdate → ℕ → Request
  sync_sku : CatalogSkuSync → Request
  new_stock : InventoryItemCreate → Option String → Request
  change_item : ℕ → InventoryItemUpdate → ℕ → Request
  adjust : ℕ → StockAdjustment → ℕ → Option String → Request
  reserve : ReservationCreate → Option String → Request
  commit_one_of : ℕ → String → Request
  release_one_of : ℕ → MovementReason → Option String → Request
  reserve_batch : BatchReservationCreate → Option String → Request
  commit_group : ℕ → Request
  release_group : ℕ → MovementReason → Option String → Request
  expire_due : ℕ → Request

pub record Call : Type 0 where
  pub caller : Principal
  pub surroundings : Surroundings
  pub body : Request

unfoldable pub after : Surroundings → Principal → Request → InventoryDb → InventoryDb
after env p (add_warehouse w) d = (request (create_warehouse env w p) d tt).1
after env p (change_warehouse id body v) d = (request (update_warehouse env id body v p) d tt).1
after env p (sync_sku body) d = (request (sync_catalog_sku env body p) d tt).1
after env p (new_stock body key) d = (request (create_item env body p key) d tt).1
after env p (change_item id body v) d = (request (update_item env id body v p) d tt).1
after env p (adjust id body v key) d = (request (adjust_stock env id body v p key) d tt).1
after env p (reserve body key) d = (request (create_reservation env body p key) d tt).1
after env p (commit_one_of id reference) d =
    (request (commit_reservation env id reference p) d tt).1
after env p (release_one_of id reason remark) d =
    (request (release_reservation env id reason remark p) d tt).1
after env p (reserve_batch body key) d = (request (create_batch_reservation env body p key) d tt).1
after env p (commit_group group) d = (request (commit_reservation_group env group p) d tt).1
after env p (release_group group reason remark) d =
    (request (release_reservation_group env group reason remark p) d tt).1
after env p (expire_due limit) d = (request (expire_reservations env p limit) d tt).1

-- The database after one request.
unfoldable pub step : Call → InventoryDb → InventoryDb
step c d = after c.surroundings c.caller c.body d

unfoldable pub run : List Call → InventoryDb → InventoryDb
run [] d = d
run (c ∷ cs) d = run cs (step c d)

abbrev pub empty : InventoryDb
empty = record {
  warehouses = [];
  catalog = [];
  items = [];
  reservations = [];
  movements = [];
  audits = [];
  outbox = [];
  idempotency_records = [];
}

after-IsConsistentAt :
    (k : ℕ) (env : Surroundings) (p : Principal) (r : Request) (d : InventoryDb)
    → IsConsistentAt k d
    → IsConsistentAt k (after env p r d)
unfolding after
after-IsConsistentAt k env p (add_warehouse w) d h = create_warehouse-Keeps k env p d h w
after-IsConsistentAt k env p (change_warehouse id body v) d h =
    update_warehouse-Keeps k env p d h id body v
after-IsConsistentAt k env p (sync_sku body) d h = sync_catalog_sku-Keeps k env p d h body
after-IsConsistentAt k env p (new_stock body key) d h = create_item-Keeps k env p d h body key
after-IsConsistentAt k env p (change_item id body v) d h = update_item-Keeps k env p d h id body v
after-IsConsistentAt k env p (adjust id body v key) d h =
    adjust_stock-Keeps k env p d h id body v key
after-IsConsistentAt k env p (reserve body key) d h = create_reservation-Keeps k env p d h body key
after-IsConsistentAt k env p (commit_one_of id reference) d h =
    commit_reservation-Keeps k env p d h id reference
after-IsConsistentAt k env p (release_one_of id reason remark) d h =
    release_reservation-Keeps k env p d h id reason remark
after-IsConsistentAt k env p (reserve_batch body key) d h =
    create_batch_reservation-Keeps k env p d h body key
after-IsConsistentAt k env p (commit_group group) d h =
    commit_reservation_group-Keeps k env p d h group
after-IsConsistentAt k env p (release_group group reason remark) d h =
    release_reservation_group-Keeps k env p d h group reason remark
after-IsConsistentAt k env p (expire_due limit) d h = expire_reservations-Keeps k env p d h limit

-- One request keeps the stock of item `k` consistent, whatever it asks and whoever asks: what the
-- item has reserved is what its active reservations hold, at most what is on hand, and what is on
-- hand is what its movements add up to.
step-IsConsistentAt :
    (k : ℕ) (c : Call) (d : InventoryDb) → IsConsistentAt k d → IsConsistentAt k (step c d)
unfolding step
step-IsConsistentAt k c d h = after-IsConsistentAt k c.surroundings c.caller c.body d h

run_from :
    (k : ℕ) (cs : List Call) (d : InventoryDb) → IsConsistentAt k d → IsConsistentAt k (run cs d)
unfolding run
run_from k [] d h = h
run_from k (c ∷ cs) d h = run_from k cs (step c d) (step-IsConsistentAt k c d h)

empty-IsConsistentAt : (k : ℕ) → IsConsistentAt k empty
unfolding get
empty-IsConsistentAt k = ground arith

-- After any requests to an empty database, each item has reserved exactly what its active
-- reservations hold, no more than is on hand, and its movements add up to what is on hand.
pub run-IsConsistentAt : (k : ℕ) (cs : List Call) → IsConsistentAt k (run cs empty)
run-IsConsistentAt k cs = run_from k cs empty (empty-IsConsistentAt k)

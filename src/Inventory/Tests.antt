-- ===== src/Inventory/Tests.antt =====
-- The inventory service on concrete requests: a warehouse, a SKU, ten pieces of it, of which an
-- order reserves four as one group and takes them.
use market_place_app.Prelude.{ℕ, ◌≡◌, refl, true, none, some, List, [], ◌∷◌, ◌+◌, arith}
use market_place_app.Prelude.Int.{pos, negsuc}
use market_place_app.Prelude.Table.{get, filter_rows, find_row, put}
use market_place_app.Prelude.Principal.{Principal, has_role, has_scope}
use market_place_app.Inventory.Model.{
  Warehouse, InventoryItem, InventoryDb, MovementType, MovementReason, Surroundings, idempotency,
  in_group, items_for_reservation, list_reservations_by_group, sells,
}
use market_place_app.Inventory.Stock.{
  CatalogSkuSync, InventoryItemCreate, StockAdjustment, create_warehouse, save_sku, save_warehouse,
  sku_taken, sync_catalog_sku,
}
use market_place_app.Inventory.Items.{add_item, create_item, write_item}
use market_place_app.Inventory.Groups.{
  BatchReservationCreate, add_batch, add_member, allocate, create_batch_reservation, log_members,
  log_touched, reserve_line, reserve_lines, touch,
}
use market_place_app.Inventory.GroupEnds.{
  commit_live, commit_members, commit_reservation_group, locked_group,
}
use market_place_app.Inventory.Outcomes.{Reserved, add_reservation_lem}
use market_place_app.Prelude.Session.{request}
use market_place_app.Inventory.Consistency.{IsConsistentAt, reserved_of, on_hand_of}
use market_place_app.Inventory.Runs.{
  Call, add_warehouse, sync_sku, new_stock, reserve_batch, commit_group, adjust, step, run, empty,
  run-IsConsistentAt, after,
}
use market_place_app.Inventory.Writes.{
  audit, event, idempotency_lookup, low_stock_event, movement, remember, save_item,
  save_reservation,
}
use market_place_app.Inventory.Resolving.{audit_resolution, commit_one, write_committed}
use market_place_app.Inventory.Reservations.{ReservationCreate, add_reservation, expiry, hold}

abbrev admin : Principal
admin = record { subject = 1; roles = "admin" ∷ []; scopes = [] }

-- The surroundings of a request at `now`, whose new ids start at `first`.
abbrev at : ℕ → ℕ → Surroundings
at now first = record {
  now = now;
  default_reservation_minutes = 15;
  max_reservation_minutes = 60;
  new_id = λ n. first + n;
  hash = "h";
  request_id = none;
}

abbrev main_warehouse : Warehouse
main_warehouse = record {
  code = "W1";
  name = "Main";
  address_reference = none;
  is_active = true;
  version = 1;
}

abbrev mug : CatalogSkuSync
mug = record { variant_id = 5; product_id = 4; seller_id = 1; sku = "MUG"; is_active = true }

abbrev ten_mugs : InventoryItemCreate
ten_mugs = record {
  warehouse_id = 10;
  product_id = 4;
  variant_id = 5;
  sku = "MUG";
  initial_quantity = 10;
  low_stock_threshold = 2;
  is_active = true;
}

abbrev four_mugs : BatchReservationCreate
four_mugs = record {
  customer_id = 7;
  cart_reference = none;
  order_reference = some "ORD-1";
  expires_at = none;
  lines = record { sku = "MUG"; seller_id = 1; quantity = 4 } ∷ [];
}

abbrev two_lost : StockAdjustment
two_lost = record {
  quantity_delta = negsuc 1;
  reason = MovementReason.damage;
  reference_type = none;
  reference_id = none;
  note = none;
}

abbrev stocked_up : List Call
stocked_up =
    record { caller = admin; surroundings = at 100 10; body = add_warehouse main_warehouse }
    ∷ record { caller = admin; surroundings = at 101 0; body = sync_sku mug }
    ∷ record { caller = admin; surroundings = at 102 20; body = new_stock ten_mugs (some "k1") }
    ∷ record { caller = admin; surroundings = at 103 30; body = reserve_batch four_mugs none }
    ∷ []

abbrev sold_out : List Call
sold_out =
    record { caller = admin; surroundings = at 100 10; body = add_warehouse main_warehouse }
    ∷ record { caller = admin; surroundings = at 101 0; body = sync_sku mug }
    ∷ record { caller = admin; surroundings = at 102 20; body = new_stock ten_mugs (some "k1") }
    ∷ record { caller = admin; surroundings = at 103 30; body = reserve_batch four_mugs none }
    ∷ record { caller = admin; surroundings = at 104 0; body = commit_group 30 }
    ∷ []

reserved_after : reserved_of (get 20 (run stocked_up empty).items) ≡ 4
unfolding run step after create_warehouse sync_catalog_sku create_item add_item
    create_batch_reservation add_batch idempotency_lookup idempotency save_warehouse save_sku
    sku_taken write_item save_item movement audit event remember expiry reserve_lines reserve_line
    items_for_reservation sells allocate add_member hold save_reservation touch log_touched
    log_members low_stock_event get put find_row filter_rows has_role has_scope
reserved_after = refl

on_hand_after : on_hand_of (get 20 (run sold_out empty).items) ≡ 6
unfolding run step after create_warehouse sync_catalog_sku create_item add_item
    create_batch_reservation add_batch idempotency_lookup idempotency save_warehouse save_sku
    sku_taken write_item save_item movement audit event remember expiry reserve_lines reserve_line
    items_for_reservation sells allocate add_member hold save_reservation touch log_touched
    log_members low_stock_event get put find_row filter_rows has_role has_scope
    commit_reservation_group locked_group list_reservations_by_group in_group commit_live
    commit_members commit_one write_committed audit_resolution
on_hand_after = refl

run-IsConsistentAt_example : IsConsistentAt 20 (run sold_out empty)
run-IsConsistentAt_example = run-IsConsistentAt 20 sold_out

-- Ten mugs on hand, none reserved.
abbrev mugs : InventoryItem
mugs = record {
  warehouse_id = 10;
  product_id = 4;
  variant_id = 5;
  seller_id = 1;
  sku = "MUG";
  on_hand_quantity = 10;
  reserved_quantity = 0;
  low_stock_threshold = 2;
  is_active = true;
  version = 1;
}

abbrev stocked : InventoryDb
stocked = record empty {
  items = (20, mugs) ∷ [];
  movements =
      record {
        inventory_item_id = 20;
        movement_type = MovementType.receipt;
        reason = MovementReason.purchase_receipt;
        on_hand_delta = pos 10;
        reserved_delta = pos 0;
        resulting_on_hand = 10;
        resulting_reserved = 0;
        reference_type = none;
        reference_id = none;
        actor_id = 1;
        note = none;
        created_at = 100;
      }
      ∷ [];
}

stocked-IsConsistentAt : IsConsistentAt 20 stocked
unfolding get
stocked-IsConsistentAt = ground arith

abbrev count : Call
count = record { caller = admin; surroundings = at 105 0; body = adjust 20 two_lost 1 none }

abbrev three_mugs : ReservationCreate
three_mugs = record {
  inventory_item_id = 20;
  quantity = 3;
  cart_reference = none;
  expires_at = none;
}

mugs_stored : get 20 stocked.items ≡ some mugs
unfolding get
mugs_stored = refl

add_reservation_lem_example :
    let (result, d', w) = request (add_reservation (at 106 40) three_mugs admin none) stocked tt in
    Reserved mugs three_mugs stocked result d'
add_reservation_lem_example =
    add_reservation_lem (at 106 40) three_mugs admin none stocked mugs mugs_stored

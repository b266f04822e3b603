-- ===== src/Inventory/Keeping.antt =====
-- Every handler that acts on single rows keeps the stock consistent.
use market_place_app.Prelude.{
  ℕ, String, ◌+◌, ◌≡◌, refl, true, Option, none, some, arith, Option-cases, inl, inr,
}
use market_place_app.Prelude.Table.{get}
use market_place_app.Prelude.Session.{request, Failure, Tx}
use market_place_app.Prelude.Principal.{Principal}
use market_place_app.Inventory.Model.{
  released, expired, is_active, MovementReason, InventoryItem, InventoryReservation, InventoryDb,
  Code, Surroundings, Warehouse, by_text,
}
use market_place_app.Inventory.Writes.{given}
use market_place_app.Inventory.Resolving.{resolve_reservation, commit_one}
use market_place_app.Inventory.Stock.{
  WarehouseUpdate, CatalogSkuSync, InventoryItemCreate, InventoryItemUpdate, StockAdjustment,
  create_warehouse, update_warehouse, sync_catalog_sku,
}
use market_place_app.Inventory.Items.{
  add_item, create_item, update_item, change_stock, adjust_stock, new_item, updated,
}
use market_place_app.Inventory.Reservations.{
  ReservationCreate, add_reservation, new_reservation, create_reservation, commit_reservation,
  release_reservation, expire_now, sell, or_default,
}
use market_place_app.Inventory.Lookup.{lookup_reads}
use market_place_app.Inventory.Consistency.{
  IsConsistentAt, write_reserved-IsConsistentAt, write_resolved-IsConsistentAt,
  write_committed-IsConsistentAt, write_adjusted-IsConsistentAt, write_item-IsConsistentAt,
  save_item-IsConsistentAt,
}

module _ (k : ℕ) (env : Surroundings) (p : Principal) (d : InventoryDb)
    (h : IsConsistentAt k d) where
  abbrev Keeps : {A : Type 0} → Tx InventoryDb Unit (Failure Code) A → Type 0
  Keeps m = IsConsistentAt k (request m d tt).1

  pub create_warehouse-Keeps : (w : Warehouse) → Keeps (create_warehouse env w p)
  unfolding create_warehouse
  create_warehouse-Keeps w = ground arith

  pub update_warehouse-Keeps :
      (id : ℕ) (body : WarehouseUpdate) (v : ℕ) → Keeps (update_warehouse env id body v p)
  unfolding update_warehouse
  update_warehouse-Keeps id body v = ground arith

  pub sync_catalog_sku-Keeps : (body : CatalogSkuSync) → Keeps (sync_catalog_sku env body p)
  unfolding sync_catalog_sku
  sync_catalog_sku-Keeps body = ground arith

  add_item-Keeps :
      (body : InventoryItemCreate) (key : Option String) → Keeps (add_item env body p key)
  unfolding add_item
  add_item-Keeps body key =
      ground (arith, write_item-IsConsistentAt k (env.new_id 0) (new_item body p) d h env p key)

  change_stock-Keeps :
      (id : ℕ) (body : StockAdjustment) (v : ℕ) (key : Option String)
      → Keeps (change_stock env id body v p key)
  unfolding change_stock
  change_stock-Keeps id body v key = elim (Option-cases (get id d.items)) [
    | inl e ↦ ground arith
    | inr (item, e) ↦ ground (arith, write_adjusted-IsConsistentAt k id item d h env p body key e)
  ]

  add_reservation-Keeps :
      (body : ReservationCreate) (key : Option String) → Keeps (add_reservation env body p key)
  unfolding add_reservation
  add_reservation-Keeps body key = elim (Option-cases (get body.inventory_item_id d.items)) [
    | inl e ↦ ground arith
    | inr (item, e) ↦
        let at = or_default body.expires_at (env.now + env.default_reservation_minutes) in
        ground (
          arith,
          write_reserved-IsConsistentAt k (env.new_id 0) (new_reservation body p at)
              body.inventory_item_id item d h e refl env p key,
        )
  ]

  pub update_item-Keeps :
      (id : ℕ) (body : InventoryItemUpdate) (v : ℕ) → Keeps (update_item env id body v p)
  unfolding update_item
  update_item-Keeps id body v = elim (Option-cases (get id d.items)) [
    | inl e ↦ ground arith
    | inr (item, e) ↦
        ground (arith, save_item-IsConsistentAt k id (updated item body) d h item e refl refl)
  ]

  pub create_item-Keeps :
      (body : InventoryItemCreate) (key : Option String) → Keeps (create_item env body p key)
  unfolding create_item
  create_item-Keeps body key = ground (
    arith,
    lookup_reads env p.subject (given key) (record { durable = d; working = d; world = tt }),
    add_item-Keeps body (given key),
  )

  pub adjust_stock-Keeps :
      (id : ℕ) (body : StockAdjustment) (v : ℕ) (key : Option String)
      → Keeps (adjust_stock env id body v p key)
  unfolding adjust_stock
  adjust_stock-Keeps id body v key = ground (
    arith,
    lookup_reads env p.subject (given key) (record { durable = d; working = d; world = tt }),
    change_stock-Keeps id body v (given key),
  )

  pub create_reservation-Keeps :
      (body : ReservationCreate) (key : Option String) → Keeps (create_reservation env body p key)
  unfolding create_reservation
  create_reservation-Keeps body key = ground (
    arith,
    lookup_reads env p.subject (given key) (record { durable = d; working = d; world = tt }),
    add_reservation-Keeps body (given key),
  )

  pub release_reservation-Keeps :
      (rid : ℕ) (reason : MovementReason) (remark : Option String)
      → Keeps (release_reservation env rid reason remark p)
  unfolding release_reservation resolve_reservation
  release_reservation-Keeps rid reason remark = elim (Option-cases (get rid d.reservations)) [
    | inl e ↦ ground arith
    | inr (r, e) ↦ elim (Option-cases (get r.inventory_item_id d.items)) [
      | inl f ↦ ground arith
      | inr (item, f) ↦ ground (
        arith,
        write_resolved-IsConsistentAt k rid r r.inventory_item_id item d h f refl env p released
            reason remark e,
      )
    ]
  ]

  module _ (rid : ℕ) (r : InventoryReservation) (item : InventoryItem)
      (e : get rid d.reservations ≡ some r) (f : get r.inventory_item_id d.items ≡ some item)
      (live : is_active r.status ≡ true) where
    expire_now-Keeps : Keeps (expire_now env p rid r item)
    unfolding expire_now resolve_reservation
    expire_now-Keeps = ground (
      arith,
      write_resolved-IsConsistentAt k rid r r.inventory_item_id item d h f refl env p expired
          MovementReason.reservation_expired none e,
    )

    sell-Keeps : (reference : String) → Keeps (sell env p rid r reference item)
    unfolding sell commit_one
    sell-Keeps reference = ground (
      arith,
      write_committed-IsConsistentAt k rid r r.inventory_item_id item d h f refl env p
          (some reference) "order" (some (by_text reference)) e live,
    )

  pub commit_reservation-Keeps :
      (rid : ℕ) (reference : String) → Keeps (commit_reservation env rid reference p)
  unfolding commit_reservation
  commit_reservation-Keeps rid reference = elim (Option-cases (get rid d.reservations)) [
    | inl e ↦ ground arith
    | inr (r, e) ↦ elim (Option-cases (get r.inventory_item_id d.items)) [
      | inl f ↦ ground arith
      | inr (item, f) ↦ ground (
        arith,
        expire_now-Keeps rid r item e f,
        λ (live : is_active r.status ≡ true). sell-Keeps rid r item e f live reference,
      )
    ]
  ]

-- ===== src/Inventory/Resolving.antt =====
-- services/inventory-service/app/services/inventory_service.py: what the end of a reservation writes.
use market_place_app.Prelude.{ℕ, String, ◌+++◌, ◌-◌, Option, none, some, ◌+◌, ltb}
use market_place_app.Prelude.Int.{pos, neg}
use market_place_app.Prelude.Session.{◌>>◌, raise_if, modify, integrity_error}
use market_place_app.Prelude.Principal.{Principal}
use market_place_app.Inventory.Model.{
  ReservationStatus, committed, value, MovementType, MovementReason, InventoryItem,
  InventoryReservation, Reference, by_id, of_item, of_reservation, InventoryDb, Handler,
  Surroundings,
}
use market_place_app.Inventory.Writes.{audit, event, movement, save_item, save_reservation}

-- `_audit_resolution`, with the rows before and after.
unfoldable pub audit_resolution :
    Surroundings
    → Principal
    → ℕ
    → InventoryReservation
    → InventoryReservation
    → ℕ
    → InventoryItem
    → InventoryItem
    → String
    → InventoryDb
    → InventoryDb
unfolding audit
audit_resolution env principal rid r r' iid item item' action db =
    audit env principal "stock.changed" "inventory_item" iid (of_item item) (of_item item') (
      audit env principal action "inventory_reservation" rid (of_reservation r) (of_reservation r')
        db)

abbrev pub unreserved : InventoryItem → ℕ → InventoryItem
unreserved item quantity = record item {
  reserved_quantity = item.reserved_quantity - quantity;
  version = item.version + 1;
}

abbrev pub resolved : Surroundings → InventoryReservation → ReservationStatus → InventoryReservation
resolved env r target = record r {
  status = target;
  resolved_at = some env.now;
  version = r.version + 1;
}

-- What `_resolve_reservation` writes where the constraints hold.
unfoldable pub write_resolved :
    Surroundings
    → Principal
    → ℕ
    → InventoryReservation
    → ℕ
    → InventoryItem
    → ReservationStatus
    → MovementReason
    → Option String
    → InventoryDb
    → InventoryDb
unfolding save_item save_reservation movement audit_resolution event
write_resolved env principal rid r iid item target reason note db =
    let item' = unreserved item r.quantity in
    let r' = resolved env r target in
    let db₁ = save_reservation rid r' (save_item iid item' db) in
    let db₂ =
      movement env principal iid item' MovementType.release reason (pos 0) (neg r.quantity)
        (some "reservation") (some (by_id rid)) note db₁ in
    let db₃ =
      audit_resolution env principal rid r r' iid item item' ("reservation." +++ value target)
        db₂ in
    event env ("inventory.reservation." +++ (value target +++ ".v1")) iid item' (some (rid, r')) db₃

-- `_resolve_reservation`. A reserved quantity below zero violates a constraint of the table.
unfoldable pub resolve_reservation :
    Surroundings
    → Principal
    → ℕ
    → InventoryReservation
    → ℕ
    → InventoryItem
    → ReservationStatus
    → MovementReason
    → Option String
    → Handler Unit
resolve_reservation env principal rid r iid item target reason note = do
  raise_if (ltb item.reserved_quantity r.quantity) integrity_error
  modify (write_resolved env principal rid r iid item target reason note)

abbrev pub taken : InventoryItem → ℕ → InventoryItem
taken item quantity = record item {
  on_hand_quantity = item.on_hand_quantity - quantity;
  reserved_quantity = item.reserved_quantity - quantity;
  version = item.version + 1;
}

abbrev pub sold : Surroundings → InventoryReservation → Option String → InventoryReservation
sold env r order_reference = record r {
  status = committed;
  order_reference = order_reference;
  resolved_at = some env.now;
  version = r.version + 1;
}

-- What the commitment of a reservation writes, alone or in a group.
unfoldable pub write_committed :
    Surroundings
    → Principal
    → ℕ
    → InventoryReservation
    → InventoryReservation
    → ℕ
    → InventoryItem
    → String
    → Option Reference
    → InventoryDb
    → InventoryDb
unfolding save_item save_reservation movement audit_resolution event
write_committed env principal rid r r' iid item reference_type reference_id db =
    let item' = taken item r.quantity in
    let db₁ = save_reservation rid r' (save_item iid item' db) in
    let db₂ =
      movement env principal iid item' MovementType.commitment MovementReason.customer_order
        (neg r.quantity) (neg r.quantity) (some reference_type) reference_id none db₁ in
    let db₃ = audit_resolution env principal rid r r' iid item item' "reservation.committed" db₂ in
    event env "inventory.reservation.committed.v1" iid item' (some (rid, r')) db₃

-- The changes of a commitment, under the table's constraints.
unfoldable pub commit_one :
    Surroundings
    → Principal
    → ℕ
    → InventoryReservation
    → Option String
    → ℕ
    → InventoryItem
    → String
    → Option Reference
    → Handler Unit
commit_one env principal rid r order_reference iid item reference_type reference_id = do
  raise_if (ltb item.reserved_quantity r.quantity) integrity_error
  raise_if (ltb item.on_hand_quantity r.quantity) integrity_error
  modify (
      write_committed env principal rid r (sold env r order_reference) iid item reference_type
        reference_id)

-- ===== src/Inventory/Groups.antt =====
-- services/inventory-service/app/services/inventory_service.py: the reservations of an order, made as
-- one group.
use market_place_app.Prelude.{
  ℕ, suc, String, Bool, true, false, Option, none, some, List, [], ◌∷◌, ◌++◌, ◌+◌, ◌-◌, min, ltb,
  ◌==◌, is_some, sum_of, if◌then◌else◌,
}
use market_place_app.Prelude.Int.{pos}
use market_place_app.Prelude.Table.{Table, get}
use market_place_app.Prelude.Session.{
  pure, query, ◌>>=◌, ◌>>◌, raise_if, modify, commit, service_error, integrity_error,
}
use market_place_app.Prelude.Principal.{Principal}
use market_place_app.Inventory.Model.{
  active, InventoryItem, InventoryReservation, InventoryDb, available_quantity, MovementType,
  MovementReason, by_id, nothing, of_item, of_reservation, insufficient_stock, invalid_sku, Handler,
  Surroundings, list_reservations_by_group, items_for_reservation,
}
use market_place_app.Inventory.Writes.{
  audit, event, movement, low_stock_event, remember, given, idempotency_lookup,
}
use market_place_app.Inventory.Reservations.{expiry, hold}

pub record BatchReservationLine : Type 0 where
  pub sku : String
  pub seller_id : ℕ
  pub quantity : ℕ

pub record BatchReservationCreate : Type 0 where
  pub customer_id : ℕ
  pub cart_reference : Option String
  pub order_reference : Option String
  pub expires_at : Option ℕ
  pub lines : List BatchReservationLine

-- What the loops of `create_batch_reservation` have made so far: the reservations, and the items
-- with the row that each had before.
pub record Made : Type 0 where
  pub reservations : Table InventoryReservation
  pub touched : Table InventoryItem
  pub count : ℕ

abbrev pub new_member : BatchReservationCreate → ℕ → ℕ → ℕ → ℕ → InventoryReservation
new_member body group expires_at iid quantity = record {
  inventory_item_id = iid;
  customer_id = body.customer_id;
  cart_reference = body.cart_reference;
  order_reference = body.order_reference;
  reservation_group_id = some group;
  quantity = quantity;
  status = active;
  expires_at = expires_at;
  resolved_at = none;
  version = 1;
}

-- `if item.id not in touched`, in the order of first touch.
unfoldable pub touch : ℕ → InventoryItem → Table InventoryItem → Table InventoryItem
touch iid item [] = (iid, item) ∷ []
touch iid item ((j, before) ∷ t) =
    let rest = touch iid item t in if j == iid then (j, before) ∷ t else (j, before) ∷ rest

-- One reservation of the batch. Its key must be new.
unfoldable pub add_member :
    Surroundings → BatchReservationCreate → ℕ → ℕ → ℕ → InventoryItem → ℕ → Made → Handler Made
add_member env body group expires_at iid item quantity made = do
  let rid = env.new_id (suc made.count)
  let r = new_member body group expires_at iid quantity
  same_key ← query (λ db. get rid db.reservations)
  raise_if (is_some same_key) integrity_error
  modify (hold rid r iid item)
  pure (record {
    reservations = made.reservations ++ (rid, r) ∷ [];
    touched = touch iid item made.touched;
    count = made.count + 1;
  })

-- The items of a line, each as it stands now, take as much of the line as they have.
unfoldable pub allocate :
    Surroundings → BatchReservationCreate → ℕ → ℕ → Table InventoryItem → ℕ → Made → Handler Made
allocate env body group expires_at [] remaining made = pure made
allocate env body group expires_at ((iid, item) ∷ rest) remaining made = do
  let take = min (available_quantity item) remaining
  made' ← if take == 0 then pure made else add_member env body group expires_at iid item take made
  allocate env body group expires_at rest (remaining - take) made'

abbrev is_none : Table InventoryItem → Bool
is_none [] = true
is_none (x ∷ xs) = false

unfoldable pub reserve_line :
    Surroundings → BatchReservationCreate → ℕ → ℕ → BatchReservationLine → Made → Handler Made
reserve_line env body group expires_at line made = do
  items ← query (items_for_reservation line.seller_id line.sku)
  raise_if (is_none items) (service_error 422 invalid_sku)
  raise_if (ltb (sum_of (λ e. available_quantity (e.1)) items) line.quantity)
      (service_error 409 insufficient_stock)
  allocate env body group expires_at items line.quantity made

unfoldable pub reserve_lines :
    Surroundings → BatchReservationCreate → ℕ → ℕ → List BatchReservationLine → Made → Handler Made
reserve_lines env body group expires_at [] made = pure made
reserve_lines env body group expires_at (line ∷ lines) made = do
  made' ← reserve_line env body group expires_at line made
  reserve_lines env body group expires_at lines made'

abbrev pub or_before : Option InventoryItem → InventoryItem → InventoryItem
or_before none before = before
or_before (some now) before = now

-- The loop over `touched`: a movement of what the batch holds of the item.
unfoldable pub log_touched :
    Surroundings → Principal → ℕ → Table InventoryItem → InventoryDb → InventoryDb
log_touched env principal group [] db = db
log_touched env principal group ((iid, before) ∷ rest) db =
    let item = or_before (get iid db.items) before in
    let db₁ =
      movement env principal iid item MovementType.reservation MovementReason.customer_order (pos 0)
        (pos (item.reserved_quantity - before.reserved_quantity)) (some "reservation_group")
        (some (by_id group)) none db in
    let db₂ =
      audit env principal "stock.reserved" "inventory_item" iid (of_item before) (of_item item)
        db₁ in
    log_touched env principal group rest (low_stock_event env iid item db₂)

-- The loop over the new reservations.
unfoldable pub log_members :
    Surroundings
    → Principal
    → Table InventoryItem
    → Table InventoryReservation
    → InventoryDb
    → InventoryDb
log_members env principal touched [] db = db
log_members env principal touched ((rid, r) ∷ rest) db =
    let db₁ =
      audit env principal "reservation.created" "inventory_reservation" rid nothing
        (of_reservation r) db in
    log_members env principal touched rest (elim (get r.inventory_item_id db.items) [
      | none ↦ db₁
      | some item ↦
          event env "inventory.reservation.created.v1" r.inventory_item_id item (some (rid, r)) db₁
    ])

-- `create_batch_reservation`, where the key is not a replay.
unfoldable pub add_batch :
    Surroundings
    → BatchReservationCreate
    → Principal
    → Option String
    → Handler (ℕ × Table InventoryReservation)
add_batch env body principal key = do
  expires_at ← expiry env body.expires_at
  let group = env.new_id 0
  made ←
      reserve_lines env body group expires_at body.lines
        (record { reservations = []; touched = []; count = 0 })
  modify (log_touched env principal group made.touched)
  modify (log_members env principal made.touched made.reservations)
  modify (remember env body.customer_id key "reservation_group" group)
  commit
  pure (group, made.reservations)

unfoldable pub create_batch_reservation :
    Surroundings
    → BatchReservationCreate
    → Principal
    → Option String
    → Handler (ℕ × Table InventoryReservation)
create_batch_reservation env body principal idempotency_key = do
  let key = given idempotency_key
  existing ← idempotency_lookup env body.customer_id key
  elim existing [
    | none ↦ add_batch env body principal key
    | some seen ↦ do
      members ← query (list_reservations_by_group seen.resource_id)
      elim members [
        | [] ↦ add_batch env body principal key
        | m ∷ ms ↦ pure (seen.resource_id, m ∷ ms)
      ]
  ]

-- ===== src/Inventory/Reservations.antt =====
-- services/inventory-service/app/services/inventory_service.py: single reservations and the expiry
-- sweep.
use market_place_app.Prelude.{
  ℕ, String, Bool, Option, none, some, [], ◌∷◌, ◌+◌, ltb, leb, ◌==◌, ◌||◌, not, is_some, sort_by,
  take, if◌then◌else◌,
}
use market_place_app.Prelude.Int.{pos}
use market_place_app.Prelude.Table.{Table, get, filter_rows}
use market_place_app.Prelude.Session.{
  Result, ok, err, Session, pure, query, or_raise, raise, ◌>>=◌, ◌>>◌, raise_if, modify, commit,
  Failure, service_error, integrity_error,
}
use market_place_app.Prelude.Principal.{Principal, has_role, has_scope}
use market_place_app.Inventory.Model.{
  active, released, expired, is_active, InventoryItem, InventoryReservation, InventoryDb, Code,
  available_quantity, MovementType, MovementReason, by_id, by_text, nothing, of_item,
  of_reservation, inventory_item_not_found, insufficient_stock, invalid_expiration,
  reservation_not_found, reservation_forbidden, reservation_not_active, inventory_item_missing,
  reservation_expired, Handler, Surroundings, is_due,
}
use market_place_app.Inventory.Writes.{
  audit, event, movement, save_item, save_reservation, low_stock_event, remember, given,
  idempotency_lookup,
}
use market_place_app.Inventory.Resolving.{resolve_reservation, commit_one, sold}

pub record ReservationCreate : Type 0 where
  pub inventory_item_id : ℕ
  pub quantity : ℕ
  pub cart_reference : Option String
  pub expires_at : Option ℕ

abbrev pub or_default : Option ℕ → ℕ → ℕ
or_default none t = t
or_default (some at) t = at

-- The expiry of a new reservation: now, or later than the longest allowed, is refused.
unfoldable pub expiry : Surroundings → Option ℕ → Handler ℕ
expiry env requested = do
  let at = or_default requested (env.now + env.default_reservation_minutes)
  raise_if (leb at env.now) (service_error 422 invalid_expiration)
  raise_if (ltb (env.now + env.max_reservation_minutes) at) (service_error 422 invalid_expiration)
  pure at

abbrev pub held_more : InventoryItem → ℕ → InventoryItem
held_more item quantity = record item {
  reserved_quantity = item.reserved_quantity + quantity;
  version = item.version + 1;
}

-- A new reservation and the item that it holds stock of.
unfoldable pub hold : ℕ → InventoryReservation → ℕ → InventoryItem → InventoryDb → InventoryDb
unfolding save_item save_reservation
hold rid r iid item db = save_reservation rid r (save_item iid (held_more item r.quantity) db)

-- What `create_reservation` writes.
unfoldable pub write_reserved :
    Surroundings
    → Principal
    → ℕ
    → InventoryReservation
    → ℕ
    → InventoryItem
    → Option String
    → InventoryDb
    → InventoryDb
unfolding hold movement audit event low_stock_event remember
write_reserved env principal rid r iid item key db =
    let item' = held_more item r.quantity in
    let db₁ =
      movement env principal iid item' MovementType.reservation MovementReason.customer_order
        (pos 0) (pos r.quantity) (some "reservation") (some (by_id rid)) none
        (hold rid r iid item db) in
    let db₂ =
      audit env principal "reservation.created" "inventory_reservation" rid nothing
        (of_reservation r) db₁ in
    let db₃ =
      audit env principal "stock.reserved" "inventory_item" iid (of_item item) (of_item item')
        db₂ in
    let db₄ = event env "inventory.reservation.created.v1" iid item' (some (rid, r)) db₃ in
    remember env principal.subject key "inventory_reservation" rid
      (low_stock_event env iid item' db₄)

abbrev pub new_reservation : ReservationCreate → Principal → ℕ → InventoryReservation
new_reservation body principal expires_at = record {
  inventory_item_id = body.inventory_item_id;
  customer_id = principal.subject;
  cart_reference = body.cart_reference;
  order_reference = none;
  reservation_group_id = none;
  quantity = body.quantity;
  status = active;
  expires_at = expires_at;
  resolved_at = none;
  version = 1;
}

-- `create_reservation`, where the key is not a replay.
unfoldable pub add_reservation :
    Surroundings
    → ReservationCreate
    → Principal
    → Option String
    → Handler (ℕ × InventoryReservation)
unfolding expiry
add_reservation env body principal key = do
  found ← query (λ db. get body.inventory_item_id db.items)
  item ← or_raise found (service_error 404 inventory_item_not_found)
  raise_if (not item.is_active) (service_error 404 inventory_item_not_found)
  raise_if (ltb (available_quantity item) body.quantity) (service_error 409 insufficient_stock)
  expires_at ← expiry env body.expires_at
  let rid = env.new_id 0
  let r = new_reservation body principal expires_at
  same_key ← query (λ db. get rid db.reservations)
  raise_if (is_some same_key) integrity_error
  modify (write_reserved env principal rid r body.inventory_item_id item key)
  commit
  pure (rid, r)

unfoldable pub create_reservation :
    Surroundings
    → ReservationCreate
    → Principal
    → Option String
    → Handler (ℕ × InventoryReservation)
create_reservation env body principal idempotency_key = do
  let key = given idempotency_key
  existing ← idempotency_lookup env principal.subject key
  elim existing [
    | none ↦ add_reservation env body principal key
    | some seen ↦ do
      found ← query (λ db. get seen.resource_id db.reservations)
      elim found [
        | none ↦ add_reservation env body principal key
        | some r ↦ pure (seen.resource_id, r)
      ]
  ]

abbrev pub may_act : Principal → InventoryReservation → Bool
may_act principal r =
    has_role principal ("admin" ∷ "seller" ∷ [])
    || r.customer_id == principal.subject
    || has_scope principal "inventory:commit"

-- `_active_reservation_with_item`
unfoldable pub active_reservation_with_item :
    ℕ → Principal → Handler (InventoryReservation × InventoryItem)
active_reservation_with_item rid principal = do
  found ← query (λ db. get rid db.reservations)
  r ← or_raise found (service_error 404 reservation_not_found)
  raise_if (not (may_act principal r)) (service_error 403 reservation_forbidden)
  raise_if (not (is_active r.status)) (service_error 409 reservation_not_active)
  stocked ← query (λ db. get r.inventory_item_id db.items)
  item ← or_raise stocked (service_error 409 inventory_item_missing)
  pure (r, item)

-- `_is_expired`
abbrev pub is_expired : InventoryReservation → ℕ → Bool
is_expired r now = leb r.expires_at now

-- The branch of `commit_reservation` for an expired reservation: it is resolved, and that is
-- committed, before the error is raised.
unfoldable pub expire_now :
    Surroundings
    → Principal
    → ℕ
    → InventoryReservation
    → InventoryItem
    → Handler InventoryReservation
expire_now env principal rid r item = do
  resolve_reservation env principal rid r r.inventory_item_id item expired
      MovementReason.reservation_expired none
  commit
  raise (service_error 409 reservation_expired)

-- The branch of `commit_reservation` for one that still holds.
unfoldable pub sell :
    Surroundings
    → Principal
    → ℕ
    → InventoryReservation
    → String
    → InventoryItem
    → Handler InventoryReservation
sell env principal rid r order_reference item = do
  commit_one env principal rid r (some order_reference) r.inventory_item_id item "order"
      (some (by_text order_reference))
  commit
  pure (sold env r (some order_reference))

unfoldable pub commit_reservation :
    Surroundings → ℕ → String → Principal → Handler InventoryReservation
unfolding active_reservation_with_item
commit_reservation env rid order_reference principal = do
  (r, item) ← active_reservation_with_item rid principal
  if is_expired r env.now
      then expire_now env principal rid r item
      else sell env principal rid r order_reference item

unfoldable pub release_reservation :
    Surroundings → ℕ → MovementReason → Option String → Principal → Handler Unit
unfolding active_reservation_with_item
release_reservation env rid reason note principal = do
  (r, item) ← active_reservation_with_item rid principal
  resolve_reservation env principal rid r r.inventory_item_id item released reason note
  commit

abbrev settle :
    Session InventoryDb Unit
    → Result (Failure Code) Unit × Session InventoryDb Unit
    → Result (Failure Code) Bool × Session InventoryDb Unit
settle before (ok a, after) = (ok Bool.true, after)
settle before (err e, after) = (ok Bool.false, before)

-- A savepoint (`begin_nested`) in `try: ... except Exception`: what was written before a raise is
-- taken back, and the sweep goes on. Was it left in place?
unfoldable pub attempt : Handler Unit → Handler Bool
attempt m s = settle s (m s)

-- `list_expired_active`
unfoldable pub list_expired_active : ℕ → ℕ → InventoryDb → Table InventoryReservation
unfolding sort_by take
list_expired_active now limit db =
    take limit (sort_by (λ e. (e.1).expires_at) (filter_rows (is_due now) db.reservations))

-- The loop of `expire_reservations`, with the reservations that are still to do.
unfoldable pub expire_each : Surroundings → Principal → Table InventoryReservation → ℕ → Handler ℕ
expire_each env principal [] count = pure count
expire_each env principal ((rid, r) ∷ rest) count = do
  stocked ← query (λ db. get r.inventory_item_id db.items)
  done ← elim stocked [
    | none ↦ pure Bool.false
    | some item ↦ attempt (
        resolve_reservation env principal rid r r.inventory_item_id item expired
          MovementReason.reservation_expired none)
  ]
  expire_each env principal rest (if done then count + 1 else count)

unfoldable pub expire_reservations : Surroundings → Principal → ℕ → Handler ℕ
expire_reservations env principal limit = do
  due ← query (list_expired_active env.now limit)
  count ← expire_each env principal due 0
  commit
  pure count

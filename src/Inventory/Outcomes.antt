-- ===== src/Inventory/Outcomes.antt =====
-- What a request leaves of an item, on every path.
use market_place_app.Prelude.{ℕ, String, ◌+◌, ◌≤◌, ◌≡◌, true, Option, none, some, arith}
use market_place_app.Prelude.Table.{get, put, get-put_self}
use market_place_app.Prelude.Session.{Result, ok, err, Failure, request}
use market_place_app.Prelude.Principal.{Principal}
use market_place_app.Inventory.Model.{
  InventoryItem, InventoryReservation, InventoryDb, Code, Surroundings, available_quantity,
}
use market_place_app.Inventory.Reservations.{
  ReservationCreate, add_reservation, expiry, held_more, new_reservation, write_reserved,
  or_default,
}

items-write_reserved :
    (env : Surroundings) (p : Principal) (rid : ℕ) (r : InventoryReservation) (iid : ℕ)
    (item : InventoryItem) (key : Option String) (d : InventoryDb)
    → ((write_reserved env p rid r iid item key d).items
        ≡ put iid (held_more item r.quantity) d.items)
      × ((write_reserved env p rid r iid item key d).reservations ≡ put rid r d.reservations)
unfolding write_reserved
items-write_reserved env p rid r iid item none d = ground arith
items-write_reserved env p rid r iid item (some key) d = ground arith

-- A reservation that was made, or refused.
abbrev pub Reserved :
    InventoryItem
    → ReservationCreate
    → InventoryDb
    → Result (Failure Code) (ℕ × InventoryReservation)
    → InventoryDb
    → Type 0
Reserved item body d (ok (rid, r)) d' =
    (body.quantity ≤ available_quantity item)
    × (item.is_active ≡ true)
    × (r.quantity ≡ body.quantity)
    × (get rid d.reservations ≡ none)
    × (get rid d'.reservations ≡ some r)
    × (get body.inventory_item_id d'.items ≡ some (held_more item body.quantity))
Reserved item body d (err e) d' = d' ≡ d

-- A reservation of a stored item that is accepted found an active item with enough free stock, is stored under a
-- new key, and raises what the item has reserved by its quantity; one that is refused changes
-- nothing.
pub add_reservation_lem :
    (env : Surroundings) (body : ReservationCreate) (p : Principal) (key : Option String)
    (d : InventoryDb) (item : InventoryItem)
    → get body.inventory_item_id d.items ≡ some item
    → let (result, d', w) = request (add_reservation env body p key) d tt in
      Reserved item body d result d'
unfolding add_reservation expiry
add_reservation_lem env body p key d item stocked =
    let rid = env.new_id 0 in
    let at = or_default body.expires_at (env.now + env.default_reservation_minutes) in
    let r = new_reservation body p at in
    ground (
      arith,
      items-write_reserved env p rid r body.inventory_item_id item key d,
      get-put_self body.inventory_item_id (held_more item body.quantity) d.items,
      get-put_self rid r d.reservations,
    )

-- ===== src/Inventory/Consistency.antt =====
-- The invariant of the stock, and that each write of the handlers keeps it.
use market_place_app.Prelude.{
  ℕ, suc, String, ◌+◌, ◌≤◌, ◌≡◌, true, false, Option, none, some, ◌==◌, ◌&&◌, arith, sum_of,
  sum_of-append, if◌then◌else◌,
}
use market_place_app.Prelude.Int.{neg, pos_part, neg_part}
use market_place_app.Prelude.Table.{get, get-put}
use market_place_app.Prelude.Table.Rows.{IsOrdered, put-IsOrdered, sum_rows, sum_rows-put}
use market_place_app.Prelude.Principal.{Principal}
use market_place_app.Inventory.Model.{
  ReservationStatus, active, is_active, MovementReason, InventoryItem, InventoryReservation,
  InventoryMovement, InventoryDb, Reference, available_quantity, Surroundings,
}
use market_place_app.Inventory.Writes.{save_item}
use market_place_app.Inventory.Resolving.{
  unreserved, taken, resolved, write_resolved, sold, write_committed,
}
use market_place_app.Inventory.Stock.{StockAdjustment}
use market_place_app.Inventory.Items.{below_reserved, adjusted, write_adjusted, write_item}
use market_place_app.Inventory.Reservations.{hold, held_more, write_reserved}

-- What a reservation holds of item `k`.
abbrev pub holds : ℕ → InventoryReservation → ℕ
holds k r = if is_active r.status && r.inventory_item_id == k then r.quantity else 0

abbrev pub came_in : ℕ → InventoryMovement → ℕ
came_in k m = if m.inventory_item_id == k then pos_part m.on_hand_delta else 0

abbrev pub went_out : ℕ → InventoryMovement → ℕ
went_out k m = if m.inventory_item_id == k then neg_part m.on_hand_delta else 0

abbrev pub reserved_of : Option InventoryItem → ℕ
reserved_of none = 0
reserved_of (some i) = i.reserved_quantity

abbrev pub on_hand_of : Option InventoryItem → ℕ
on_hand_of none = 0
on_hand_of (some i) = i.on_hand_quantity

-- Item `k` has reserved what its active reservations hold, no more than is on hand, and on hand is
-- what its movements add up to. An item that is not stored has nothing.
pub record IsConsistentAt (k : ℕ) (d : InventoryDb) : Type 0 where
  pub held : sum_rows (holds k) d.reservations ≡ reserved_of (get k d.items)
  pub fits : reserved_of (get k d.items) ≤ on_hand_of (get k d.items)
  pub ledger :
      sum_of (came_in k) d.movements ≡ sum_of (went_out k) d.movements + on_hand_of (get k d.items)
  pub ordered : IsOrdered d.reservations
  pub items_ordered : IsOrdered d.items

neg_lem : (n : ℕ) → (pos_part (neg n) ≡ 0) × (neg_part (neg n) ≡ n)
neg_lem ℕ.zero = omega arith
neg_lem (suc n) = omega arith

module _ (k rid : ℕ) (r : InventoryReservation) (iid : ℕ) (item : InventoryItem) (d : InventoryDb)
    (h : IsConsistentAt k d) (stocked : get iid d.items ≡ some item)
    (same : r.inventory_item_id ≡ iid) where
  pub hold-IsConsistentAt :
      get rid d.reservations ≡ none
      → r.status ≡ active
      → r.quantity ≤ available_quantity item
      → IsConsistentAt k (hold rid r iid item d)
  unfolding hold
  hold-IsConsistentAt new live enough = ground (
    arith,
    get-put iid k (held_more item r.quantity) d.items,
    put-IsOrdered iid (held_more item r.quantity) d.items h.items_ordered,
    sum_rows-put (holds k) rid r d.reservations h.ordered,
    put-IsOrdered rid r d.reservations h.ordered,
  )

  pub write_reserved-IsConsistentAt :
      (env : Surroundings) (p : Principal) (key : Option String)
      → get rid d.reservations ≡ none
      → r.status ≡ active
      → r.quantity ≤ available_quantity item
      → IsConsistentAt k (write_reserved env p rid r iid item key d)
  unfolding write_reserved
  write_reserved-IsConsistentAt env p none new live enough = grind (
    arith,
    sum_of-append,
    get-put iid k (held_more item r.quantity) d.items,
    put-IsOrdered iid (held_more item r.quantity) d.items h.items_ordered,
    sum_rows-put (holds k) rid r d.reservations h.ordered,
    put-IsOrdered rid r d.reservations h.ordered,
  )
  write_reserved-IsConsistentAt env p (some key) new live enough = grind (
    arith,
    sum_of-append,
    get-put iid k (held_more item r.quantity) d.items,
    put-IsOrdered iid (held_more item r.quantity) d.items h.items_ordered,
    sum_rows-put (holds k) rid r d.reservations h.ordered,
    put-IsOrdered rid r d.reservations h.ordered,
  )

  -- The release or expiry of an active reservation.
  pub write_resolved-IsConsistentAt :
      (env : Surroundings) (p : Principal) (target : ReservationStatus) (reason : MovementReason)
      (remark : Option String)
      → get rid d.reservations ≡ some r
      → is_active r.status ≡ true
      → is_active target ≡ false
      → r.quantity ≤ item.reserved_quantity
      → IsConsistentAt k (write_resolved env p rid r iid item target reason remark d)
  unfolding write_resolved
  write_resolved-IsConsistentAt env p target reason remark old live ended enough = grind (
    arith,
    sum_of-append,
    get-put iid k (unreserved item r.quantity) d.items,
    put-IsOrdered iid (unreserved item r.quantity) d.items h.items_ordered,
    sum_rows-put (holds k) rid (resolved env r target) d.reservations h.ordered,
    put-IsOrdered rid (resolved env r target) d.reservations h.ordered,
  )

  -- The sale of an active reservation.
  pub write_committed-IsConsistentAt :
      (env : Surroundings) (p : Principal) (order_reference : Option String) (kind : String)
      (ref : Option Reference)
      → get rid d.reservations ≡ some r
      → is_active r.status ≡ true
      → r.quantity ≤ item.reserved_quantity
      → r.quantity ≤ item.on_hand_quantity
      → IsConsistentAt k
          (write_committed env p rid r (sold env r order_reference) iid item kind ref d)
  unfolding write_committed
  write_committed-IsConsistentAt env p order_reference kind ref old live enough there = grind (
    arith,
    sum_of-append,
    neg_lem,
    get-put iid k (taken item r.quantity) d.items,
    put-IsOrdered iid (taken item r.quantity) d.items h.items_ordered,
    sum_rows-put (holds k) rid (sold env r order_reference) d.reservations h.ordered,
    put-IsOrdered rid (sold env r order_reference) d.reservations h.ordered,
  )

module _ (k : ℕ) (iid : ℕ) (item : InventoryItem) (d : InventoryDb) (h : IsConsistentAt k d) where
  -- A correction of what is on hand, never below what is reserved.
  pub write_adjusted-IsConsistentAt :
      (env : Surroundings) (p : Principal) (body : StockAdjustment) (key : Option String)
      → get iid d.items ≡ some item
      → below_reserved item body.quantity_delta ≡ false
      → IsConsistentAt k (write_adjusted env p iid item body key d)
  unfolding write_adjusted
  write_adjusted-IsConsistentAt env p body none old enough = grind (
    arith,
    sum_of-append,
    get-put iid k (adjusted item body.quantity_delta) d.items,
    put-IsOrdered iid (adjusted item body.quantity_delta) d.items h.items_ordered,
  )
  write_adjusted-IsConsistentAt env p body (some key) old enough = grind (
    arith,
    sum_of-append,
    get-put iid k (adjusted item body.quantity_delta) d.items,
    put-IsOrdered iid (adjusted item body.quantity_delta) d.items h.items_ordered,
  )

  -- A new item with its first stock.
  pub write_item-IsConsistentAt :
      (env : Surroundings) (p : Principal) (key : Option String)
      → get iid d.items ≡ none
      → item.reserved_quantity ≡ 0
      → IsConsistentAt k (write_item env p iid item key d)
  unfolding write_item
  write_item-IsConsistentAt env p none new unheld = grind (
    arith,
    sum_of-append,
    get-put iid k item d.items,
    put-IsOrdered iid item d.items h.items_ordered,
  )
  write_item-IsConsistentAt env p (some key) new unheld = grind (
    arith,
    sum_of-append,
    get-put iid k item d.items,
    put-IsOrdered iid item d.items h.items_ordered,
  )

  -- A change of an item's other columns.
  pub save_item-IsConsistentAt :
      (old : InventoryItem)
      → get iid d.items ≡ some old
      → item.reserved_quantity ≡ old.reserved_quantity
      → item.on_hand_quantity ≡ old.on_hand_quantity
      → IsConsistentAt k (save_item iid item d)
  unfolding save_item
  save_item-IsConsistentAt old was a b =
      ground (arith, get-put iid k item d.items, put-IsOrdered iid item d.items h.items_ordered)

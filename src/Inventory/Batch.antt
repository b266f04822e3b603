-- ===== src/Inventory/Batch.antt =====
-- The batch reservation of an order's lines keeps the stock consistent.
use market_place_app.Prelude.{
  ℕ, suc, String, ◌+◌, ◌-◌, min, ◌==◌, refl, Option, none, some, List, [], ◌∷◌, arith, Bool-cases,
  Option-cases, inl, inr, sum_of-append,
}
use market_place_app.Prelude.Int.{pos}
use market_place_app.Prelude.Table.{Table, get}
use market_place_app.Prelude.Table.Rows.{
  Stored, Distinct, Distinct-of_IsOrdered, filter_rows-IsOrdered, filter_rows-Stored, put-Stored,
}
use market_place_app.Prelude.Session.{Session, request, Result-cases}
use market_place_app.Prelude.Principal.{Principal}
use market_place_app.Inventory.Model.{
  available_quantity, InventoryItem, InventoryReservation, InventoryDb, Surroundings, sells,
  items_for_reservation, MovementType, MovementReason, by_id, of_item,
}
use market_place_app.Inventory.Writes.{remember, given, low_stock_event, audit, movement, event}
use market_place_app.Inventory.Reservations.{hold, held_more, expiry, or_default}
use market_place_app.Inventory.Groups.{
  BatchReservationLine, BatchReservationCreate, Made, new_member, add_member, allocate,
  reserve_line, reserve_lines, or_before, log_touched, log_members, add_batch,
  create_batch_reservation,
}
use market_place_app.Inventory.Consistency.{IsConsistentAt, hold-IsConsistentAt}
use market_place_app.Inventory.Lookup.{lookup_reads}
use market_place_app.Inventory.Loops.{Kept}

-- The items of a line are stored as they were loaded, each once.
pub record IsLoaded (d : InventoryDb) (rows : Table InventoryItem) : Type 0 where
  pub stored : Stored d.items rows
  pub distinct : Distinct rows

module _ (k : ℕ) (env : Surroundings) (body : BatchReservationCreate) (group expires_at : ℕ) where
  hold-IsLoaded :
      (d : InventoryDb) (rid iid : ℕ) (item : InventoryItem) (r : InventoryReservation)
      (rest : Table InventoryItem)
      → IsLoaded d ((iid, item) ∷ rest)
      → IsLoaded (hold rid r iid item d) rest
  unfolding hold
  hold-IsLoaded d rid iid item r rest x = record {
    stored = put-Stored iid (held_more item r.quantity) d.items rest x.distinct.0 x.stored.1;
    distinct = x.distinct.1;
  }

  rest-IsLoaded :
      (d : InventoryDb) (e : ℕ × InventoryItem) (rest : Table InventoryItem)
      → IsLoaded d (e ∷ rest)
      → IsLoaded d rest
  rest-IsLoaded d e rest x = record { stored = x.stored.1; distinct = x.distinct.1 }

  -- One new member holds stock that the item has, or the request fails.
  add_member-Kept :
      (iid : ℕ) (item : InventoryItem) (rest : Table InventoryItem) (remaining : ℕ) (made : Made)
      (s : Session InventoryDb Unit)
      → IsConsistentAt k s.working
      → IsLoaded s.working ((iid, item) ∷ rest)
      → let t =
          (add_member env body group expires_at iid item
            (min (available_quantity item) remaining)
            made
            s).1 in
        Kept k s t × IsLoaded t.working rest
  unfolding add_member
  add_member-Kept iid item rest remaining made s h x =
      let rid = env.new_id (suc made.count) in
      let r = new_member body group expires_at iid (min (available_quantity item) remaining) in
      elim (Option-cases (get rid s.working.reservations)) [
        | inl e ↦ ground (
          arith,
          hold-IsConsistentAt k rid r iid item s.working h x.stored.0 refl e refl (omega arith),
          hold-IsLoaded s.working rid iid item r rest x,
        )
        | inr (old, e) ↦ ground (arith, rest-IsLoaded s.working (iid, item) rest x)
      ]

  allocate-Kept :
      (rows : Table InventoryItem) (remaining : ℕ) (made : Made) (s : Session InventoryDb Unit)
      → IsConsistentAt k s.working
      → IsLoaded s.working rows
      → Kept k s (allocate env body group expires_at rows remaining made s).1
  unfolding allocate
  allocate-Kept [] remaining made s h x = (h, refl)
  allocate-Kept ((iid, item) ∷ rest) remaining made s h x =
      let take = min (available_quantity item) remaining in
      let added = add_member env body group expires_at iid item take made s in
      let kept = add_member-Kept iid item rest remaining made s h x in
      elim (Bool-cases (take == 0)) [
        | inl e ↦ rw e (
            allocate-Kept rest (remaining - take) made s h
              (rest-IsLoaded s.working (iid, item) rest x))
        | inr e ↦ rw e (elim (Result-cases added.0) [
          | inl (made', f) ↦
              ground (arith, kept, allocate-Kept rest (remaining - take) made' added.1)
          | inr (x', f) ↦ ground (arith, kept)
        ])
      ]

  line-IsLoaded :
      (d : InventoryDb) (line : BatchReservationLine)
      → IsConsistentAt k d
      → IsLoaded d (items_for_reservation line.seller_id line.sku d)
  unfolding items_for_reservation
  line-IsLoaded d line h = record {
    stored = filter_rows-Stored (sells line.seller_id line.sku) d.items h.items_ordered;
    distinct =
        Distinct-of_IsOrdered _
          (filter_rows-IsOrdered (sells line.seller_id line.sku) d.items h.items_ordered);
  }

  reserve_line-Kept :
      (line : BatchReservationLine) (made : Made) (s : Session InventoryDb Unit)
      → IsConsistentAt k s.working
      → Kept k s (reserve_line env body group expires_at line made s).1
  unfolding reserve_line
  reserve_line-Kept line made s h =
      let items = items_for_reservation line.seller_id line.sku s.working in
      ground (arith, allocate-Kept items line.quantity made s h (line-IsLoaded s.working line h))

  reserve_lines-Kept :
      (lines : List BatchReservationLine) (made : Made) (s : Session InventoryDb Unit)
      → IsConsistentAt k s.working
      → Kept k s (reserve_lines env body group expires_at lines made s).1
  unfolding reserve_lines
  reserve_lines-Kept [] made s h = (h, refl)
  reserve_lines-Kept (line ∷ lines) made s h =
      let first = reserve_line env body group expires_at line made s in
      elim (Result-cases first.0) [
        | inl (made', f) ↦
            ground (arith, reserve_line-Kept line made s h, reserve_lines-Kept lines made' first.1)
        | inr (x', f) ↦ ground (arith, reserve_line-Kept line made s h)
      ]

remember-Keeps :
    (k : ℕ) (env : Surroundings) (actor : ℕ) (key : Option String) (kind : String) (id : ℕ)
    (d : InventoryDb)
    → IsConsistentAt k d
    → IsConsistentAt k (remember env actor key kind id d)
unfolding remember
remember-Keeps k env actor none kind id d h = h
remember-Keeps k env actor (some key) kind id d h = ground arith

module _ (k : ℕ) (env : Surroundings) (p : Principal) where
  logged : ℕ → ℕ → InventoryItem → InventoryItem → InventoryDb → InventoryDb
  logged group iid before item d = low_stock_event env iid item (
      audit env p "stock.reserved" "inventory_item" iid (of_item before) (of_item item) (
        movement env p iid item MovementType.reservation MovementReason.customer_order (pos 0)
          (pos (item.reserved_quantity - before.reserved_quantity)) (some "reservation_group")
          (some (by_id group)) none d))

  logged-Keeps :
      (group iid : ℕ) (before item : InventoryItem) (d : InventoryDb)
      → IsConsistentAt k d
      → IsConsistentAt k (logged group iid before item d)
  unfolding logged low_stock_event audit movement
  logged-Keeps group iid before item d h = grind (arith, sum_of-append)

  log_touched-Keeps :
      (group : ℕ) (touched : Table InventoryItem) (d : InventoryDb)
      → IsConsistentAt k d
      → IsConsistentAt k (log_touched env p group touched d)
  unfolding log_touched logged
  log_touched-Keeps group [] d h = h
  log_touched-Keeps group ((iid, before) ∷ rest) d h =
      let item = or_before (get iid d.items) before in
      log_touched-Keeps group rest (logged group iid before item d)
        (logged-Keeps group iid before item d h)

  log_members-Keeps :
      (touched : Table InventoryItem) (rows : Table InventoryReservation) (d : InventoryDb)
      → IsConsistentAt k d
      → IsConsistentAt k (log_members env p touched rows d)
  unfolding log_members audit event
  log_members-Keeps touched [] d h = h
  log_members-Keeps touched ((rid, r) ∷ rest) d h =
      elim (Option-cases (get r.inventory_item_id d.items)) [
        | inl e ↦ rw e (log_members-Keeps touched rest _ (ground arith))
        | inr (item, e) ↦ rw e (log_members-Keeps touched rest _ (ground arith))
      ]

  module _ (d : InventoryDb) (h : IsConsistentAt k d) (body : BatchReservationCreate) where
    add_batch-Keeps :
        (key : Option String) → IsConsistentAt k (request (add_batch env body p key) d tt).1
    unfolding add_batch expiry
    add_batch-Keeps key =
        let at = or_default body.expires_at (env.now + env.default_reservation_minutes) in
        let group = env.new_id 0 in
        let s : Session InventoryDb Unit = record { durable = d; working = d; world = tt } in
        let none_yet : Made = record { reservations = []; touched = []; count = 0 } in
        let t = reserve_lines env body group at body.lines none_yet s in
        let kept = reserve_lines-Kept k env body group at body.lines none_yet s h in
        elim (Result-cases t.0) [
          | inl (made, e) ↦ ground (
            arith,
            kept,
            remember-Keeps k env body.customer_id key "reservation_group" group _ (
                log_members-Keeps made.touched made.reservations _
                  (log_touched-Keeps group made.touched t.1.working kept.0)),
          )
          | inr (x, e) ↦ ground (arith, kept)
        ]

    pub create_batch_reservation-Keeps :
        (key : Option String)
        → IsConsistentAt k (request (create_batch_reservation env body p key) d tt).1
    unfolding create_batch_reservation
    create_batch_reservation-Keeps key = ground (
      arith,
      lookup_reads env body.customer_id (given key)
          (record { durable = d; working = d; world = tt }),
      add_batch-Keeps (given key),
    )

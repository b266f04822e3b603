-- ===== src/Inventory/Loops.antt =====
-- The loops over loaded reservations keep the stock consistent: the sweep of expired reservations,
-- and the commitment, release and expiry of a group.
use market_place_app.Prelude.{
  ℕ, String, ◌+◌, ◌≡◌, refl, true, Option, none, some, [], ◌∷◌, arith, Option-cases, inl, inr, All,
}
use market_place_app.Prelude.Table.{Table, get}
use market_place_app.Prelude.Table.Rows.{Stored, Distinct, put-Stored}
use market_place_app.Prelude.Session.{Session}
use market_place_app.Prelude.Principal.{Principal}
use market_place_app.Inventory.Model.{
  ReservationStatus, released, expired, is_active, MovementReason, InventoryItem,
  InventoryReservation, InventoryDb, Surroundings, by_id,
}
use market_place_app.Inventory.Resolving.{
  resolve_reservation, commit_one, write_resolved, write_committed, resolved, sold,
}
use market_place_app.Inventory.Reservations.{attempt, expire_each}
use market_place_app.Inventory.GroupEnds.{expire_members, commit_members, release_members}
use market_place_app.Inventory.Consistency.{
  IsConsistentAt, write_resolved-IsConsistentAt, write_committed-IsConsistentAt,
}

-- The rows of a loop are stored as they were loaded, each once, and are active.
pub record IsReady (d : InventoryDb) (rows : Table InventoryReservation) : Type 0 where
  pub stored : Stored d.reservations rows
  pub distinct : Distinct rows
  pub live : All (λ e. is_active (e.1).status ≡ true) rows

-- What a part of a request has done to its session: nothing is committed, and item `k` is
-- consistent in what it sees.
abbrev pub Kept : ℕ → Session InventoryDb Unit → Session InventoryDb Unit → Type 0
Kept k s s' = IsConsistentAt k s'.working × (s'.durable ≡ s.durable)

passed_over :
    {d : InventoryDb} {e : ℕ × InventoryReservation} {rest : Table InventoryReservation}
    → IsReady d (e ∷ rest)
    → IsReady d rest
passed_over x = record { stored = x.stored.1; distinct = x.distinct.1; live = x.live.1 }

module _ (k : ℕ) (env : Surroundings) (p : Principal) where
  abbrev after_resolved :
      Session InventoryDb Unit
      → ℕ
      → InventoryReservation
      → InventoryItem
      → ReservationStatus
      → MovementReason
      → Option String
      → Session InventoryDb Unit
  after_resolved s rid r item target reason remark = record s {
    working = write_resolved env p rid r r.inventory_item_id item target reason remark s.working;
  }

  resolved-IsReady :
      (d : InventoryDb) (rid : ℕ) (r : InventoryReservation) (rest : Table InventoryReservation)
      (item : InventoryItem) (target : ReservationStatus) (reason : MovementReason)
      (remark : Option String)
      → IsReady d ((rid, r) ∷ rest)
      → IsReady (write_resolved env p rid r r.inventory_item_id item target reason remark d) rest
  unfolding write_resolved
  resolved-IsReady d rid r rest item target reason remark x = record {
    stored = put-Stored rid (resolved env r target) d.reservations rest x.distinct.0 x.stored.1;
    distinct = x.distinct.1;
    live = x.live.1;
  }

  pub release_members-Kept :
      (reason : MovementReason) (remark : Option String) (rows : Table InventoryReservation)
      (s : Session InventoryDb Unit)
      → IsConsistentAt k s.working
      → IsReady s.working rows
      → Kept k s (release_members env p reason remark rows s).1
  unfolding release_members resolve_reservation
  release_members-Kept reason remark [] s h x = (h, refl)
  release_members-Kept reason remark ((rid, r) ∷ rest) s h x =
      elim (Option-cases (get r.inventory_item_id s.working.items)) [
        | inl e ↦ ground arith
        | inr (item, e) ↦ ground (
          arith,
          release_members-Kept reason remark rest
              (after_resolved s rid r item released reason remark),
          resolved-IsReady s.working rid r rest item released reason remark x,
          write_resolved-IsConsistentAt k rid r r.inventory_item_id item s.working h e refl env p
              released reason remark x.stored.0 x.live.0 refl,
        )
      ]

  pub expire_members-Kept :
      (rows : Table InventoryReservation) (s : Session InventoryDb Unit)
      → IsConsistentAt k s.working
      → IsReady s.working rows
      → Kept k s (expire_members env p rows s).1
  unfolding expire_members resolve_reservation
  expire_members-Kept [] s h x = (h, refl)
  expire_members-Kept ((rid, r) ∷ rest) s h x =
      elim (Option-cases (get r.inventory_item_id s.working.items)) [
        | inl e ↦ ground (arith, expire_members-Kept rest s h (passed_over x))
        | inr (item, e) ↦
            let reason = MovementReason.reservation_expired in
            ground (
              arith,
              expire_members-Kept rest (after_resolved s rid r item expired reason none),
              resolved-IsReady s.working rid r rest item expired reason none x,
              write_resolved-IsConsistentAt k rid r r.inventory_item_id item s.working h e refl env
                  p expired reason none x.stored.0 x.live.0 refl,
            )
      ]

  pub expire_each-Kept :
      (rows : Table InventoryReservation) (count : ℕ) (s : Session InventoryDb Unit)
      → IsConsistentAt k s.working
      → IsReady s.working rows
      → Kept k s (expire_each env p rows count s).1
  unfolding expire_each attempt resolve_reservation
  expire_each-Kept [] count s h x = (h, refl)
  expire_each-Kept ((rid, r) ∷ rest) count s h x =
      elim (Option-cases (get r.inventory_item_id s.working.items)) [
        | inl e ↦ ground (arith, expire_each-Kept rest count s h (passed_over x))
        | inr (item, e) ↦
            let reason = MovementReason.reservation_expired in
            ground (
              arith,
              expire_each-Kept rest count s h (passed_over x),
              expire_each-Kept rest (count + 1) (after_resolved s rid r item expired reason none),
              resolved-IsReady s.working rid r rest item expired reason none x,
              write_resolved-IsConsistentAt k rid r r.inventory_item_id item s.working h e refl env
                  p expired reason none x.stored.0 x.live.0 refl,
            )
      ]

  module _ (group : ℕ) where
    after_committed :
        Session InventoryDb Unit
        → ℕ
        → InventoryReservation
        → InventoryItem
        → Session InventoryDb Unit
    after_committed s rid r item = record s {
      working =
          write_committed env p rid r (sold env r r.order_reference) r.inventory_item_id item
            "reservation_group" (some (by_id group)) s.working;
    }

    committed-IsReady :
        (s : Session InventoryDb Unit) (rid : ℕ) (r : InventoryReservation)
        (rest : Table InventoryReservation) (item : InventoryItem)
        → IsReady s.working ((rid, r) ∷ rest)
        → IsReady (after_committed s rid r item).working rest
    unfolding write_committed after_committed
    committed-IsReady s rid r rest item x = record {
      stored =
          put-Stored rid (sold env r r.order_reference) s.working.reservations rest x.distinct.0
            x.stored.1;
      distinct = x.distinct.1;
      live = x.live.1;
    }

    pub commit_members-Kept :
        (rows : Table InventoryReservation) (s : Session InventoryDb Unit)
        → IsConsistentAt k s.working
        → IsReady s.working rows
        → Kept k s (commit_members env p group rows s).1
    unfolding commit_members commit_one after_committed
    commit_members-Kept [] s h x = (h, refl)
    commit_members-Kept ((rid, r) ∷ rest) s h x =
        elim (Option-cases (get r.inventory_item_id s.working.items)) [
          | inl e ↦ ground arith
          | inr (item, e) ↦ ground (
            arith,
            commit_members-Kept rest (after_committed s rid r item),
            committed-IsReady s rid r rest item x,
            write_committed-IsConsistentAt k rid r r.inventory_item_id item s.working h e refl env p
                r.order_reference "reservation_group" (some (by_id group)) x.stored.0 x.live.0,
          )
        ]

-- ===== src/Inventory/Sweeps.antt =====
-- The requests that resolve many reservations at once keep the stock consistent.
use market_place_app.Prelude.{
  ℕ, String, ◌≡◌, true, Option, [], ◌∷◌, arith, All, all→All, All-sort_by, All-take,
}
use market_place_app.Prelude.Table.{Table, filter_rows}
use market_place_app.Prelude.Table.Rows.{
  IsOrdered, Distinct-of_IsOrdered, Distinct-sort_by, Distinct-take, filter_rows-IsOrdered,
  filter_rows-Stored, filter_rows-All,
}
use market_place_app.Prelude.Session.{Session, request}
use market_place_app.Prelude.Principal.{Principal}
use market_place_app.Inventory.Model.{
  is_active, MovementReason, InventoryReservation, InventoryDb, Surroundings, in_group,
  list_reservations_by_group, is_due,
}
use market_place_app.Inventory.Reservations.{list_expired_active, expire_reservations}
use market_place_app.Inventory.GroupEnds.{
  all_of, commit_live, commit_reservation_group, release_live, release_reservation_group,
}
use market_place_app.Inventory.Consistency.{IsConsistentAt}
use market_place_app.Inventory.Loops.{
  IsReady, release_members-Kept, expire_members-Kept, commit_members-Kept, expire_each-Kept,
}

group-IsReady :
    (group : ℕ) (d : InventoryDb)
    → IsOrdered d.reservations
    → all_of (λ r. is_active r.status) (list_reservations_by_group group d) ≡ true
    → IsReady d (list_reservations_by_group group d)
unfolding list_reservations_by_group
group-IsReady group d o live = record {
  stored = filter_rows-Stored (in_group group) d.reservations o;
  distinct = Distinct-of_IsOrdered _ (filter_rows-IsOrdered (in_group group) d.reservations o);
  live = all→All _ _ live;
}

due_live :
    (now : ℕ) (t : Table InventoryReservation)
    → All (λ e. is_due now (e.1) ≡ true) t
    → All (λ e. is_active (e.1).status ≡ true) t
unfolding is_due
due_live now [] h = tt
due_live now (e ∷ t) h = ground (arith, due_live now t h.1)

expired-IsReady :
    (now limit : ℕ) (d : InventoryDb)
    → IsOrdered d.reservations
    → IsReady d (list_expired_active now limit d)
unfolding list_expired_active
expired-IsReady now limit d o =
    let due = filter_rows (is_due now) d.reservations in
    let at = λ (e : ℕ × InventoryReservation). (e.1).expires_at in
    record {
      stored =
          All-take _ limit _
            (All-sort_by _ at due (filter_rows-Stored (is_due now) d.reservations o));
      distinct = Distinct-take limit _ (
          Distinct-sort_by at due
            (Distinct-of_IsOrdered due (filter_rows-IsOrdered (is_due now) d.reservations o)));
      live =
          All-take _ limit _
            (All-sort_by _ at due (due_live now due (filter_rows-All (is_due now) d.reservations)));
    }

module _ (k : ℕ) (env : Surroundings) (p : Principal) (d : InventoryDb)
    (h : IsConsistentAt k d) where
  abbrev fresh : Session InventoryDb Unit
  fresh = record { durable = d; working = d; world = tt }

  commit_live-Keeps :
      (group : ℕ) (members : Table InventoryReservation)
      → IsReady d members
      → IsConsistentAt k (request (commit_live env p group members) d tt).1
  unfolding commit_live
  commit_live-Keeps group members x = ground (
    arith,
    expire_members-Kept k env p members fresh h x,
    commit_members-Kept k env p group members fresh h x,
  )

  pub commit_reservation_group-Keeps :
      (group : ℕ) → IsConsistentAt k (request (commit_reservation_group env group p) d tt).1
  unfolding commit_reservation_group
  commit_reservation_group-Keeps group =
      let members = list_reservations_by_group group d in
      ground (arith, commit_live-Keeps group members, group-IsReady group d h.ordered)

  release_live-Keeps :
      (reason : MovementReason) (remark : Option String) (members : Table InventoryReservation)
      → IsReady d members
      → IsConsistentAt k (request (release_live env p reason remark members) d tt).1
  unfolding release_live
  release_live-Keeps reason remark members x =
      ground (arith, release_members-Kept k env p reason remark members fresh h x)

  pub release_reservation_group-Keeps :
      (group : ℕ) (reason : MovementReason) (remark : Option String)
      → IsConsistentAt k (request (release_reservation_group env group reason remark p) d tt).1
  unfolding release_reservation_group
  release_reservation_group-Keeps group reason remark =
      let members = list_reservations_by_group group d in
      ground (arith, release_live-Keeps reason remark members, group-IsReady group d h.ordered)

  pub expire_reservations-Keeps :
      (limit : ℕ) → IsConsistentAt k (request (expire_reservations env p limit) d tt).1
  unfolding expire_reservations
  expire_reservations-Keeps limit =
      let due = list_expired_active env.now limit d in
      ground
        (arith, expire_each-Kept k env p due 0 fresh h (expired-IsReady env.now limit d h.ordered))

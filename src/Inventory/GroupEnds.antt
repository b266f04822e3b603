-- ===== src/Inventory/GroupEnds.antt =====
-- services/inventory-service/app/services/inventory_service.py: commit_reservation_group and
-- release_reservation_group.
use market_place_app.Prelude.{
  ℕ, String, Bool, Option, none, some, [], ◌∷◌, not, any, all, if◌then◌else◌,
}
use market_place_app.Prelude.Table.{Table, get}
use market_place_app.Prelude.Session.{
  pure, query, or_raise, raise, ◌>>=◌, ◌>>◌, raise_if, commit, service_error,
}
use market_place_app.Prelude.Principal.{Principal}
use market_place_app.Inventory.Model.{
  released, expired, is_active, is_committed, is_released, InventoryReservation, MovementReason,
  by_id, reservation_group_not_active, reservation_group_not_found, reservation_forbidden,
  reservation_expired, inventory_item_missing, Handler, Surroundings, list_reservations_by_group,
}
use market_place_app.Inventory.Resolving.{resolve_reservation, commit_one}
use market_place_app.Inventory.Reservations.{is_expired, may_act}

-- `_locked_group`: the members, of which the first names the owner.
unfoldable pub locked_group : ℕ → Principal → Handler (Table InventoryReservation)
locked_group group principal = do
  members ← query (list_reservations_by_group group)
  elim members [
    | [] ↦ raise (service_error 404 reservation_group_not_found)
    | m ∷ ms ↦ do
      raise_if (not (may_act principal (m.1))) (service_error 403 reservation_forbidden)
      pure (m ∷ ms)
  ]

abbrev pub all_of : (InventoryReservation → Bool) → Table InventoryReservation → Bool
all_of p = all (λ e. p (e.1))

-- The loop over an expired group; a member whose item is gone is passed over.
unfoldable pub expire_members : Surroundings → Principal → Table InventoryReservation → Handler Unit
expire_members env principal [] = pure tt
expire_members env principal ((rid, r) ∷ rest) = do
  stocked ← query (λ db. get r.inventory_item_id db.items)
  elim stocked [
    | none ↦ pure tt
    | some item ↦
        resolve_reservation env principal rid r r.inventory_item_id item expired
          MovementReason.reservation_expired none
  ]
  expire_members env principal rest

unfoldable pub commit_members :
    Surroundings → Principal → ℕ → Table InventoryReservation → Handler Unit
commit_members env principal group [] = pure tt
commit_members env principal group ((rid, r) ∷ rest) = do
  stocked ← query (λ db. get r.inventory_item_id db.items)
  item ← or_raise stocked (service_error 409 inventory_item_missing)
  commit_one env principal rid r r.order_reference r.inventory_item_id item "reservation_group"
      (some (by_id group))
  commit_members env principal group rest

unfoldable pub release_members :
    Surroundings
    → Principal
    → MovementReason
    → Option String
    → Table InventoryReservation
    → Handler Unit
release_members env principal reason _ [] = pure tt
release_members env principal reason note ((rid, r) ∷ rest) = do
  stocked ← query (λ db. get r.inventory_item_id db.items)
  item ← or_raise stocked (service_error 409 inventory_item_missing)
  resolve_reservation env principal rid r r.inventory_item_id item released reason note
  release_members env principal reason note rest

-- `commit_reservation_group` once every member is active: an expired group is resolved, and that
-- is committed, before the error is raised.
unfoldable pub commit_live :
    Surroundings → Principal → ℕ → Table InventoryReservation → Handler Unit
commit_live env principal group members =
    if any (λ e. is_expired (e.1) env.now) members
    then (do
      expire_members env principal members
      commit
      raise (service_error 409 reservation_expired))
    else (do commit_members env principal group members; commit)

-- A group that was committed before is answered as it is.
unfoldable pub commit_reservation_group : Surroundings → ℕ → Principal → Handler Unit
unfolding locked_group
commit_reservation_group env group principal = do
  members ← locked_group group principal
  if all_of (λ r. is_committed r.status) members then pure tt else do
    raise_if (not (all_of (λ r. is_active r.status) members))
        (service_error 409 reservation_group_not_active)
    commit_live env principal group members

-- `release_reservation_group` once every member is active.
unfoldable pub release_live :
    Surroundings
    → Principal
    → MovementReason
    → Option String
    → Table InventoryReservation
    → Handler Unit
release_live env principal reason note members = do
  release_members env principal reason note members
  commit

-- A group that was released before is answered as it is.
unfoldable pub release_reservation_group :
    Surroundings → ℕ → MovementReason → Option String → Principal → Handler Unit
unfolding locked_group
release_reservation_group env group reason note principal = do
  members ← locked_group group principal
  if all_of (λ r. is_released r.status) members then pure tt else do
    raise_if (not (all_of (λ r. is_active r.status) members))
        (service_error 409 reservation_group_not_active)
    release_live env principal reason note members

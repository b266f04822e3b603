-- ===== src/Inventory/Writes.antt =====
-- services/inventory-service/app/services/inventory_service.py: the helpers by which the handlers
-- write. A reservation's change comes with the item's, their movement, audit records and event.
use market_place_app.Prelude.{
  ℕ, String, Option, none, some, [], ◌∷◌, ◌++◌, leb, not, str_eq, if◌then◌else◌,
}
use market_place_app.Prelude.Int.{ℤ}
use market_place_app.Prelude.Table.{put}
use market_place_app.Prelude.Session.{pure, query, ◌>>=◌, ◌>>◌, raise_if, service_error}
use market_place_app.Prelude.Principal.{Principal}
use market_place_app.Inventory.Model.{
  MovementType, MovementReason, InventoryItem, InventoryReservation, Snapshot, Reference,
  InventoryDb, IdempotencyRecord, available_quantity, idempotency_conflict, Handler, Surroundings,
  idempotency,
}

-- `_audit`
unfoldable pub audit :
    Surroundings → Principal → String → String → ℕ → Snapshot → Snapshot → InventoryDb → InventoryDb
audit env principal action resource_type resource_id before after db = record db {
  audits =
      db.audits
      ++ record {
        actor_id = principal.subject;
        action = action;
        resource_type = resource_type;
        resource_id = resource_id;
        before_data = before;
        after_data = after;
        request_id = env.request_id;
      }
        ∷ [];
}

-- `_event`
unfoldable pub event :
    Surroundings
    → String
    → ℕ
    → InventoryItem
    → Option (ℕ × InventoryReservation)
    → InventoryDb
    → InventoryDb
event env event_type item_id item reservation db = record db {
  outbox =
      db.outbox
      ++ record {
        aggregate_id = item_id;
        event_type = event_type;
        item = item;
        reservation = reservation;
        correlation_id = env.request_id;
      }
        ∷ [];
}

-- `_movement`
unfoldable pub movement :
    Surroundings
    → Principal
    → ℕ
    → InventoryItem
    → MovementType
    → MovementReason
    → ℤ
    → ℤ
    → Option String
    → Option Reference
    → Option String
    → InventoryDb
    → InventoryDb
movement env principal id item kind reason on_hand reserved reference_type reference_id note db =
    record db {
      movements =
          db.movements
          ++ record {
            inventory_item_id = id;
            movement_type = kind;
            reason = reason;
            on_hand_delta = on_hand;
            reserved_delta = reserved;
            resulting_on_hand = item.on_hand_quantity;
            resulting_reserved = item.reserved_quantity;
            reference_type = reference_type;
            reference_id = reference_id;
            actor_id = principal.subject;
            note = note;
            created_at = env.now;
          }
            ∷ [];
    }

unfoldable pub save_item : ℕ → InventoryItem → InventoryDb → InventoryDb
save_item id item db = record db { items = put id item db.items }

unfoldable pub save_reservation : ℕ → InventoryReservation → InventoryDb → InventoryDb
save_reservation id r db = record db { reservations = put id r db.reservations }

-- `_add_low_stock_event_if_needed`
unfoldable pub low_stock_event : Surroundings → ℕ → InventoryItem → InventoryDb → InventoryDb
unfolding event
low_stock_event env id item db =
    if leb (available_quantity item) item.low_stock_threshold
    then event env "inventory.stock.low.v1" id item none db
    else db

unfoldable pub remember : Surroundings → ℕ → Option String → String → ℕ → InventoryDb → InventoryDb
remember env actor none resource_type resource_id db = db
remember env actor (some key) resource_type resource_id db = record db {
  idempotency_records =
      db.idempotency_records
      ++ record {
        actor_id = actor;
        idempotency_key = key;
        request_hash = env.hash;
        resource_type = resource_type;
        resource_id = resource_id;
      }
        ∷ [];
}

-- `if idempotency_key:`, which an empty text fails.
abbrev pub given : Option String → Option String
given none = none
given (some key) = if str_eq key "" then none else some key

-- `_idempotency_lookup`
unfoldable pub idempotency_lookup :
    Surroundings → ℕ → Option String → Handler (Option IdempotencyRecord)
idempotency_lookup env actor none = pure none
idempotency_lookup env actor (some key) = do
  existing ← query (idempotency actor key)
  elim existing [
    | none ↦ pure none
    | some r ↦ do
      raise_if (not (str_eq r.request_hash env.hash)) (service_error 409 idempotency_conflict)
      pure (some r)
  ]

-- ===== src/Shipping/Service.antt =====
-- services/shipping-service/app/services/shipment_service.py. The row lock of `_owned_shipment` is
-- why a shipment does not change under a handler; only `create_shipment` holds no lock.
use market_place_app.Prelude.{
  ℕ, String, ◌+++◌, Bool, Option, none, some, [], ◌∷◌, ◌++◌, ◌+◌, ◌==◌, ◌||◌, not, str_eq, is_some,
  if◌then◌else◌,
}
use market_place_app.Prelude.Table.{get, put}
use market_place_app.Prelude.Session.{
  Tx, pure, query, or_raise, remote, ◌>>=◌, ◌>>◌, raise_if, modify, commit, interleave,
  service_error, integrity_error,
}
use market_place_app.Prelude.Principal.{Principal, has_role}
use market_place_app.Shipping.Model.{
  ShipmentStatus, is_pending, is_shipped, Shipment, ShippingDb, get_by_order,
  get_idempotency_record, ShipmentCreate, ShipmentShip, ShipmentDeliver, ShipmentException,
}
use market_place_app.Shipping.Clients.{
  idempotency_conflict, shipment_already_exists, shipment_not_pending, shipment_not_shipped,
  shipment_not_active, shipment_not_found, Error, Fulfillment, Peers, advance_fulfillment,
  service_token,
}

abbrev pub Handler : Type 0 → Type 0 → Type 0
Handler W A = Tx ShippingDb W Error A

-- New ids, the clock, the SHA-256 of the body, the id of the request, and what other requests
-- commit while `create_shipment` waits for the order service.
pub record Surroundings : Type 0 where
  pub new_id : ℕ
  pub now : ℕ
  pub hash : String
  pub request_id : Option String
  pub others : ShippingDb → ShippingDb

unfoldable pub save_shipment : ℕ → Shipment → ShippingDb → ShippingDb
save_shipment id x db = record db { shipments = put id x db.shipments }

unfoldable pub add_event : ℕ → String → String → ℕ → ShippingDb → ShippingDb
add_event id event_type description occurred_at db = record db {
  events =
      db.events
      ++ record {
        shipment_id = id;
        event_type = event_type;
        description = description;
        occurred_at = occurred_at;
      }
        ∷ [];
}

abbrev pub new_shipment : ShipmentCreate → Principal → Shipment
new_shipment body principal = record {
  order_id = body.order_id;
  seller_id = principal.subject;
  carrier = body.carrier;
  service_level = body.service_level;
  tracking_number = none;
  status = ShipmentStatus.pending;
  failure_reason = none;
  shipped_at = none;
  delivered_at = none;
  version = 1;
}

-- The rows of `create_shipment`.
unfoldable pub write_shipment :
    Surroundings → ShipmentCreate → Shipment → Principal → String → ShippingDb → ShippingDb
unfolding save_shipment add_event
write_shipment env body x principal key db =
    let db₁ =
      add_event env.new_id "created" ("Shipment booked with " +++ body.carrier) env.now
        (save_shipment env.new_id x db) in
    record db₁ {
      idempotency_records =
          db₁.idempotency_records
          ++ record {
            actor_id = principal.subject;
            idempotency_key = key;
            request_hash = env.hash;
            resource_type = "shipment";
            resource_id = env.new_id;
          }
            ∷ [];
    }

-- The keys, the orders and the keys of requests are unique.
unfoldable pub breaks_shipment :
    Surroundings → ShipmentCreate → Principal → String → ShippingDb → Bool
breaks_shipment env body principal key db =
    is_some (get env.new_id db.shipments)
    || is_some (get_by_order body.order_id db)
    || is_some (get_idempotency_record principal.subject key db)

-- `get_by_order` and `_owned_shipment`: a seller sees its own shipments, an admin all.
abbrev pub may_see : Principal → Shipment → Bool
may_see principal x = x.seller_id == principal.subject || has_role principal ("admin" ∷ [])

unfoldable pub owned_shipment : {W : Type 0} → ℕ → Principal → Handler W Shipment
owned_shipment id principal = do
  found ← query (λ db. get id db.shipments)
  x ← or_raise found (service_error 404 shipment_not_found)
  raise_if (not (may_see principal x)) (service_error 404 shipment_not_found)
  pure x

abbrev pub or_now : Option ℕ → ℕ → ℕ
or_now none now = now
or_now (some at) now = at

abbrev pub or_kept : Option String → String → String
or_kept none old = old
or_kept (some new) old = if str_eq new "" then old else new

abbrev pub shipped : Shipment → ShipmentShip → ℕ → Shipment
shipped x body at = record x {
  tracking_number = some body.tracking_number;
  carrier = or_kept body.carrier x.carrier;
  status = ShipmentStatus.shipped;
  shipped_at = some at;
  version = x.version + 1;
}

abbrev pub delivered : Shipment → ℕ → Shipment
delivered x at = record x {
  status = ShipmentStatus.delivered;
  delivered_at = some at;
  version = x.version + 1;
}

abbrev pub lost : Shipment → String → Shipment
lost x reason = record x {
  status = ShipmentStatus.failed;
  failure_reason = some reason;
  version = x.version + 1;
}

-- `record_exception` calls no other service.
unfoldable pub record_exception :
    {W : Type 0} → Surroundings → ℕ → ShipmentException → Principal → Handler W Shipment
unfolding owned_shipment save_shipment add_event
record_exception env id body principal = do
  x ← owned_shipment id principal
  raise_if (not (is_pending x.status || is_shipped x.status))
      (service_error 409 shipment_not_active)
  let x' = lost x body.reason
  modify (save_shipment id x')
  modify (add_event id "exception" body.reason (or_now body.occurred_at env.now))
  commit
  pure x'

-- `create_shipment` once the order is in processing.
unfoldable pub booked :
    {W : Type 0} → Surroundings → ShipmentCreate → Principal → String → Handler W (ℕ × Shipment)
booked env body principal key = do
  interleave env.others
  let x = new_shipment body principal
  broken ← query (breaks_shipment env body principal key)
  raise_if broken integrity_error
  modify (write_shipment env body x principal key)
  commit
  pure (env.new_id, x)

-- `ship` once the order is shipped.
unfoldable pub handed_over :
    {W : Type 0} → Surroundings → ℕ → Shipment → ShipmentShip → Handler W Shipment
unfolding save_shipment add_event
handed_over env id x body = do
  let at = or_now body.occurred_at env.now
  let x' = shipped x body at
  modify (save_shipment id x')
  modify (
      add_event id "shipped"
        ("Picked up by " +++ (x'.carrier +++ (", tracking " +++ body.tracking_number))) at)
  commit
  pure x'

-- `deliver` once the order is delivered.
unfoldable pub arrived :
    {W : Type 0} → Surroundings → ℕ → Shipment → ShipmentDeliver → Handler W Shipment
unfolding save_shipment add_event
arrived env id x body = do
  let at = or_now body.occurred_at env.now
  let x' = delivered x at
  modify (save_shipment id x')
  modify (add_event id "delivered" "Delivered" at)
  commit
  pure x'

module _ {W : Type 0} (peers : Peers W) where
  -- The token and the callback.
  unfoldable pub advance : Surroundings → ℕ → Fulfillment → Handler W Unit
  advance env order body = do
    token ← remote (service_token peers)
    remote (advance_fulfillment peers order body token env.request_id)

  -- `create_shipment` from the callback on.
  unfoldable pub book :
      Surroundings → ShipmentCreate → Principal → String → Handler W (ℕ × Shipment)
  book env body principal key = do
    advance env body.order_id
        (record { status = "processing"; shipment_reference = none; occurred_at = none })
    booked env body principal key

  -- `create_shipment`, where the key is not a replay.
  unfoldable pub open_shipment :
      Surroundings → ShipmentCreate → Principal → String → Handler W (ℕ × Shipment)
  open_shipment env body principal key = do
    existing ← query (get_by_order body.order_id)
    raise_if (is_some existing) (service_error 409 shipment_already_exists)
    book env body principal key

  unfoldable pub create_shipment :
      Surroundings → ShipmentCreate → Principal → String → Handler W (ℕ × Shipment)
  create_shipment env body principal key = do
    existing ← query (get_idempotency_record principal.subject key)
    elim existing [
      | none ↦ open_shipment env body principal key
      | some seen ↦ do
        raise_if (not (str_eq seen.request_hash env.hash)) (service_error 409 idempotency_conflict)
        found ← query (λ db. get seen.resource_id db.shipments)
        elim found [
          | none ↦ open_shipment env body principal key
          | some x ↦ pure (seen.resource_id, x)
        ]
    ]

  -- `ship`, once the shipment is known to be pending.
  unfoldable pub hand_over : Surroundings → ℕ → Shipment → ShipmentShip → Handler W Shipment
  hand_over env id x body = do
    advance env x.order_id (record {
      status = "shipped";
      shipment_reference = some body.tracking_number;
      occurred_at = body.occurred_at;
    })
    handed_over env id x body

  unfoldable pub ship : Surroundings → ℕ → ShipmentShip → Principal → Handler W Shipment
  unfolding owned_shipment
  ship env id body principal = do
    x ← owned_shipment id principal
    raise_if (not (is_pending x.status)) (service_error 409 shipment_not_pending)
    hand_over env id x body

  -- `deliver`, once the shipment is known to be on its way.
  unfoldable pub arrive : Surroundings → ℕ → Shipment → ShipmentDeliver → Handler W Shipment
  arrive env id x body = do
    advance env x.order_id
        (record { status = "delivered"; shipment_reference = none; occurred_at = body.occurred_at })
    arrived env id x body

  unfoldable pub deliver : Surroundings → ℕ → ShipmentDeliver → Principal → Handler W Shipment
  unfolding owned_shipment
  deliver env id body principal = do
    x ← owned_shipment id principal
    raise_if (not (is_shipped x.status)) (service_error 409 shipment_not_shipped)
    arrive env id x body

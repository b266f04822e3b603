-- ===== src/Shipping/Model.antt =====
-- services/shipping-service/app/models, the queries of repositories/shipment_repository.py and the
-- bodies of schemas/shipment.py.
use market_place_app.Prelude.{ℕ, String, Bool, true, false, Option, List, ◌==◌, ◌&&◌, str_eq, find}
use market_place_app.Prelude.Table.{Table, find_row}

pub data ShipmentStatus : Type 0 where
  pending shipped delivered failed : ShipmentStatus

abbrev pub is_pending : ShipmentStatus → Bool
is_pending ShipmentStatus.pending = true
is_pending _ = false

abbrev pub is_shipped : ShipmentStatus → Bool
is_shipped ShipmentStatus.shipped = true
is_shipped _ = false

pub record Shipment : Type 0 where
  pub order_id : ℕ
  pub seller_id : ℕ
  pub carrier : String
  pub service_level : Option String
  pub tracking_number : Option String
  pub status : ShipmentStatus
  pub failure_reason : Option String
  pub shipped_at : Option ℕ
  pub delivered_at : Option ℕ
  pub version : ℕ

pub record ShipmentEvent : Type 0 where
  pub shipment_id : ℕ
  pub event_type : String
  pub description : String
  pub occurred_at : ℕ

pub record IdempotencyRecord : Type 0 where
  pub actor_id : ℕ
  pub idempotency_key : String
  pub request_hash : String
  pub resource_type : String
  pub resource_id : ℕ

pub record ShippingDb : Type 0 where
  pub shipments : Table Shipment
  pub events : List ShipmentEvent
  pub idempotency_records : List IdempotencyRecord

unfoldable pub get_by_order : ℕ → ShippingDb → Option (ℕ × Shipment)
get_by_order order db = find_row (λ x. x.order_id == order) db.shipments

unfoldable pub get_idempotency_record : ℕ → String → ShippingDb → Option IdempotencyRecord
get_idempotency_record actor key db =
    find (λ r. r.actor_id == actor && str_eq r.idempotency_key key) db.idempotency_records

pub record ShipmentCreate : Type 0 where
  pub order_id : ℕ
  pub carrier : String
  pub service_level : Option String

pub record ShipmentShip : Type 0 where
  pub tracking_number : String
  pub carrier : Option String
  pub occurred_at : Option ℕ

pub record ShipmentDeliver : Type 0 where
  pub occurred_at : Option ℕ

pub record ShipmentException : Type 0 where
  pub reason : String
  pub occurred_at : Option ℕ

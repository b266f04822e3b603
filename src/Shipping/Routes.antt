-- ===== src/Shipping/Routes.antt =====
-- services/shipping-service/app/routes/shipments.py: the requests that change a shipment, with the
-- roles that they need.
use market_place_app.Prelude.{ℕ, String, [], ◌∷◌, not}
use market_place_app.Prelude.Session.{◌>>◌, raise_if, pure, service_error}
use market_place_app.Prelude.Principal.{Principal, has_role}
use market_place_app.Shipping.Model.{
  ShipmentCreate, ShipmentShip, ShipmentDeliver, ShipmentException,
}
use market_place_app.Shipping.Clients.{Peers, forbidden}
use market_place_app.Shipping.Service.{
  Handler, Surroundings, create_shipment, ship, deliver, record_exception,
}

pub data Request : Type 0 where
  create : ShipmentCreate → String → Request
  ship_it : ℕ → ShipmentShip → Request
  deliver_it : ℕ → ShipmentDeliver → Request
  report_exception : ℕ → ShipmentException → Request

module _ {W : Type 0} (peers : Peers W) where
  unfoldable pub respond : Surroundings → Principal → Request → Handler W Unit
  respond env p (create body key) = do create_shipment peers env body p key; pure tt
  respond env p (ship_it id body) = do ship peers env id body p; pure tt
  respond env p (deliver_it id body) = do deliver peers env id body p; pure tt
  respond env p (report_exception id body) = do record_exception env id body p; pure tt

  -- `require_roles("seller", "admin")`
  unfoldable pub serve : Surroundings → Principal → Request → Handler W Unit
  serve env p r = do
    raise_if (not (has_role p ("seller" ∷ "admin" ∷ []))) (service_error 403 forbidden)
    respond env p r

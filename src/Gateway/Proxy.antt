-- ===== src/Gateway/Proxy.antt =====
-- services/api-gateway/app/services/proxy_service.py and routes/proxy.py. The HTTP client and
-- the check of a token are parameters; so is `clean`, the path that httpx makes of the URL's text:
-- it removes dot segments.
use market_place_app.Prelude.{
  ℕ, zero, suc, String, Bool, true, Option, none, some, List, [], ◌∷◌, if◌then◌else◌,
}
use market_place_app.Prelude.Session.{Result, ok, err}
use market_place_app.Gateway.Breaker.{CircuitBreaker, is_open, record_success, record_failure}
use market_place_app.Gateway.Routing.{
  Upstream, auth_service_url, user_service_url, product_service_url, inventory_service_url,
  cart_service_url, order_service_url, payment_service_url, shipping_service_url,
  assistant_service_url, Route, codes, starts_with, resolve,
}
use market_place_app.Gateway.Headers.{Headers, lower, set_header, end_to_end, get_header}

pub data Code : Type 0 where
  circuit_open : Code
  upstream_timeout : Code
  upstream_unavailable : Code
  not_found : Code
  invalid_token : Code

pub record ServiceError : Type 0 where
  pub status_code : ℕ
  pub code : Code

pub record Request : Type 0 where
  pub method : String
  pub path : List ℕ
  pub query : String
  pub headers : Headers
  pub body : List ℕ
  -- `request.state.request_id`
  pub request_id : String
  -- `request.client.host`
  pub client_host : Option String

-- What the HTTP client is asked to send.
pub record Outgoing : Type 0 where
  pub method : String
  pub upstream : Upstream
  pub path : List ℕ
  pub query : String
  pub headers : Headers
  pub body : List ℕ

pub record Response : Type 0 where
  pub status_code : ℕ
  pub headers : Headers
  pub content : List ℕ

-- What `httpx` answers or raises.
pub data Reply : Type 0 where
  replied : Response → Reply
  timeout_exception : Reply
  connect_error : Reply
  transport_error : Reply

-- `getattr(settings, ...)` takes the name of the setting, which is the key of the breaker.
abbrev pub service_key : Upstream → String
service_key auth_service_url = "auth_service_url"
service_key user_service_url = "user_service_url"
service_key product_service_url = "product_service_url"
service_key inventory_service_url = "inventory_service_url"
service_key cart_service_url = "cart_service_url"
service_key order_service_url = "order_service_url"
service_key payment_service_url = "payment_service_url"
service_key shipping_service_url = "shipping_service_url"
service_key assistant_service_url = "assistant_service_url"

abbrev with_host : Option String → Headers → Headers
with_host none hs = hs
with_host (some host) hs = set_header (codes "X-Forwarded-For") host hs

unfoldable pub sent_headers : Request → Headers
sent_headers r =
    with_host r.client_host (set_header (codes "X-Request-ID") r.request_id (end_to_end r.headers))

abbrev pub outgoing : (List ℕ → List ℕ) → Request → Upstream → Outgoing
outgoing clean r upstream = record {
  method = r.method;
  upstream = upstream;
  path = clean r.path;
  query = r.query;
  headers = sent_headers r;
  body = r.body;
}

abbrev pub returned : Response → Response
returned response = record response { headers = end_to_end response.headers }

-- The answer to the caller, and the breaker, from what the client brought.
abbrev pub answered :
    ℕ → String → Reply → CircuitBreaker → Result ServiceError Response × CircuitBreaker
answered now key (replied response) b = (ok (returned response), record_success key b)
answered now key timeout_exception b =
    (err (record { status_code = 504; code = upstream_timeout }), record_failure now key b)
answered now key connect_error b =
    (err (record { status_code = 502; code = upstream_unavailable }), record_failure now key b)
answered now key transport_error b =
    (err (record { status_code = 502; code = upstream_unavailable }), record_failure now key b)

abbrev drop : ℕ → List ℕ → List ℕ
drop zero text = text
drop (suc n) [] = []
drop (suc n) (c ∷ text) = drop n text

-- `authorization[len(BEARER_PREFIX):]`
abbrev after_bearer : List ℕ → List ℕ
after_bearer text = drop 7 text

-- `authorization.lower().startswith("bearer ")`, and the token behind it
abbrev pub bearer : Option String → Option (List ℕ)
bearer none = none
bearer (some authorization) =
    if starts_with (codes "bearer ") (lower (codes authorization))
    then some (after_bearer (codes authorization))
    else none

abbrev pub is_valid : (List ℕ → Bool) → Option (List ℕ) → Bool
is_valid verify none = true
is_valid verify (some token) = verify token

module _ {ℓ} {W : Type ℓ} (clean : List ℕ → List ℕ) (exchange : Outgoing → W → Reply × ℕ × W) where
  -- The client sends at most once. It also brings the time at which the reply is there.
  unfoldable pub forward :
      ℕ
      → Request
      → Upstream
      → CircuitBreaker
      → W
      → Result ServiceError Response × CircuitBreaker × W
  forward now r upstream b w =
      if is_open now (service_key upstream) b
      then (err (record { status_code = 503; code = circuit_open }), b, w)
      else (let (reply, at, w') = exchange (outgoing clean r upstream) w in
          let (answer, b') = answered at (service_key upstream) reply b in (answer, b', w'))

  unfoldable pub proxied :
      (List ℕ → Bool)
      → ℕ
      → Request
      → CircuitBreaker
      → W
      → Option Route
      → Result ServiceError Response × CircuitBreaker × W
  unfolding forward
  proxied verify now r b w none = (err (record { status_code = 404; code = not_found }), b, w)
  proxied verify now r b w (some route) =
      if is_valid verify (bearer (get_header (codes "authorization") r.headers))
      then forward now r route.upstream_setting b w
      else (err (record { status_code = 401; code = invalid_token }), b, w)

  unfoldable pub proxy :
      (List ℕ → Bool)
      → ℕ
      → Request
      → CircuitBreaker
      → W
      → Result ServiceError Response × CircuitBreaker × W
  unfolding proxied
  proxy verify now r b w = proxied verify now r b w (resolve r.path)

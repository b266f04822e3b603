-- ===== src/Gateway/Routing.antt =====
-- services/api-gateway/app/services/routing.py: the allowlist of paths. A path is the list of its
-- code points.
use Prim.Native.Char.{code}
use market_place_app.Prelude.{
  ℕ, String, Bool, true, false, Option, none, some, List, [], ◌∷◌, ◌++◌, ◌&&◌, ◌||◌, leb, not,
  length, if◌then◌else◌,
}

-- The service whose base URL the settings hold.
pub data Upstream : Type 0 where
  auth_service_url : Upstream
  user_service_url : Upstream
  product_service_url : Upstream
  inventory_service_url : Upstream
  cart_service_url : Upstream
  order_service_url : Upstream
  payment_service_url : Upstream
  shipping_service_url : Upstream
  assistant_service_url : Upstream

pub record Route : Type 0 where
  pub prefix : List ℕ
  pub upstream_setting : Upstream

abbrev pub codes : String → List ℕ
codes String.[] = []
codes (String.◌∷◌ c s) = code c ∷ codes s

abbrev pub route : String → Upstream → Route
route path setting = record { prefix = codes path; upstream_setting = setting }

abbrev pub allowlist : List Route
allowlist =
    route "/.well-known/jwks.json" auth_service_url
    ∷ route "/api/v1/auth/register" auth_service_url
    ∷ route "/api/v1/auth/verify-email" auth_service_url
    ∷ route "/api/v1/auth/resend-verification" auth_service_url
    ∷ route "/api/v1/auth/login" auth_service_url
    ∷ route "/api/v1/auth/token" auth_service_url
    ∷ route "/api/v1/auth/refresh" auth_service_url
    ∷ route "/api/v1/auth/logout" auth_service_url
    ∷ route "/api/v1/auth/forgot-password" auth_service_url
    ∷ route "/api/v1/auth/reset-password" auth_service_url
    ∷ route "/api/v1/auth/change-password" auth_service_url
    ∷ route "/api/v1/auth/sessions" auth_service_url
    ∷ route "/api/v1/users/me" auth_service_url
    ∷ route "/api/v1/me" user_service_url
    ∷ route "/api/v1/sellers" user_service_url
    ∷ route "/api/v1/categories" product_service_url
    ∷ route "/api/v1/admin/categories" product_service_url
    ∷ route "/api/v1/products" product_service_url
    ∷ route "/api/v1/seller/products" product_service_url
    ∷ route "/api/v1/availability" inventory_service_url
    ∷ route "/api/v1/admin/warehouses" inventory_service_url
    ∷ route "/api/v1/seller/inventory" inventory_service_url
    ∷ route "/api/v1/reservations" inventory_service_url
    ∷ route "/api/v1/guest-carts" cart_service_url
    ∷ route "/api/v1/cart" cart_service_url
    ∷ route "/api/v1/orders" order_service_url
    ∷ route "/api/v1/payments" payment_service_url
    ∷ route "/api/v1/webhooks/stripe" payment_service_url
    ∷ route "/api/v1/shipments" shipping_service_url
    ∷ route "/api/v1/assistant" assistant_service_url
    ∷ []

abbrev pub nat_eq : ℕ → ℕ → Bool
nat_eq m n = leb m n && leb n m

-- `path.startswith(prefix)`
unfoldable pub starts_with : List ℕ → List ℕ → Bool
starts_with [] path = true
starts_with (c ∷ cs) [] = false
starts_with (c ∷ cs) (d ∷ ds) = nat_eq c d && starts_with cs ds

-- `path == prefix`
unfoldable pub same_text : List ℕ → List ℕ → Bool
same_text [] [] = true
same_text [] (d ∷ ds) = false
same_text (c ∷ cs) [] = false
same_text (c ∷ cs) (d ∷ ds) = nat_eq c d && same_text cs ds

abbrev pub matches : List ℕ → Route → Bool
matches path r = same_text r.prefix path || starts_with (r.prefix ++ b'/' ∷ []) path

-- `match is None or len(route.prefix) > len(match.prefix)`
abbrev pub is_longer : Route → Option Route → Bool
is_longer r none = true
is_longer r (some best) = not (leb (length r.prefix) (length best.prefix))

-- One turn of the loop over the routes, with the match so far.
unfoldable pub better : List ℕ → Route → Option Route → Option Route
better path r best = if matches path r && is_longer r best then some r else best

unfoldable pub resolve_in : List Route → List ℕ → Option Route → Option Route
resolve_in [] path best = best
resolve_in (r ∷ rs) path best = resolve_in rs path (better path r best)

unfoldable pub resolve : List ℕ → Option Route
unfolding resolve_in better
resolve path = resolve_in allowlist path none

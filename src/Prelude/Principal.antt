-- ===== src/Prelude/Principal.antt =====
-- `Principal` of services/*/app/dependencies/auth.py and services/order-service/app/auth.py: the
-- caller of a request, read from a verified token.
use Prim.Native.Nat.{ℕ}
use Prim.Native.String.{String}
use mathlib.Core.Bool.{Bool}
use mathlib.Core.List.{List}
use text.Mathlib.Text.{◌==◌}
use market_place_app.Prelude.Lists.{any}

pub record Principal : Type 0 where
  pub subject : ℕ
  pub roles : List String
  pub scopes : List String

-- `has_role(*roles)`: the sets of roles meet.
unfoldable pub has_role : Principal → List String → Bool
has_role p wanted = any (λ r. any (λ w. w == r) wanted) p.roles

-- `scope in principal.scopes`
unfoldable pub has_scope : Principal → String → Bool
has_scope p scope = any (λ x. x == scope) p.scopes

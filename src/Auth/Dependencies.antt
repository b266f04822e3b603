-- ===== src/Auth/Dependencies.antt =====
-- services/auth-service/app/dependencies.py: the user of an access token.
use market_place_app.Prelude.{ℕ, String, str_eq, not}
use market_place_app.Prelude.Table.{get}
use market_place_app.Prelude.Session.{pure, query, or_raise, ◌>>=◌, ◌>>◌, raise_if}
use market_place_app.Auth.Model.{User, value}
use market_place_app.Auth.Environment.{
  Auth, Incoming, Handler, http, truthy, invalid_token, account_inactive, email_not_verified,
  administrator_required,
}

unfoldable pub get_current_user : {W : Type 0} → Auth W → Incoming → String → Handler W (ℕ × User)
get_current_user a r token = do
  payload ← or_raise (a.decode_access r.now token) (http 401 invalid_token)
  subject ← or_raise (truthy payload.sub) (http 401 invalid_token)
  kind ← or_raise payload.token_type (http 401 invalid_token)
  raise_if (not (str_eq kind "access")) (http 401 invalid_token)
  user_id ← or_raise (a.uuid subject) (http 401 invalid_token)
  found ← query (λ db. get user_id db.users)
  user ← or_raise found (http 401 invalid_token)
  raise_if (not user.is_active) (http 403 account_inactive)
  pure (user_id, user)

-- `require_admin`, with `get_current_verified_user`
unfoldable pub require_admin : {W : Type 0} → Auth W → Incoming → String → Handler W (ℕ × User)
unfolding get_current_user
require_admin a r token = do
  current ← get_current_user a r token
  raise_if (not current.1.is_email_verified) (http 403 email_not_verified)
  raise_if (not (str_eq (value current.1.role) "ADMIN")) (http 403 administrator_required)
  pure current

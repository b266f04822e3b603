-- ===== src/Auth/Environment.antt =====
-- What the handlers of services/auth-service/app use: its settings (config.py), the request and its
-- audit event (audit.py), the tokens of routes.py and the notification client. passlib's bcrypt,
-- SHA-256, python-jose, the reading of a UUID and the notification service are a parameter.
use market_place_app.Prelude.{
  ℕ, String, Bool, false, Option, none, some, List, [], ◌∷◌, ◌+◌, ◌*◌, any, str_eq, if◌then◌else◌,
  ◌+++◌, is_some, ◌||◌,
}
use market_place_app.Prelude.Table.{get, find_row}
use market_place_app.Prelude.Session.{Tx, or_raise, Failure, service_error}
use market_place_app.Auth.Texts.{strip, lower, before_comma, first_letters}
use market_place_app.Auth.Model.{
  User, RefreshToken, Detail, AuditEvent, AuthDb, value, has_token_id, add_event,
}

pub record ServiceClient : Type 0 where
  pub client_id : String
  pub client_secret : String
  pub subject : String

pub record Settings : Type 0 where
  pub app_env : String
  pub jwt_issuer : String
  pub jwt_audience : String
  pub access_token_expire_minutes : ℕ
  pub refresh_token_expire_days : ℕ
  pub email_verification_expire_minutes : ℕ
  pub password_reset_expire_minutes : ℕ
  pub max_failed_login_attempts : ℕ
  pub account_lock_minutes : ℕ
  pub service_token_expire_minutes : ℕ
  pub inventory_sync : ServiceClient
  pub payment_service : ServiceClient
  pub order_service : ServiceClient
  pub shipping_service : ServiceClient
  pub inventory_expire : ServiceClient

-- The claims that the handlers read of a token whose signature and time are good.
pub record Claims : Type 0 where
  pub sub : Option String
  pub jti : Option String
  pub token_type : Option String

-- The payloads that are signed.
pub record AccessClaims : Type 0 where
  pub sub : ℕ
  pub email : String
  pub role : String
  pub roles : List String
  pub token_type : String
  pub iss : String
  pub aud : String
  pub iat : ℕ
  pub exp : ℕ

pub record RefreshClaims : Type 0 where
  pub sub : ℕ
  pub jti : String
  pub token_type : String
  pub iat : ℕ
  pub exp : ℕ

pub record ServiceClaims : Type 0 where
  pub sub : String
  pub scope : String
  pub token_type : String
  pub iss : String
  pub aud : String
  pub iat : ℕ
  pub exp : ℕ

-- The body of a message to the notification service, with the user that it is about.
pub data Notification : Type 0 where
  verification : String → String → String → String → ℕ → ℕ → Notification
  password_reset : String → String → String → String → ℕ → ℕ → Notification
  password_changed : String → String → String → ℕ → Option String → ℕ → Notification

-- The settings, and the code that is not of this repository: `hash` takes a salt, `verify` answers
-- `none` for a TypeError or a ValueError, the decoders answer `none` for a JWTError at that time.
pub record Auth (W : Type 0) : Type 0 where
  pub settings : Settings
  pub hash : String → String → String
  pub verify : String → String → Option Bool
  pub sha256 : String → String
  pub encode_access : AccessClaims → String
  pub encode_refresh : RefreshClaims → String
  pub encode_service : ServiceClaims → String
  pub decode_access : ℕ → String → Option Claims
  pub decode_refresh : ℕ → String → Option Claims
  pub uuid : String → Option ℕ
  pub send : Notification → W → W

-- A request, its time, the ids and random texts that are drawn for it.
pub record Incoming : Type 0 where
  pub x_forwarded_for : Option String
  pub x_real_ip : Option String
  pub client_host : Option String
  pub user_agent_header : Option String
  pub now : ℕ
  pub new_id : ℕ
  pub new_token_id : ℕ
  pub secret : String
  pub salt : String

-- The detail of an HTTPException.
pub data Reason : Type 0 where
  administrator_accounts_cannot_be_registered account_already_exists : Reason
  invalid_token token_already_used token_expired user_not_found user_unavailable : Reason
  invalid_credentials account_locked account_inactive email_not_verified : Reason
  invalid_client refresh_token_required invalid_refresh_token session_not_found : Reason
  token_revoked same_password wrong_current_password administrator_required : Reason

abbrev pub Error : Type 0
Error = Failure Reason

abbrev pub Handler : Type 0 → Type 0 → Type 0
Handler W A = Tx AuthDb W Error A

abbrev pub http : ℕ → Reason → Error
http status reason = service_error status reason

-- The truth of an optional text.
abbrev pub truthy : Option String → Option String
truthy none = none
truthy (some t) = if str_eq t "" then none else some t

abbrev pub minutes : ℕ → ℕ
minutes n = n * 60

abbrev pub days : ℕ → ℕ
days n = n * 86400

unfoldable pub get_client_ip : Incoming → Option String
get_client_ip r = elim (truthy r.x_forwarded_for) [
  | some forwarded_for ↦ some (strip (before_comma forwarded_for))
  | none ↦ elim (truthy r.x_real_ip) [ some real_ip ↦ some (strip real_ip) | none ↦ r.client_host ]
]

unfoldable pub get_user_agent : Incoming → Option String
get_user_agent r = elim (truthy r.user_agent_header) [
  | none ↦ none
  | some agent ↦ some (first_letters 500 agent)
]

abbrev pub Details : Type 0
Details = List (String × Detail)

-- The row of `create_audit_event`.
unfoldable pub audit_event : Incoming → Option ℕ → String → Details → AuditEvent
unfolding get_client_ip get_user_agent
audit_event r user kind details = record {
  user_id = user;
  event_type = kind;
  ip_address = get_client_ip r;
  user_agent = get_user_agent r;
  details = details;
}

unfoldable pub create_audit_event : Incoming → Option ℕ → String → Details → AuthDb → AuthDb
unfolding audit_event
create_audit_event r user kind details db = add_event (audit_event r user kind details) db

abbrev pub full_name : User → String
full_name u = strip (u.first_name +++ (" " +++ u.last_name))

module _ {W : Type 0} (a : Auth W) where
  unfoldable pub verify_password : String → String → Bool
  verify_password plain digest = elim (a.verify plain digest) [ none ↦ false | some b ↦ b ]

  unfoldable pub create_access_token : ℕ → User → ℕ → String
  create_access_token id u now = a.encode_access (record {
    sub = id;
    email = u.email;
    role = value u.role;
    roles = lower (value u.role) ∷ [];
    token_type = "access";
    iss = a.settings.jwt_issuer;
    aud = a.settings.jwt_audience;
    iat = now;
    exp = now + minutes a.settings.access_token_expire_minutes;
  })

  unfoldable pub create_refresh_token : ℕ → String → ℕ → String
  create_refresh_token user token_id now = a.encode_refresh (record {
    sub = user;
    jti = token_id;
    token_type = "refresh";
    iat = now;
    exp = now + days a.settings.refresh_token_expire_days;
  })

  unfoldable pub decode_jwt_token : Incoming → String → Handler W Claims
  decode_jwt_token r token = or_raise (a.decode_refresh r.now token) (http 401 invalid_token)

  -- Whether raw tokens are answered, outside production.
  unfoldable pub expose_development_token : String → Option String
  expose_development_token token =
      let env = lower a.settings.app_env in
      if any (str_eq env) ("development" ∷ "dev" ∷ "test" ∷ "testing" ∷ "local" ∷ [])
      then some token
      else none

  -- The row of `create_refresh_session`.
  unfoldable pub new_session : Incoming → ℕ → RefreshToken
  unfolding get_client_ip get_user_agent
  new_session r user = record {
    user_id = user;
    token_id = r.secret;
    user_agent = get_user_agent r;
    ip_address = get_client_ip r;
    expires_at = r.now + days a.settings.refresh_token_expire_days;
    revoked_at = none;
  }

-- The keys that a new session can violate.
unfoldable pub breaks_session : Incoming → AuthDb → Bool
breaks_session r db =
    is_some (get r.new_token_id db.refresh_tokens)
    || is_some (find_row (has_token_id r.secret) db.refresh_tokens)

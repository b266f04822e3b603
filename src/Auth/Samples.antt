-- ===== src/Auth/Samples.antt =====
-- Concrete data of services/auth-service: settings, libraries, an account with a session and mailed
-- tokens, and requests.
use market_place_app.Prelude.{
  ℕ, String, true, none, some, List, [], ◌∷◌, ◌+++◌, str_eq, if◌then◌else◌, suc,
}
use market_place_app.Auth.Model.{UserRole, User, VerificationToken, RefreshToken, AuthDb}
use market_place_app.Auth.Environment.{ServiceClient, Settings, Claims, Auth, Incoming}
use market_place_app.Auth.Runs.{Call, registering, refreshing, forgotten, revoking}
use market_place_app.Auth.Laws.{IsOrderedDb}

abbrev client : String → ServiceClient
client name = record { client_id = name; client_secret = "secret"; subject = name }

abbrev settings : Settings
settings = record {
  app_env = "test";
  jwt_issuer = "market";
  jwt_audience = "market";
  access_token_expire_minutes = 15;
  refresh_token_expire_days = 7;
  email_verification_expire_minutes = 30;
  password_reset_expire_minutes = 30;
  max_failed_login_attempts = 2;
  account_lock_minutes = 15;
  service_token_expire_minutes = 15;
  inventory_sync = client "inventory-sync";
  payment_service = client "payment";
  order_service = client "order";
  shipping_service = client "shipping";
  inventory_expire = client "inventory-expire";
}

abbrev pub claims : String → Claims
claims kind = record { sub = some "1"; jti = some "session"; token_type = some kind }

-- The outer world counts the emails.
abbrev pub auth : Auth ℕ
auth = record {
  settings = settings;
  hash = λ salt password. "hashed " +++ password;
  verify = λ password digest. some (str_eq digest ("hashed " +++ password));
  sha256 = λ token. token;
  encode_access = λ c. "access";
  encode_refresh = λ c. "refresh";
  encode_service = λ c. "service";
  decode_access = λ now token. if str_eq token "access" then some (claims "access") else none;
  decode_refresh = λ now token. if str_eq token "refresh" then some (claims "refresh") else none;
  uuid = λ text. if str_eq text "1" then some 1 else none;
  send = λ n w. suc w;
}

abbrev pub at : ℕ → ℕ → String → Incoming
at now id secret = record {
  x_forwarded_for = some " 203.0.113.10, 10.0.0.5";
  x_real_ip = none;
  client_host = some "10.0.0.1";
  user_agent_header = some "browser";
  now = now;
  new_id = id;
  new_token_id = id;
  secret = secret;
  salt = "salt";
}

abbrev pub ann : User
ann = record {
  email = "ann@example.com";
  first_name = "Ann";
  last_name = "Lee";
  password_hash = "hashed old-password";
  role = UserRole.buyer;
  is_active = true;
  is_email_verified = true;
  failed_login_attempts = 0;
  locked_until = none;
  last_login_at = none;
}

abbrev pub mailed : String → VerificationToken
mailed digest = record { user_id = 1; token_hash = digest; expires_at = 1000; used_at = none }

abbrev pub session : RefreshToken
session = record {
  user_id = 1;
  token_id = "session";
  user_agent = none;
  ip_address = none;
  expires_at = 1000;
  revoked_at = none;
}

abbrev pub db : AuthDb
db = record {
  users = (1, ann) ∷ [];
  verification_tokens = (1, mailed "verify") ∷ [];
  reset_tokens = (1, mailed "reset") ∷ [];
  refresh_tokens = (1, session) ∷ [];
  audit_events = [];
}

pub db-IsOrderedDb : IsOrderedDb db
db-IsOrderedDb = record {
  users = (tt, tt);
  verification_tokens = (tt, tt);
  reset_tokens = (tt, tt);
  refresh_tokens = (tt, tt);
}

abbrev pub calls : List Call
calls =
    record {
      incoming = at 20 7 "seven";
      body = registering (record {
        email = " Bob@Example.com ";
        password = "long-password";
        first_name = "Bob";
        last_name = "Ray";
        role = UserRole.seller;
      });
    }
    ∷ record { incoming = at 30 8 "eight"; body = refreshing "refresh" }
    ∷ record { incoming = at 40 9 "nine"; body = forgotten "ann@example.com" }
    ∷ record { incoming = at 50 10 "ten"; body = revoking "access" 1 }
    ∷ []

-- ===== src/Auth/Login.antt =====
-- services/auth-service/app/routes.py: login, token_login and issue_service_token. None of them takes
-- a row lock; a login is modelled as one step, from the read of the account to its commit.
use market_place_app.Prelude.{
  ℕ, String, Bool, true, false, Option, none, some, List, [], ◌∷◌, ◌+◌, leb, ltb, not,
  if◌then◌else◌, str_eq, find,
}
use market_place_app.Prelude.Session.{
  pure, query, or_raise, raise, ◌>>=◌, ◌>>◌, raise_if, modify, commit, integrity_error,
}
use market_place_app.Auth.Model.{
  User, text, number, AuthDb, find_user_by_email, save_user, save_session,
}
use market_place_app.Auth.Environment.{
  ServiceClient, Settings, ServiceClaims, Auth, Incoming, Handler, http, verify_password, minutes,
  create_audit_event, create_access_token, create_refresh_token, new_session, breaks_session,
  invalid_credentials, account_locked, account_inactive, email_not_verified, invalid_client,
}

pub record LoginRequest : Type 0 where
  pub email : String
  pub password : String

pub record TokenResponse : Type 0 where
  pub access_token : String
  pub refresh_token : String
  pub token_type : String
  pub expires_in : ℕ

pub record ServiceTokenRequest : Type 0 where
  pub client_id : String
  pub client_secret : String

pub record ServiceTokenResponse : Type 0 where
  pub access_token : String
  pub token_type : String
  pub expires_in : ℕ
  pub scope : String

-- Whether the lock of an account is on.
abbrev pub is_locked : ℕ → Option ℕ → Bool
is_locked now none = false
is_locked now (some until) = ltb now until

-- A lock that is over is taken off, with its count.
unfoldable pub unlocked : User → User
unlocked u = elim u.locked_until [
  | none ↦ u
  | some until ↦ record u { locked_until = none; failed_login_attempts = 0 }
]

abbrev pub counted : User → User
counted u = record u { failed_login_attempts = u.failed_login_attempts + 1 }

abbrev pub logged_in : ℕ → User → User
logged_in now u = record u {
  failed_login_attempts = 0;
  locked_until = none;
  last_login_at = some now;
}

module _ {W : Type 0} (a : Auth W) where
  abbrev pub lock_end : Incoming → ℕ
  lock_end r = r.now + minutes a.settings.account_lock_minutes

  abbrev pub is_too_many : User → Bool
  is_too_many u = leb a.settings.max_failed_login_attempts u.failed_login_attempts

  -- The user after a wrong password, where `u` is unlocked.
  unfoldable pub after_failure : Incoming → User → User
  after_failure r u =
      let v = counted u in
      if is_too_many v then record v { locked_until = some (lock_end r) } else v

  -- The events of a wrong password.
  unfoldable pub failure_events : Incoming → ℕ → User → AuthDb → AuthDb
  unfolding create_audit_event
  failure_events r id v db =
      let failed =
        create_audit_event r (some id) "LOGIN_FAILED"
          (("failed_attempts", number v.failed_login_attempts) ∷ []) db in
      if is_too_many v
      then create_audit_event r (some id) "ACCOUNT_LOCKED"
          (("locked_until", number (lock_end r))
            ∷ ("failed_attempts", number v.failed_login_attempts)
            ∷ [])
          failed
      else failed

  unfoldable pub write_failure : Incoming → ℕ → User → AuthDb → AuthDb
  unfolding failure_events after_failure
  write_failure r id u db = failure_events r id (counted u) (save_user id (after_failure r u) db)

  -- The rows of a login.
  unfoldable pub write_login : Incoming → ℕ → User → AuthDb → AuthDb
  unfolding create_audit_event new_session
  write_login r id u db =
      create_audit_event r (some id) "LOGIN_SUCCEEDED" (("session_id", number r.new_token_id) ∷ [])
        (save_session r.new_token_id (new_session a r id) (save_user id (logged_in r.now u) db))

  unfoldable pub token_response : Incoming → ℕ → User → TokenResponse
  unfolding create_access_token create_refresh_token
  token_response r id u = record {
    access_token = create_access_token a id u r.now;
    refresh_token = create_refresh_token a id r.secret r.now;
    token_type = "bearer";
    expires_in = minutes a.settings.access_token_expire_minutes;
  }

  -- `login` with the right password, for the unlocked user.
  unfoldable pub open_session : Incoming → ℕ → User → Handler W TokenResponse
  unfolding breaks_session
  open_session r id u = do
    raise_if (not u.is_active) (http 403 account_inactive)
    raise_if (not u.is_email_verified) (http 403 email_not_verified)
    broken ← query (breaks_session r)
    raise_if broken integrity_error
    modify (write_login r id u)
    commit
    pure (token_response r id u)

  -- `login` with a wrong password.
  unfoldable pub fail_login : Incoming → ℕ → User → Handler W TokenResponse
  fail_login r id u = do modify (write_failure r id u); commit; raise (http 401 invalid_credentials)

  -- `login` once its user is found.
  unfoldable pub check_password : Incoming → ℕ → User → String → Handler W TokenResponse
  check_password r id u password = do
    raise_if (is_locked r.now u.locked_until) (http 423 account_locked)
    elim (verify_password a password u.password_hash) [
      | true ↦ open_session r id (unlocked u)
      | false ↦ fail_login r id (unlocked u)
    ]

  unfoldable pub login : Incoming → LoginRequest → Handler W TokenResponse
  login r body = do
    found ← query (find_user_by_email body.email)
    user ← or_raise found (http 401 invalid_credentials)
    check_password r (user.0) (user.1) body.password

  -- The form's username is the email.
  unfoldable pub token_login : Incoming → String → String → Handler W TokenResponse
  token_login r username password = login r (record { email = username; password = password })

-- The scope that each registered client gets. A later entry of the dict takes the place of an
-- earlier one with the same client id, so that the entries are listed from the last.
unfoldable pub registry : Settings → List (ServiceClient × String)
registry s =
    (s.inventory_expire, "inventory:expire")
    ∷ (s.shipping_service, "orders:fulfillment")
    ∷ (s.order_service, "inventory:commit cart:checkout inventory:checkout")
    ∷ (s.payment_service, "orders:payment")
    ∷ (s.inventory_sync, "inventory:sync")
    ∷ []

abbrev pub has_client_id : String → ServiceClient × String → Bool
has_client_id id entry = str_eq entry.0.client_id id

-- `registry.get(client_id)`
unfoldable pub registered : Settings → String → Option (ServiceClient × String)
unfolding registry
registered s id = find (has_client_id id) (registry s)

module _ {W : Type 0} (a : Auth W) where
  unfoldable pub service_claims : Incoming → ServiceClient → String → ServiceClaims
  service_claims r client scope = record {
    sub = client.subject;
    scope = scope;
    token_type = "service";
    iss = a.settings.jwt_issuer;
    aud = a.settings.jwt_audience;
    iat = r.now;
    exp = r.now + minutes a.settings.service_token_expire_minutes;
  }

  unfoldable pub issue_service_token :
      Incoming → ServiceTokenRequest → Handler W ServiceTokenResponse
  unfolding create_audit_event service_claims registered
  issue_service_token r body = do
    entry ← or_raise (registered a.settings body.client_id) (http 401 invalid_client)
    raise_if (not (str_eq body.client_secret entry.0.client_secret)) (http 401 invalid_client)
    modify (
        create_audit_event r none "SERVICE_TOKEN_ISSUED"
          (("client_id", text body.client_id) ∷ ("scope", text (entry.1)) ∷ []))
    commit
    pure (record {
      access_token = a.encode_service (service_claims r (entry.0) (entry.1));
      token_type = "bearer";
      expires_in = minutes a.settings.service_token_expire_minutes;
      scope = entry.1;
    })

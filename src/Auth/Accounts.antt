-- ===== src/Auth/Accounts.antt =====
-- services/auth-service/app/routes.py: register, verify_email and resend_verification.
use market_place_app.Prelude.{
  ℕ, String, Bool, true, false, Option, none, some, [], ◌∷◌, ◌+◌, is_some, ◌||◌, leb,
}
use market_place_app.Prelude.Table.{get, find_row}
use market_place_app.Prelude.Session.{
  pure, query, or_raise, ◌>>=◌, ◌>>◌, raise_if, modify, commit, notify, integrity_error,
}
use market_place_app.Auth.Texts.{strip}
use market_place_app.Auth.Model.{
  UserRole, User, VerificationToken, text, AuthDb, value, is_admin, has_hash, has_email, used,
  normalize_email, save_user, save_verification, use_verifications, find_user_by_email,
}
use market_place_app.Auth.Environment.{
  Auth, Incoming, Handler, http, Notification, create_audit_event, full_name, minutes,
  expose_development_token, administrator_accounts_cannot_be_registered, account_already_exists,
  invalid_token, token_already_used, token_expired, user_not_found,
}

pub record RegisterRequest : Type 0 where
  pub email : String
  pub password : String
  pub first_name : String
  pub last_name : String
  pub role : UserRole

pub record RegisterResponse : Type 0 where
  pub user_id : ℕ
  pub email : String
  pub role : UserRole
  pub verification_token : Option String

pub record MessageWithToken : Type 0 where
  pub message : String
  pub token : Option String

-- What `resend_verification` says to anyone.
abbrev resent_message : String
resent_message = "If an eligible account exists, a verification message has been sent."

-- The check of an expiry.
abbrev pub is_over : ℕ → ℕ → Bool
is_over expires_at now = leb expires_at now

-- The keys of a new verification token that are taken.
unfoldable pub breaks_verification : ℕ → String → AuthDb → Bool
breaks_verification id digest db =
    is_some (get id db.verification_tokens)
    || is_some (find_row (has_hash digest) db.verification_tokens)

-- The unique constraints of the table `users` that a new row can violate.
unfoldable pub breaks_user : ℕ → User → AuthDb → Bool
breaks_user id u db = is_some (get id db.users) || is_some (find_row (has_email u.email) db.users)

abbrev pub verified : User → User
verified u = record u { is_email_verified = true }

module _ {W : Type 0} (a : Auth W) where
  unfoldable pub new_user : Incoming → RegisterRequest → User
  new_user r body = record {
    email = normalize_email body.email;
    first_name = strip body.first_name;
    last_name = strip body.last_name;
    password_hash = a.hash r.salt body.password;
    role = body.role;
    is_active = true;
    is_email_verified = false;
    failed_login_attempts = 0;
    locked_until = none;
    last_login_at = none;
  }

  unfoldable pub new_verification : Incoming → ℕ → VerificationToken
  new_verification r user = record {
    user_id = user;
    token_hash = a.sha256 r.secret;
    expires_at = r.now + minutes a.settings.email_verification_expire_minutes;
    used_at = none;
  }

  unfoldable pub verification_email : Incoming → ℕ → User → Notification
  verification_email r id u =
      Notification.verification u.email (full_name u) u.first_name r.secret
        a.settings.email_verification_expire_minutes id

  -- The rows of `register`.
  unfoldable pub write_registered : Incoming → User → AuthDb → AuthDb
  unfolding create_audit_event
  write_registered r u db =
      create_audit_event r (some r.new_id) "USER_REGISTERED"
        (("email", text u.email) ∷ ("role", text (value u.role)) ∷ [])
        (save_verification r.new_token_id (new_verification r r.new_id) (save_user r.new_id u db))

  -- `register` once the email is known to be free: the rows, flushed and committed, and the email.
  unfoldable pub enroll : Incoming → User → Handler W RegisterResponse
  unfolding breaks_user breaks_verification
  enroll r u = do
    broken ← query (breaks_user r.new_id u)
    raise_if broken integrity_error
    seen ← query (breaks_verification r.new_token_id (a.sha256 r.secret))
    raise_if seen integrity_error
    modify (write_registered r u)
    commit
    notify (a.send (verification_email r r.new_id u))
    pure (record {
      user_id = r.new_id;
      email = u.email;
      role = u.role;
      verification_token = expose_development_token a r.secret;
    })

  unfoldable pub register : Incoming → RegisterRequest → Handler W RegisterResponse
  register r body = do
    raise_if (is_admin body.role) (http 403 administrator_accounts_cannot_be_registered)
    existing ← query (find_user_by_email (normalize_email body.email))
    raise_if (is_some existing) (http 409 account_already_exists)
    enroll r (new_user r body)

  -- The rows of `verify_email`.
  unfoldable pub write_verified : Incoming → ℕ → VerificationToken → User → AuthDb → AuthDb
  unfolding create_audit_event
  write_verified r id t u db =
      create_audit_event r (some t.user_id) "EMAIL_VERIFIED" []
        (save_verification id (used r.now t) (save_user t.user_id (verified u) db))

  -- `verify_email` once its token is found.
  unfoldable pub confirm : Incoming → ℕ → VerificationToken → Handler W String
  confirm r id t = do
    raise_if (is_some t.used_at) (http 400 token_already_used)
    raise_if (is_over t.expires_at r.now) (http 400 token_expired)
    found ← query (λ db. get t.user_id db.users)
    u ← or_raise found (http 404 user_not_found)
    modify (write_verified r id t u)
    commit
    pure "Email verified successfully"

  unfoldable pub verify_email : Incoming → String → Handler W String
  verify_email r token = do
    found ← query (λ db. find_row (has_hash (a.sha256 token)) db.verification_tokens)
    t ← or_raise found (http 400 invalid_token)
    confirm r (t.0) (t.1)

  -- The rows of `resend_verification`.
  unfoldable pub write_resent : Incoming → ℕ → AuthDb → AuthDb
  unfolding create_audit_event
  write_resent r user db =
      create_audit_event r (some user) "EMAIL_VERIFICATION_RESENT" [] (
        save_verification r.new_token_id (new_verification r user)
          (use_verifications r.now user db))

  -- `resend_verification` for an account that is not verified.
  unfoldable pub resend : Incoming → ℕ → User → Handler W MessageWithToken
  unfolding breaks_verification
  resend r user u = do
    seen ← query (breaks_verification r.new_token_id (a.sha256 r.secret))
    raise_if seen integrity_error
    modify (write_resent r user)
    commit
    notify (a.send (verification_email r user u))
    pure (record { message = resent_message; token = expose_development_token a r.secret })

  unfoldable pub resend_verification : Incoming → String → Handler W MessageWithToken
  resend_verification r email = do
    user ← query (find_user_by_email email)
    elim user [
      | none ↦ pure (record { message = resent_message; token = none })
      | some (id, u) ↦ elim u.is_email_verified [
        | true ↦ pure (record { message = resent_message; token = none })
        | false ↦ resend r id u
      ]
    ]

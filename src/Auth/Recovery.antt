-- ===== src/Auth/Recovery.antt =====
-- services/auth-service/app/routes.py: forgot_password, reset_password and change_password.
use market_place_app.Prelude.{
  ℕ, String, Bool, true, false, none, some, [], ◌∷◌, ◌+◌, is_some, ◌||◌, not,
}
use market_place_app.Prelude.Table.{get, find_row}
use market_place_app.Prelude.Session.{
  pure, query, or_raise, raise, ◌>>=◌, ◌>>◌, raise_if, modify, commit, notify, integrity_error,
}
use market_place_app.Auth.Model.{
  User, PasswordResetToken, text, flag, AuthDb, has_hash, used, save_user, save_reset, use_resets,
  find_user_by_email, revoke_all_user_sessions,
}
use market_place_app.Auth.Environment.{
  Auth, Incoming, Handler, http, Notification, create_audit_event, full_name, minutes,
  verify_password, get_client_ip, expose_development_token, invalid_token, token_already_used,
  token_expired, user_unavailable, same_password, wrong_current_password,
}
use market_place_app.Auth.Dependencies.{get_current_user}
use market_place_app.Auth.Accounts.{MessageWithToken, is_over}

pub record ResetPasswordRequest : Type 0 where
  pub token : String
  pub new_password : String

pub record ChangePasswordRequest : Type 0 where
  pub current_password : String
  pub new_password : String

-- What `forgot_password` says to anyone.
abbrev forgot_message : String
forgot_message = "If an account exists for this email, password-reset instructions have been sent."

abbrev pub with_password : String → User → User
with_password digest u = record u {
  password_hash = digest;
  failed_login_attempts = 0;
  locked_until = none;
}

unfoldable pub breaks_reset : ℕ → String → AuthDb → Bool
breaks_reset id digest db =
    is_some (get id db.reset_tokens) || is_some (find_row (has_hash digest) db.reset_tokens)

module _ {W : Type 0} (a : Auth W) where
  unfoldable pub new_reset : Incoming → ℕ → PasswordResetToken
  new_reset r user = record {
    user_id = user;
    token_hash = a.sha256 r.secret;
    expires_at = r.now + minutes a.settings.password_reset_expire_minutes;
    used_at = none;
  }

  -- The rows of `forgot_password`.
  unfoldable pub write_forgotten : Incoming → ℕ → AuthDb → AuthDb
  unfolding create_audit_event
  write_forgotten r user db =
      create_audit_event r (some user) "PASSWORD_RESET_REQUESTED" []
        (save_reset r.new_token_id (new_reset r user) (use_resets r.now user db))

  unfoldable pub reset_email : Incoming → ℕ → User → Notification
  reset_email r id u =
      Notification.password_reset u.email (full_name u) u.first_name r.secret
        a.settings.password_reset_expire_minutes id

  -- `forgot_password` for an active account.
  unfoldable pub send_reset : Incoming → ℕ → User → Handler W MessageWithToken
  unfolding breaks_reset
  send_reset r user u = do
    seen ← query (breaks_reset r.new_token_id (a.sha256 r.secret))
    raise_if seen integrity_error
    modify (write_forgotten r user)
    commit
    notify (a.send (reset_email r user u))
    pure (record { message = forgot_message; token = expose_development_token a r.secret })

  unfoldable pub forgot_password : Incoming → String → Handler W MessageWithToken
  forgot_password r email = do
    user ← query (find_user_by_email email)
    elim user [
      | none ↦ pure (record { message = forgot_message; token = none })
      | some (id, u) ↦ elim u.is_active [
        | false ↦ pure (record { message = forgot_message; token = none })
        | true ↦ send_reset r id u
      ]
    ]

  unfoldable pub changed_email : Incoming → ℕ → User → Notification
  unfolding get_client_ip
  changed_email r id u =
      Notification.password_changed u.email (full_name u) u.first_name r.now (get_client_ip r) id

  -- A user with a new password, and no session left.
  unfoldable pub write_password : Incoming → String → ℕ → User → AuthDb → AuthDb
  write_password r password id u db =
      revoke_all_user_sessions r.now id (save_user id (with_password (a.hash r.salt password) u) db)

  -- The rows of `reset_password`.
  unfoldable pub write_reset : Incoming → String → ℕ → PasswordResetToken → User → AuthDb → AuthDb
  unfolding create_audit_event write_password
  write_reset r password id t u db =
      create_audit_event r (some t.user_id) "PASSWORD_RESET_COMPLETED"
        (("all_sessions_revoked", flag true) ∷ [])
        (write_password r password t.user_id u (save_reset id (used r.now t) db))

  -- `reset_password` once its token is found.
  unfoldable pub apply_reset : Incoming → ℕ → PasswordResetToken → String → Handler W String
  apply_reset r id t password = do
    raise_if (is_some t.used_at) (http 400 token_already_used)
    raise_if (is_over t.expires_at r.now) (http 400 token_expired)
    found ← query (λ db. get t.user_id db.users)
    u ← or_raise found (http 400 user_unavailable)
    raise_if (not u.is_active) (http 400 user_unavailable)
    raise_if (verify_password a password u.password_hash) (http 400 same_password)
    modify (write_reset r password id t u)
    commit
    notify (a.send (changed_email r t.user_id u))
    pure "Password reset successfully. Please sign in with your new password."

  unfoldable pub reset_password : Incoming → ResetPasswordRequest → Handler W String
  reset_password r body = do
    found ← query (λ db. find_row (has_hash (a.sha256 body.token)) db.reset_tokens)
    t ← or_raise found (http 400 invalid_token)
    apply_reset r (t.0) (t.1) body.new_password

  -- The rows of `change_password`.
  unfoldable pub write_changed : Incoming → String → ℕ → User → AuthDb → AuthDb
  unfolding create_audit_event write_password
  write_changed r password id u db =
      create_audit_event r (some id) "PASSWORD_CHANGED" (("all_sessions_revoked", flag true) ∷ [])
        (write_password r password id u db)

  -- `change_password` with a wrong current password.
  unfoldable pub refuse_change : Incoming → ℕ → Handler W String
  unfolding create_audit_event
  refuse_change r id = do
    modify (
        create_audit_event r (some id) "PASSWORD_CHANGE_FAILED"
          (("reason", text "invalid_current_password") ∷ []))
    commit
    raise (http 400 wrong_current_password)

  -- `change_password` with the right one.
  unfoldable pub apply_change : Incoming → String → ℕ → User → Handler W String
  apply_change r password id u = do
    raise_if (verify_password a password u.password_hash) (http 400 same_password)
    modify (write_changed r password id u)
    commit
    notify (a.send (changed_email r id u))
    pure "Password changed successfully. Please sign in again."

  unfoldable pub change_password : Incoming → String → ChangePasswordRequest → Handler W String
  unfolding get_current_user
  change_password r access body = do
    current ← get_current_user a r access
    elim (verify_password a body.current_password current.1.password_hash) [
      | false ↦ refuse_change r (current.0)
      | true ↦ apply_change r body.new_password (current.0) (current.1)
    ]

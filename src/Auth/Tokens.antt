-- ===== src/Auth/Tokens.antt =====
-- services/auth-service/app/routes.py: refresh_access_token and logout; and session_routes.py.
use market_place_app.Prelude.{
  ℕ, String, Bool, true, false, Option, none, some, [], ◌∷◌, ◌&&◌, not, is_some, str_eq, ltb, ◌==◌,
}
use market_place_app.Prelude.Table.{Table, get, filter_rows}
use market_place_app.Prelude.Session.{
  pure, query, or_raise, ◌>>=◌, ◌>>◌, raise_if, modify, commit, integrity_error,
}
use market_place_app.Auth.Model.{
  RefreshToken, number, text, AuthDb, revoked, find_session, save_session,
}
use market_place_app.Auth.Environment.{
  Claims, Auth, Incoming, Handler, http, truthy, create_audit_event, new_session, breaks_session,
  decode_jwt_token, refresh_token_required, invalid_refresh_token, session_not_found, token_revoked,
  token_expired, user_unavailable,
}
use market_place_app.Auth.Dependencies.{get_current_user}
use market_place_app.Auth.Accounts.{is_over}
use market_place_app.Auth.Login.{TokenResponse, token_response}

abbrev is_kind : String → Option String → Bool
is_kind kind none = false
is_kind kind (some t) = str_eq t kind

-- The token id and the user of a refresh token's claims; errors have the status given.
unfoldable pub read_claims : {W : Type 0} → Auth W → ℕ → Claims → Handler W (String × ℕ)
read_claims a status claims = do
  raise_if (not (is_kind "refresh" claims.token_type)) (http status refresh_token_required)
  subject ← or_raise (truthy claims.sub) (http status invalid_refresh_token)
  token_id ← or_raise (truthy claims.jti) (http status invalid_refresh_token)
  user_id ← or_raise (a.uuid subject) (http status invalid_refresh_token)
  pure (token_id, user_id)

module _ {W : Type 0} (a : Auth W) where
  -- The rows of `refresh_access_token`.
  unfoldable pub write_rotated : Incoming → ℕ → RefreshToken → AuthDb → AuthDb
  unfolding create_audit_event new_session
  write_rotated r id t db =
      create_audit_event r (some t.user_id) "REFRESH_TOKEN_ROTATED"
        (("old_session_id", number id) ∷ ("new_session_id", number r.new_token_id) ∷ [])
        (save_session r.new_token_id (new_session a r t.user_id)
          (save_session id (revoked r.now t) db))

  -- `refresh_access_token` once the stored token is found.
  unfoldable pub rotate : Incoming → ℕ → RefreshToken → Handler W TokenResponse
  unfolding breaks_session
  rotate r id t = do
    raise_if (is_some t.revoked_at) (http 401 token_revoked)
    raise_if (is_over t.expires_at r.now) (http 401 token_expired)
    found ← query (λ db. get t.user_id db.users)
    u ← or_raise found (http 401 user_unavailable)
    raise_if (not u.is_active) (http 401 user_unavailable)
    broken ← query (breaks_session r)
    raise_if broken integrity_error
    modify (write_rotated r id t)
    commit
    pure (token_response a r t.user_id u)

  unfoldable pub refresh_access_token : Incoming → String → Handler W TokenResponse
  unfolding decode_jwt_token read_claims
  refresh_access_token r token = do
    claims ← decode_jwt_token a r token
    who ← read_claims a 401 claims
    found ← query (find_session (who.0) (who.1))
    stored ← or_raise found (http 401 session_not_found)
    rotate r (stored.0) (stored.1)

-- The rows of `logout` and of `revoke_session`.
unfoldable pub write_logged_out : Incoming → ℕ → RefreshToken → AuthDb → AuthDb
unfolding create_audit_event
write_logged_out r id t db =
    create_audit_event r (some t.user_id) "LOGOUT" (("session_id", number id) ∷ [])
      (save_session id (revoked r.now t) db)

unfoldable pub write_revoked : Incoming → ℕ → RefreshToken → AuthDb → AuthDb
unfolding create_audit_event
write_revoked r id t db =
    create_audit_event r (some t.user_id) "SESSION_REVOKED"
      (("session_id", number id) ∷ ("token_id", text t.token_id) ∷ [])
      (save_session id (revoked r.now t) db)

-- `logout` with the session that was found.
unfoldable pub end_session : {W : Type 0} → Incoming → Option (ℕ × RefreshToken) → Handler W String
end_session r none = pure "Logged out successfully"
end_session r (some (id, t)) = elim t.revoked_at [
  | some at ↦ pure "Logged out successfully"
  | none ↦ do modify (write_logged_out r id t); commit; pure "Logged out successfully"
]

-- `revoke_session` with the session that was found.
unfoldable pub revoke_found : {W : Type 0} → Incoming → ℕ → RefreshToken → Handler W String
revoke_found r id t = elim t.revoked_at [
  | some at ↦ pure "Session is already revoked"
  | none ↦ do modify (write_revoked r id t); commit; pure "Session revoked successfully"
]

abbrev pub of_user : ℕ → Option RefreshToken → Option RefreshToken
of_user user none = none
of_user user (some t) = elim (t.user_id == user) [ true ↦ some t | false ↦ none ]

-- Not revoked and not expired.
abbrev pub is_live : ℕ → ℕ → RefreshToken → Bool
is_live now user t = t.user_id == user && not (is_some t.revoked_at) && ltb now t.expires_at

module _ {W : Type 0} (a : Auth W) where
  unfoldable pub logout : Incoming → String → Handler W String
  unfolding decode_jwt_token read_claims
  logout r token = do
    claims ← decode_jwt_token a r token
    who ← read_claims a 400 claims
    found ← query (find_session (who.0) (who.1))
    end_session r found

  unfoldable pub revoke_session : Incoming → String → ℕ → Handler W String
  unfolding get_current_user
  revoke_session r access session_id = do
    current ← get_current_user a r access
    found ← query (λ db. of_user (current.0) (get session_id db.refresh_tokens))
    t ← or_raise found (http 404 session_not_found)
    revoke_found r session_id t

  -- The sessions are given in the order of their ids, where the code sorts by created_at.
  unfoldable pub list_sessions : Incoming → String → Handler W (Table RefreshToken)
  unfolding get_current_user
  list_sessions r access = do
    current ← get_current_user a r access
    query (λ db. filter_rows (is_live r.now (current.0)) db.refresh_tokens)

-- ===== src/Auth/Kept.antt =====
-- Proofs about any requests to services/auth-service, by the laws of Laws.
use market_place_app.Prelude.{ℕ, String, ◌≡◌, some, arith, Option-cases, inl, inr, List, [], ◌∷◌}
use market_place_app.Prelude.Table.{Table, get, find_row}
use market_place_app.Prelude.Table.Rows.{find_row-stored}
use market_place_app.Prelude.Session.{Session, request, Result-cases}
use market_place_app.Auth.Model.{
  User, VerificationToken, RefreshToken, AuthDb, has_hash, text, find_user_by_email, find_session,
}
use market_place_app.Auth.Environment.{Auth, Incoming, decode_jwt_token}
use market_place_app.Auth.Dependencies.{get_current_user}
use market_place_app.Auth.Tokens.{
  read_claims, refresh_access_token, logout, revoke_session, list_sessions, end_session,
}
use market_place_app.Auth.Recovery.{
  ResetPasswordRequest, ChangePasswordRequest, breaks_reset, send_reset, forgot_password,
  apply_reset, reset_password, refuse_change, apply_change, change_password,
}
use market_place_app.Auth.Runs.{
  Request, registering, verifying, resending, logging_in, token_form, service, refreshing,
  logging_out, forgotten, resetting, changing, listing, revoking, Call, respond, step, run,
}
use market_place_app.Auth.Laws.{UserLaws, MailedLaws, SessionLaws}
use market_place_app.Auth.Writes.{Holds, create_audit_event-Holds}
use market_place_app.Auth.Stores.{write_forgotten-Holds, write_changed-Holds, write_reset-Holds}
use market_place_app.Auth.Callers.{
  decode_jwt_token_reads, read_claims_reads, get_current_user_reads, get_current_user_stored,
}
use market_place_app.Auth.Keeping.{
  register-Holds, verify_email-Holds, resend_verification-Holds, login-Holds, token_login-Holds,
  issue_service_token-Holds, rotate-Holds, end_session-Holds, revoke_found-Holds,
  find_session_stored,
}

module _ {W : Type 0} (a : Auth W) (U : Table User → Type 0)
    (V R : Table VerificationToken → Type 0) (S : Table RefreshToken → Type 0) (ul : UserLaws a U)
    (vl : MailedLaws V) (rl : MailedLaws R) (sl : SessionLaws S) (r : Incoming) (d : AuthDb) (w : W)
    (h : Holds U V R S d) where
  abbrev fresh : Session AuthDb W
  fresh = record { durable = d; working = d; world = w }

  pub refresh_access_token-Holds :
      (token : String) → Holds U V R S (request (refresh_access_token a r token) d w).1
  unfolding refresh_access_token
  refresh_access_token-Holds token = elim (Result-cases (decode_jwt_token a r token fresh).0) [
    | inr (x, e) ↦ ground (arith, decode_jwt_token_reads a fresh r token)
    | inl (claims, e) ↦ elim (Result-cases (read_claims a 401 claims fresh).0) [
      | inr (x, f) ↦
          ground
            (arith, decode_jwt_token_reads a fresh r token, read_claims_reads a fresh 401 claims)
      | inl ((token_id, user), f) ↦ elim (Option-cases (find_session token_id user d)) [
        | inl g ↦
            ground
              (arith, decode_jwt_token_reads a fresh r token, read_claims_reads a fresh 401 claims)
        | inr ((id, t), g) ↦ ground (
          arith,
          decode_jwt_token_reads a fresh r token,
          read_claims_reads a fresh 401 claims,
          rotate-Holds a U V R S ul vl rl sl r d w h id t
              (find_session_stored a U V R S ul vl rl sl r d w h token_id user id t g),
        )
      ]
    ]
  ]

  pub logout-Holds : (token : String) → Holds U V R S (request (logout a r token) d w).1
  unfolding logout end_session
  logout-Holds token = elim (Result-cases (decode_jwt_token a r token fresh).0) [
    | inr (x, e) ↦ ground (arith, decode_jwt_token_reads a fresh r token)
    | inl (claims, e) ↦ elim (Result-cases (read_claims a 400 claims fresh).0) [
      | inr (x, f) ↦
          ground
            (arith, decode_jwt_token_reads a fresh r token, read_claims_reads a fresh 400 claims)
      | inl ((token_id, user), f) ↦ elim (Option-cases (find_session token_id user d)) [
        | inl g ↦
            ground
              (arith, decode_jwt_token_reads a fresh r token, read_claims_reads a fresh 400 claims)
        | inr ((id, t), g) ↦ ground (
          arith,
          decode_jwt_token_reads a fresh r token,
          read_claims_reads a fresh 400 claims,
          end_session-Holds a U V R S ul vl rl sl r d w h id t
              (find_session_stored a U V R S ul vl rl sl r d w h token_id user id t g),
        )
      ]
    ]
  ]

  revoke_session-Holds :
      (access : String) (id : ℕ) → Holds U V R S (request (revoke_session a r access id) d w).1
  unfolding revoke_session
  revoke_session-Holds access id = elim (Result-cases (get_current_user a r access fresh).0) [
    | inr (x, e) ↦ ground (arith, get_current_user_reads a fresh r access)
    | inl ((user, u), e) ↦ elim (Option-cases (get id d.refresh_tokens)) [
      | inl f ↦ ground (arith, get_current_user_reads a fresh r access)
      | inr (t, f) ↦ ground (
        arith,
        get_current_user_reads a fresh r access,
        revoke_found-Holds a U V R S ul vl rl sl r d w h id t f,
      )
    ]
  ]

  list_sessions-Holds : (access : String) → Holds U V R S (request (list_sessions a r access) d w).1
  unfolding list_sessions
  list_sessions-Holds access = ground (arith, get_current_user_reads a fresh r access)

  pub forgot_password-Holds :
      (email : String) → Holds U V R S (request (forgot_password a r email) d w).1
  unfolding forgot_password send_reset breaks_reset
  forgot_password-Holds email = elim (Option-cases (find_user_by_email email d)) [
    | inl e ↦ ground arith
    | inr ((id, u), e) ↦ ground (arith, write_forgotten-Holds a U V R S ul vl rl sl r d h id)
  ]

  pub reset_password-Holds :
      (body : ResetPasswordRequest) → Holds U V R S (request (reset_password a r body) d w).1
  unfolding reset_password apply_reset
  reset_password-Holds body =
      elim (Option-cases (find_row (has_hash (a.sha256 body.token)) d.reset_tokens)) [
        | inl e ↦ ground arith
        | inr ((id, t), e) ↦
            let stored = find_row-stored _ d.reset_tokens id t h.ordered.reset_tokens e in
            elim (Option-cases (get t.user_id d.users)) [
              | inl f ↦ ground arith
              | inr (u, f) ↦ ground (
                arith,
                write_reset-Holds a U V R S ul rl sl r d h body.new_password id t u stored f,
              )
            ]
      ]

  refuse_change-Holds : (id : ℕ) → Holds U V R S (request (refuse_change a r id) d w).1
  unfolding refuse_change
  refuse_change-Holds id =
      create_audit_event-Holds U V R S r (some id) "PASSWORD_CHANGE_FAILED"
        (("reason", text "invalid_current_password") ∷ []) d h

  apply_change-Holds :
      (password : String) (id : ℕ) (u : User)
      → get id d.users ≡ some u
      → Holds U V R S (request (apply_change a r password id u) d w).1
  unfolding apply_change
  apply_change-Holds password id u e =
      ground (arith, write_changed-Holds a U V R S ul rl sl r d h password id u e)

  pub change_password-Holds :
      (access : String) (body : ChangePasswordRequest)
      → Holds U V R S (request (change_password a r access body) d w).1
  unfolding change_password
  change_password-Holds access body = elim (Result-cases (get_current_user a r access fresh).0) [
    | inr (x, e) ↦ ground (arith, get_current_user_reads a fresh r access)
    | inl ((id, u), e) ↦ ground (
      arith,
      get_current_user_reads a fresh r access,
      refuse_change-Holds id,
      apply_change-Holds body.new_password id u (get_current_user_stored a fresh r access id u e),
    )
  ]

  pub respond-Holds : (body : Request) → Holds U V R S (request (respond a r body) d w).1
  unfolding respond
  respond-Holds (registering body) =
      ground (arith, register-Holds a U V R S ul vl rl sl r d w h body)
  respond-Holds (verifying token) =
      ground (arith, verify_email-Holds a U V R S ul vl rl sl r d w h token)
  respond-Holds (resending email) =
      ground (arith, resend_verification-Holds a U V R S ul vl rl sl r d w h email)
  respond-Holds (logging_in body) = ground (arith, login-Holds a U V R S ul vl rl sl r d w h body)
  respond-Holds (token_form username password) =
      ground (arith, token_login-Holds a U V R S ul vl rl sl r d w h username password)
  respond-Holds (service body) =
      ground (arith, issue_service_token-Holds a U V R S ul vl rl sl r d w h body)
  respond-Holds (refreshing token) = ground (arith, refresh_access_token-Holds token)
  respond-Holds (logging_out token) = ground (arith, logout-Holds token)
  respond-Holds (forgotten email) = ground (arith, forgot_password-Holds email)
  respond-Holds (resetting body) = ground (arith, reset_password-Holds body)
  respond-Holds (changing access body) = ground (arith, change_password-Holds access body)
  respond-Holds (listing access) = ground (arith, list_sessions-Holds access)
  respond-Holds (revoking access id) = ground (arith, revoke_session-Holds access id)

module _ {W : Type 0} (a : Auth W) (U : Table User → Type 0)
    (V R : Table VerificationToken → Type 0) (S : Table RefreshToken → Type 0) (ul : UserLaws a U)
    (vl : MailedLaws V) (rl : MailedLaws R) (sl : SessionLaws S) where
  pub run-Holds :
      (cs : List Call) (d : AuthDb) (w : W) → Holds U V R S d → Holds U V R S (run a cs d w).0
  unfolding run step
  run-Holds [] d w h = h
  run-Holds (c ∷ cs) d w h =
      run-Holds cs _ _ (respond-Holds a U V R S ul vl rl sl c.incoming d w h c.body)

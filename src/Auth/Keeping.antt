-- ===== src/Auth/Keeping.antt =====
-- Proofs about the handlers of services/auth-service/app/routes.py and session_routes.py, by the laws
-- of Laws.
use market_place_app.Prelude.{
  ℕ, String, ◌≡◌, false, none, some, arith, Option-cases, inl, inr, [], ◌∷◌,
}
use market_place_app.Prelude.Table.{Table, get, find_row}
use market_place_app.Prelude.Table.Rows.{find_row-stored}
use market_place_app.Prelude.Session.{request}
use market_place_app.Auth.Model.{
  User, VerificationToken, RefreshToken, AuthDb, has_hash, has_email, is_admin, normalize_email,
  find_user_by_email, find_session, text,
}
use market_place_app.Auth.Environment.{Auth, Incoming, breaks_session}
use market_place_app.Auth.Accounts.{
  RegisterRequest, breaks_user, breaks_verification, new_user, enroll, register, confirm,
  verify_email, resend, resend_verification,
}
use market_place_app.Auth.Login.{
  LoginRequest, ServiceTokenRequest, unlocked, open_session, fail_login, check_password, login,
  token_login, issue_service_token, registered, is_locked,
}
use market_place_app.Auth.Tokens.{rotate, end_session, revoke_found}
use market_place_app.Auth.Laws.{UserLaws, MailedLaws, SessionLaws}
use market_place_app.Auth.Writes.{Holds, create_audit_event-Holds}
use market_place_app.Auth.Stores.{
  write_registered-Holds, write_verified-Holds, write_resent-Holds, write_failure-Holds,
  write_login-Holds, write_rotated-Holds, write_logged_out-Holds, write_revoked-Holds,
}

module _ {W : Type 0} (a : Auth W) (U : Table User → Type 0)
    (V R : Table VerificationToken → Type 0) (S : Table RefreshToken → Type 0) (ul : UserLaws a U)
    (vl : MailedLaws V) (rl : MailedLaws R) (sl : SessionLaws S) (r : Incoming) (d : AuthDb) (w : W)
    (h : Holds U V R S d) where
  enroll-Holds :
      (body : RegisterRequest)
      → is_admin body.role ≡ false
      → Holds U V R S (request (enroll a r (new_user a r body)) d w).1
  unfolding enroll breaks_user breaks_verification new_user
  enroll-Holds body role =
      ground (arith, write_registered-Holds a U V R S ul vl rl sl r d h (new_user a r body))

  pub register-Holds : (body : RegisterRequest) → Holds U V R S (request (register a r body) d w).1
  unfolding register
  register-Holds body = ground (arith, enroll-Holds body)

  pub verify_email-Holds : (token : String) → Holds U V R S (request (verify_email a r token) d w).1
  unfolding verify_email confirm
  verify_email-Holds token =
      elim (Option-cases (find_row (has_hash (a.sha256 token)) d.verification_tokens)) [
        | inl e ↦ ground arith
        | inr ((id, t), e) ↦
            let stored =
              find_row-stored _ d.verification_tokens id t h.ordered.verification_tokens e in
            elim (Option-cases (get t.user_id d.users)) [
              | inl f ↦ ground arith
              | inr (u, f) ↦
                  ground (arith, write_verified-Holds a U V R S ul vl rl sl r d h id t u stored f)
            ]
      ]

  pub resend_verification-Holds :
      (email : String) → Holds U V R S (request (resend_verification a r email) d w).1
  unfolding resend_verification resend breaks_verification
  resend_verification-Holds email = elim (Option-cases (find_user_by_email email d)) [
    | inl e ↦ ground arith
    | inr ((id, u), e) ↦ ground (arith, write_resent-Holds a U V R S ul vl rl sl r d h id)
  ]

  open_session-Holds :
      (id : ℕ) (u : User)
      → get id d.users ≡ some u
      → Holds U V R S (request (open_session a r id (unlocked u)) d w).1
  unfolding open_session breaks_session
  open_session-Holds id u e = ground (arith, write_login-Holds a U V R S ul vl rl sl r d h id u e)

  fail_login-Holds :
      (id : ℕ) (u : User)
      → get id d.users ≡ some u
      → is_locked r.now u.locked_until ≡ false
      → Holds U V R S (request (fail_login a r id (unlocked u)) d w).1
  unfolding fail_login
  fail_login-Holds id u e n = ground (arith, write_failure-Holds a U V R S ul vl rl sl r d h id u e)

  pub login-Holds : (body : LoginRequest) → Holds U V R S (request (login a r body) d w).1
  unfolding login check_password find_user_by_email
  login-Holds body =
      elim (Option-cases (find_row (has_email (normalize_email body.email)) d.users)) [
        | inl e ↦ ground arith
        | inr ((id, u), e) ↦
            let stored = find_row-stored _ d.users id u h.ordered.users e in
            ground (arith, open_session-Holds id u stored, fail_login-Holds id u stored)
      ]

  pub token_login-Holds :
      (username password : String)
      → Holds U V R S (request (token_login a r username password) d w).1
  unfolding token_login
  token_login-Holds username password =
      login-Holds (record { email = username; password = password })

  pub issue_service_token-Holds :
      (body : ServiceTokenRequest) → Holds U V R S (request (issue_service_token a r body) d w).1
  unfolding issue_service_token
  issue_service_token-Holds body = elim (Option-cases (registered a.settings body.client_id)) [
    | inl e ↦ ground arith
    | inr (entry, e) ↦ ground (
      arith,
      create_audit_event-Holds U V R S r none "SERVICE_TOKEN_ISSUED"
          (("client_id", text body.client_id) ∷ ("scope", text (entry.1)) ∷ []) d h,
    )
  ]

  pub rotate-Holds :
      (id : ℕ) (t : RefreshToken)
      → get id d.refresh_tokens ≡ some t
      → Holds U V R S (request (rotate a r id t) d w).1
  unfolding rotate breaks_session
  rotate-Holds id t e = elim (Option-cases (get t.user_id d.users)) [
    | inl f ↦ ground arith
    | inr (u, f) ↦ ground (arith, write_rotated-Holds a U V R S ul vl rl sl r d h id t e)
  ]

  pub find_session_stored :
      (token_id : String) (user id : ℕ) (t : RefreshToken)
      → find_session token_id user d ≡ some (id, t)
      → get id d.refresh_tokens ≡ some t
  unfolding find_session
  find_session_stored token_id user id t e =
      find_row-stored _ d.refresh_tokens id t h.ordered.refresh_tokens e

  pub end_session-Holds :
      (id : ℕ) (t : RefreshToken)
      → get id d.refresh_tokens ≡ some t
      → Holds U V R S (request (end_session {W = W} r (some (id, t))) d w).1
  unfolding end_session
  end_session-Holds id t e =
      ground (arith, write_logged_out-Holds a U V R S ul vl rl sl r d h id t e)

  pub revoke_found-Holds :
      (id : ℕ) (t : RefreshToken)
      → get id d.refresh_tokens ≡ some t
      → Holds U V R S (request (revoke_found {W = W} r id t) d w).1
  unfolding revoke_found
  revoke_found-Holds id t e = ground (arith, write_revoked-Holds a U V R S ul vl rl sl r d h id t e)

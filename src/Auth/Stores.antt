-- ===== src/Auth/Stores.antt =====
-- Proofs about what the handlers of services/auth-service/app/routes.py store, by the laws of Laws.
use market_place_app.Prelude.{ℕ, ◌≡◌, false, none, some, ◌∷◌, [], Bool-cases, inl, inr, String}
use market_place_app.Prelude.Table.{Table, get, put, find_row, find_row-none}
use market_place_app.Auth.Model.{
  User, VerificationToken, PasswordResetToken, RefreshToken, AuthDb, number, Detail, is_admin,
  has_email, has_hash, has_token_id, used, revoked, save_user, save_reset, save_session,
  use_verifications, use_resets, update_rows, used_if_of,
}
use market_place_app.Auth.Environment.{Auth, Incoming, new_session, create_audit_event}
use market_place_app.Auth.Accounts.{
  verified, new_verification, write_registered, write_verified, write_resent,
}
use market_place_app.Auth.Login.{
  is_locked, unlocked, failure_events, write_failure, write_login, counted, lock_end, is_too_many,
}
use market_place_app.Auth.Tokens.{write_rotated, write_logged_out, write_revoked}
use market_place_app.Auth.Recovery.{
  new_reset, write_forgotten, write_password, write_reset, write_changed,
}
use market_place_app.Auth.Laws.{UserLaws, MailedLaws, SessionLaws}
use market_place_app.Auth.Rows.{
  get-none-update_rows, find_row-none-update_rows, find_row-none-put, get-none-put, used_if_of_hash,
}
use market_place_app.Auth.Writes.{
  Holds, create_audit_event-Holds, save_user-Holds, save_verification-Holds, save_reset-Holds,
  save_session-Holds, use_verifications-Holds, use_resets-Holds, revoke_all-Holds,
}

failure_events-Holds :
    {W : Type 0} (a : Auth W) (U : Table User → Type 0) (V R : Table VerificationToken → Type 0)
    (S : Table RefreshToken → Type 0) (r : Incoming) (id : ℕ) (v : User) (d : AuthDb)
    → Holds U V R S d
    → Holds U V R S (failure_events a r id v d)
unfolding failure_events
failure_events-Holds a U V R S r id v d h =
    let count : String × Detail = ("failed_attempts", number v.failed_login_attempts) in
    let failed = create_audit_event r (some id) "LOGIN_FAILED" (count ∷ []) d in
    let first = create_audit_event-Holds U V R S r (some id) "LOGIN_FAILED" (count ∷ []) d h in
    let second =
      create_audit_event-Holds U V R S r (some id) "ACCOUNT_LOCKED"
        (("locked_until", number (lock_end a r)) ∷ count ∷ []) failed first in
    elim (Bool-cases (is_too_many a v)) [ inl e ↦ rw e second | inr e ↦ rw e first ]

module _ {W : Type 0} (a : Auth W) (U : Table User → Type 0)
    (V R : Table VerificationToken → Type 0) (S : Table RefreshToken → Type 0) (ul : UserLaws a U)
    (vl : MailedLaws V) (rl : MailedLaws R) (sl : SessionLaws S) (r : Incoming) (d : AuthDb)
    (h : Holds U V R S d) where
  pub write_registered-Holds :
      (u : User)
      → get r.new_id d.users ≡ none
      → find_row (has_email u.email) d.users ≡ none
      → get r.new_token_id d.verification_tokens ≡ none
      → find_row (has_hash (a.sha256 r.secret)) d.verification_tokens ≡ none
      → is_admin u.role ≡ false
      → u.failed_login_attempts ≡ 0
      → u.locked_until ≡ none
      → Holds U V R S (write_registered a r u d)
  unfolding write_registered save_user new_verification
  write_registered-Holds u k e n f role zero_ no_lock = create_audit_event-Holds U V R S r _ _ _ _ (
      save_verification-Holds U V R S r.new_token_id (new_verification a r r.new_id) _
        (vl.mailed r.new_token_id (new_verification a r r.new_id) d.verification_tokens n f
          h.verifications_hold)
        (save_user-Holds U V R S r.new_id u d
          (ul.registered r.new_id u d.users k e role zero_ no_lock h.users_hold) h))

  pub write_verified-Holds :
      (id : ℕ) (t : VerificationToken) (u : User)
      → get id d.verification_tokens ≡ some t
      → get t.user_id d.users ≡ some u
      → Holds U V R S (write_verified a r id t u d)
  unfolding write_verified save_user
  write_verified-Holds id t u e f = create_audit_event-Holds U V R S r _ _ _ _ (
      save_verification-Holds U V R S id (used r.now t) _
        (vl.used_law r.now id t d.verification_tokens e h.verifications_hold)
        (save_user-Holds U V R S t.user_id (verified u) d
          (ul.verified_law t.user_id u d.users f h.users_hold) h))

  pub write_resent-Holds :
      (user : ℕ)
      → get r.new_token_id d.verification_tokens ≡ none
      → find_row (has_hash (a.sha256 r.secret)) d.verification_tokens ≡ none
      → Holds U V R S (write_resent a r user d)
  unfolding write_resent use_verifications new_verification
  write_resent-Holds user n f =
      let f' = used_if_of r.now user in
      let t' = update_rows f' d.verification_tokens in
      create_audit_event-Holds U V R S r _ _ _ _ (
        save_verification-Holds U V R S r.new_token_id (new_verification a r user) _
          (vl.mailed r.new_token_id (new_verification a r user) t'
            (get-none-update_rows f' r.new_token_id d.verification_tokens n)
            (find_row-none-update_rows f' _ d.verification_tokens
              (used_if_of_hash (a.sha256 r.secret) r.now user) f)
            (vl.used_all r.now user d.verification_tokens h.verifications_hold))
          (use_verifications-Holds U V R S r.now user d vl h))

  pub write_failure-Holds :
      (id : ℕ) (u : User)
      → get id d.users ≡ some u
      → is_locked r.now u.locked_until ≡ false
      → Holds U V R S (write_failure a r id (unlocked u) d)
  unfolding write_failure
  write_failure-Holds id u e n =
      failure_events-Holds a U V R S r id (counted (unlocked u)) _
        (save_user-Holds U V R S id _ d (ul.failed r id u d.users e n h.users_hold) h)

  pub write_login-Holds :
      (id : ℕ) (u : User)
      → get id d.users ≡ some u
      → get r.new_token_id d.refresh_tokens ≡ none
      → find_row (has_token_id r.secret) d.refresh_tokens ≡ none
      → Holds U V R S (write_login a r id (unlocked u) d)
  unfolding write_login save_user new_session
  write_login-Holds id u e n f = create_audit_event-Holds U V R S r _ _ _ _ (
      save_session-Holds U V R S r.new_token_id (new_session a r id) _
        (sl.opened r.new_token_id (new_session a r id) d.refresh_tokens n f h.sessions_hold)
        (save_user-Holds U V R S id _ d (ul.logged_in_law r.now id u d.users e h.users_hold) h))

  pub write_rotated-Holds :
      (id : ℕ) (t : RefreshToken)
      → get id d.refresh_tokens ≡ some t
      → get r.new_token_id d.refresh_tokens ≡ none
      → find_row (has_token_id r.secret) d.refresh_tokens ≡ none
      → Holds U V R S (write_rotated a r id t d)
  unfolding write_rotated save_session new_session
  write_rotated-Holds id t e n f =
      let t' = put id (revoked r.now t) d.refresh_tokens in
      let kept = sl.revoked_law r.now id t d.refresh_tokens e h.sessions_hold in
      create_audit_event-Holds U V R S r _ _ _ _ (
        save_session-Holds U V R S r.new_token_id (new_session a r t.user_id) _
          (sl.opened r.new_token_id (new_session a r t.user_id) t'
            (get-none-put id r.new_token_id (revoked r.now t) t d.refresh_tokens e n)
            (find_row-none-put _ id (revoked r.now t) d.refresh_tokens
              (find_row-none _ id t d.refresh_tokens f e) f)
            kept)
          (save_session-Holds U V R S id (revoked r.now t) d kept h))

  pub write_logged_out-Holds :
      (id : ℕ) (t : RefreshToken)
      → get id d.refresh_tokens ≡ some t
      → Holds U V R S (write_logged_out r id t d)
  unfolding write_logged_out
  write_logged_out-Holds id t e = create_audit_event-Holds U V R S r _ _ _ _ (
      save_session-Holds U V R S id (revoked r.now t) d
        (sl.revoked_law r.now id t d.refresh_tokens e h.sessions_hold) h)

  pub write_revoked-Holds :
      (id : ℕ) (t : RefreshToken)
      → get id d.refresh_tokens ≡ some t
      → Holds U V R S (write_revoked r id t d)
  unfolding write_revoked
  write_revoked-Holds id t e = create_audit_event-Holds U V R S r _ _ _ _ (
      save_session-Holds U V R S id (revoked r.now t) d
        (sl.revoked_law r.now id t d.refresh_tokens e h.sessions_hold) h)

  pub write_forgotten-Holds :
      (user : ℕ)
      → get r.new_token_id d.reset_tokens ≡ none
      → find_row (has_hash (a.sha256 r.secret)) d.reset_tokens ≡ none
      → Holds U V R S (write_forgotten a r user d)
  unfolding write_forgotten use_resets new_reset
  write_forgotten-Holds user n f =
      let f' = used_if_of r.now user in
      create_audit_event-Holds U V R S r _ _ _ _ (
        save_reset-Holds U V R S r.new_token_id (new_reset a r user) _
          (rl.mailed r.new_token_id (new_reset a r user) (update_rows f' d.reset_tokens)
            (get-none-update_rows f' r.new_token_id d.reset_tokens n)
            (find_row-none-update_rows f' _ d.reset_tokens
              (used_if_of_hash (a.sha256 r.secret) r.now user) f)
            (rl.used_all r.now user d.reset_tokens h.resets_hold))
          (use_resets-Holds U V R S r.now user d rl h))

module _ {W : Type 0} (a : Auth W) (U : Table User → Type 0)
    (V R : Table VerificationToken → Type 0) (S : Table RefreshToken → Type 0) (ul : UserLaws a U)
    (rl : MailedLaws R) (sl : SessionLaws S) (r : Incoming) (d : AuthDb) (h : Holds U V R S d) where
  pub write_changed-Holds :
      (password : String) (id : ℕ) (u : User)
      → get id d.users ≡ some u
      → Holds U V R S (write_changed a r password id u d)
  unfolding write_changed write_password
  write_changed-Holds password id u e = create_audit_event-Holds U V R S r _ _ _ _ (
      revoke_all-Holds U V R S r.now id _ sl (
        save_user-Holds U V R S id _ d
          (ul.changed (a.hash r.salt password) id u d.users e h.users_hold) h))

  pub write_reset-Holds :
      (password : String) (id : ℕ) (t : PasswordResetToken) (u : User)
      → get id d.reset_tokens ≡ some t
      → get t.user_id d.users ≡ some u
      → Holds U V R S (write_reset a r password id t u d)
  unfolding write_reset write_password save_reset
  write_reset-Holds password id t u e f = create_audit_event-Holds U V R S r _ _ _ _ (
      revoke_all-Holds U V R S r.now t.user_id _ sl (
        save_user-Holds U V R S t.user_id _ (save_reset id (used r.now t) d)
          (ul.changed (a.hash r.salt password) t.user_id u d.users f h.users_hold)
          (save_reset-Holds U V R S id (used r.now t) d
            (rl.used_law r.now id t d.reset_tokens e h.resets_hold) h)))

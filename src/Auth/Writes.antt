-- ===== src/Auth/Writes.antt =====
-- The rows that the handlers of services/auth-service/app/routes.py write, and the laws of Laws.
use market_place_app.Prelude.{ℕ, String, Option, arith}
use market_place_app.Prelude.Table.{Table, put}
use market_place_app.Prelude.Table.Rows.{put-IsOrdered}
use market_place_app.Auth.Model.{
  User, VerificationToken, PasswordResetToken, RefreshToken, AuthDb, save_user, save_verification,
  save_reset, save_session, add_event, use_verifications, use_resets, revoke_all_user_sessions,
  used_if_of, revoked_if_of,
}
use market_place_app.Auth.Environment.{Incoming, create_audit_event}
use market_place_app.Auth.Laws.{IsOrderedDb, MailedLaws, SessionLaws}
use market_place_app.Auth.Rows.{update_rows-IsOrdered}

module _ (U : Table User → Type 0) (V R : Table VerificationToken → Type 0)
    (S : Table RefreshToken → Type 0) where
  -- The tables are in order, and each has its property.
  pub record Holds (d : AuthDb) : Type 0 where
    pub ordered : IsOrderedDb d
    pub users_hold : U d.users
    pub verifications_hold : V d.verification_tokens
    pub resets_hold : R d.reset_tokens
    pub sessions_hold : S d.refresh_tokens

  pub create_audit_event-Holds :
      (r : Incoming) (user : Option ℕ) (kind : String) (details : _) (d : AuthDb)
      → Holds d
      → Holds (create_audit_event r user kind details d)
  unfolding create_audit_event add_event
  create_audit_event-Holds r user kind details d h = ground arith

  pub save_user-Holds :
      (id : ℕ) (u : User) (d : AuthDb) → U (put id u d.users) → Holds d → Holds (save_user id u d)
  unfolding save_user
  save_user-Holds id u d p h = ground (arith, put-IsOrdered id u d.users h.ordered.users)

  pub save_verification-Holds :
      (id : ℕ) (t : VerificationToken) (d : AuthDb)
      → V (put id t d.verification_tokens)
      → Holds d
      → Holds (save_verification id t d)
  unfolding save_verification
  save_verification-Holds id t d p h =
      ground (arith, put-IsOrdered id t d.verification_tokens h.ordered.verification_tokens)

  pub save_reset-Holds :
      (id : ℕ) (t : PasswordResetToken) (d : AuthDb)
      → R (put id t d.reset_tokens)
      → Holds d
      → Holds (save_reset id t d)
  unfolding save_reset
  save_reset-Holds id t d p h =
      ground (arith, put-IsOrdered id t d.reset_tokens h.ordered.reset_tokens)

  pub save_session-Holds :
      (id : ℕ) (t : RefreshToken) (d : AuthDb)
      → S (put id t d.refresh_tokens)
      → Holds d
      → Holds (save_session id t d)
  unfolding save_session
  save_session-Holds id t d p h =
      ground (arith, put-IsOrdered id t d.refresh_tokens h.ordered.refresh_tokens)

  pub use_verifications-Holds :
      (now user : ℕ) (d : AuthDb) → MailedLaws V → Holds d → Holds (use_verifications now user d)
  unfolding use_verifications
  use_verifications-Holds now user d laws h = ground (
    arith,
    laws.used_all now user d.verification_tokens,
    update_rows-IsOrdered (used_if_of now user) d.verification_tokens h.ordered.verification_tokens,
  )

  pub use_resets-Holds :
      (now user : ℕ) (d : AuthDb) → MailedLaws R → Holds d → Holds (use_resets now user d)
  unfolding use_resets
  use_resets-Holds now user d laws h = ground (
    arith,
    laws.used_all now user d.reset_tokens,
    update_rows-IsOrdered (used_if_of now user) d.reset_tokens h.ordered.reset_tokens,
  )

  pub revoke_all-Holds :
      (now user : ℕ) (d : AuthDb)
      → SessionLaws S
      → Holds d
      → Holds (revoke_all_user_sessions now user d)
  unfolding revoke_all_user_sessions
  revoke_all-Holds now user d laws h = ground (
    arith,
    laws.revoked_all now user d.refresh_tokens,
    update_rows-IsOrdered (revoked_if_of now user) d.refresh_tokens h.ordered.refresh_tokens,
  )

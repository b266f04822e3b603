-- ===== src/Auth/Laws.antt =====
-- The writes that the handlers of services/auth-service make, as laws that a property of the database
-- may have.
use market_place_app.Prelude.{ℕ, String, ◌≡◌, false, none, some}
use market_place_app.Prelude.Table.{Table, get, put, find_row}
use market_place_app.Prelude.Table.Rows.{IsOrdered}
use market_place_app.Auth.Model.{
  User, VerificationToken, RefreshToken, AuthDb, is_admin, has_email, has_hash, has_token_id, used,
  revoked, update_rows, used_if_of, revoked_if_of,
}
use market_place_app.Auth.Environment.{Auth, Incoming}
use market_place_app.Auth.Accounts.{verified}
use market_place_app.Auth.Login.{is_locked, unlocked, after_failure, logged_in}
use market_place_app.Auth.Recovery.{with_password}

-- The keys of the tables rise.
pub record IsOrderedDb (d : AuthDb) : Type 0 where
  pub users : IsOrdered d.users
  pub verification_tokens : IsOrdered d.verification_tokens
  pub reset_tokens : IsOrdered d.reset_tokens
  pub refresh_tokens : IsOrdered d.refresh_tokens

module _ {W : Type 0} (a : Auth W) (P : Table User → Type 0) where
  -- The writes of users.
  pub record UserLaws : Type 0 where
    pub registered :
        (id : ℕ) (u : User) (t : Table User)
        → get id t ≡ none
        → find_row (has_email u.email) t ≡ none
        → is_admin u.role ≡ false
        → u.failed_login_attempts ≡ 0
        → u.locked_until ≡ none
        → P t
        → P (put id u t)
    pub verified_law :
        (id : ℕ) (u : User) (t : Table User) → get id t ≡ some u → P t → P (put id (verified u) t)
    pub failed :
        (r : Incoming) (id : ℕ) (u : User) (t : Table User)
        → get id t ≡ some u
        → is_locked r.now u.locked_until ≡ false
        → P t
        → P (put id (after_failure a r (unlocked u)) t)
    pub logged_in_law :
        (now id : ℕ) (u : User) (t : Table User)
        → get id t ≡ some u
        → P t
        → P (put id (logged_in now (unlocked u)) t)
    pub changed :
        (digest : String) (id : ℕ) (u : User) (t : Table User)
        → get id t ≡ some u
        → P t
        → P (put id (with_password digest u) t)

-- The writes of tokens that are mailed.
pub record MailedLaws (P : Table VerificationToken → Type 0) : Type 0 where
  pub mailed :
      (id : ℕ) (v : VerificationToken) (t : Table VerificationToken)
      → get id t ≡ none
      → find_row (has_hash v.token_hash) t ≡ none
      → P t
      → P (put id v t)
  pub used_law :
      (now id : ℕ) (v : VerificationToken) (t : Table VerificationToken)
      → get id t ≡ some v
      → P t
      → P (put id (used now v) t)
  pub used_all :
      (now user : ℕ) (t : Table VerificationToken) → P t → P (update_rows (used_if_of now user) t)

-- The writes of sessions.
pub record SessionLaws (P : Table RefreshToken → Type 0) : Type 0 where
  pub opened :
      (id : ℕ) (v : RefreshToken) (t : Table RefreshToken)
      → get id t ≡ none
      → find_row (has_token_id v.token_id) t ≡ none
      → P t
      → P (put id v t)
  pub revoked_law :
      (now id : ℕ) (v : RefreshToken) (t : Table RefreshToken)
      → get id t ≡ some v
      → P t
      → P (put id (revoked now v) t)
  pub revoked_all :
      (now user : ℕ) (t : Table RefreshToken) → P t → P (update_rows (revoked_if_of now user) t)

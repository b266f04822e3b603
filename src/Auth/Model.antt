-- ===== src/Auth/Model.antt =====
-- services/auth-service/app/models.py and the queries of routes.py. Times are in seconds; an id is
-- the key of its row; created_at and updated_at, which the database sets, are left out.
use market_place_app.Prelude.{
  ℕ, String, Bool, true, false, Option, some, List, [], ◌∷◌, ◌++◌, ◌==◌, ◌&&◌, str_eq,
  if◌then◌else◌, is_some, not,
}
use market_place_app.Prelude.Table.{Table, put, find_row}
use market_place_app.Auth.Texts.{strip, lower}

pub data UserRole : Type 0 where
  buyer seller admin : UserRole

pub record User : Type 0 where
  pub email : String
  pub first_name : String
  pub last_name : String
  pub password_hash : String
  pub role : UserRole
  pub is_active : Bool
  pub is_email_verified : Bool
  pub failed_login_attempts : ℕ
  pub locked_until : Option ℕ
  pub last_login_at : Option ℕ

-- A row of `verification_tokens`.
pub record VerificationToken : Type 0 where
  pub user_id : ℕ
  pub token_hash : String
  pub expires_at : ℕ
  pub used_at : Option ℕ

-- A row of `password_reset_tokens`, which has the same columns.
abbrev pub PasswordResetToken : Type 0
PasswordResetToken = VerificationToken

pub record RefreshToken : Type 0 where
  pub user_id : ℕ
  pub token_id : String
  pub user_agent : Option String
  pub ip_address : Option String
  pub expires_at : ℕ
  pub revoked_at : Option ℕ

-- What stands in the details of an audit event.
pub data Detail : Type 0 where
  text : String → Detail
  number : ℕ → Detail
  flag : Bool → Detail

-- Absent details are the empty list.
pub record AuditEvent : Type 0 where
  pub user_id : Option ℕ
  pub event_type : String
  pub ip_address : Option String
  pub user_agent : Option String
  pub details : List (String × Detail)

pub record AuthDb : Type 0 where
  pub users : Table User
  pub verification_tokens : Table VerificationToken
  pub reset_tokens : Table PasswordResetToken
  pub refresh_tokens : Table RefreshToken
  pub audit_events : List AuditEvent

-- The value of a role.
abbrev pub value : UserRole → String
value UserRole.buyer = "BUYER"
value UserRole.seller = "SELLER"
value UserRole.admin = "ADMIN"

abbrev pub is_admin : UserRole → Bool
is_admin UserRole.admin = true
is_admin _ = false

unfoldable pub normalize_email : String → String
normalize_email email = lower (strip email)

abbrev pub has_email : String → User → Bool
has_email email u = str_eq u.email email

unfoldable pub find_user_by_email : String → AuthDb → Option (ℕ × User)
find_user_by_email email db = find_row (has_email (normalize_email email)) db.users

abbrev pub has_hash : String → VerificationToken → Bool
has_hash digest t = str_eq t.token_hash digest

abbrev pub has_token_id : String → RefreshToken → Bool
has_token_id token_id t = str_eq t.token_id token_id

-- The session of a refresh token.
unfoldable pub find_session : String → ℕ → AuthDb → Option (ℕ × RefreshToken)
find_session token_id user db =
    find_row (λ t. has_token_id token_id t && t.user_id == user) db.refresh_tokens

-- Writes of a row.
unfoldable pub save_user : ℕ → User → AuthDb → AuthDb
save_user id u db = record db { users = put id u db.users }

unfoldable pub save_verification : ℕ → VerificationToken → AuthDb → AuthDb
save_verification id t db = record db { verification_tokens = put id t db.verification_tokens }

unfoldable pub save_reset : ℕ → PasswordResetToken → AuthDb → AuthDb
save_reset id t db = record db { reset_tokens = put id t db.reset_tokens }

unfoldable pub save_session : ℕ → RefreshToken → AuthDb → AuthDb
save_session id t db = record db { refresh_tokens = put id t db.refresh_tokens }

unfoldable pub add_event : AuditEvent → AuthDb → AuthDb
add_event e db = record db { audit_events = db.audit_events ++ e ∷ [] }

-- `update(...).where(...).values(...)`
unfoldable pub update_rows : {V : Type 0} → (V → V) → Table V → Table V
update_rows f [] = []
update_rows f ((k, v) ∷ t) = (k, f v) ∷ update_rows f t

abbrev pub used : ℕ → VerificationToken → VerificationToken
used now t = record t { used_at = some now }

abbrev pub used_if_of : ℕ → ℕ → VerificationToken → VerificationToken
used_if_of now user t = if t.user_id == user && not (is_some t.used_at) then used now t else t

abbrev pub revoked : ℕ → RefreshToken → RefreshToken
revoked now t = record t { revoked_at = some now }

abbrev pub revoked_if_of : ℕ → ℕ → RefreshToken → RefreshToken
revoked_if_of now user t =
    if t.user_id == user && not (is_some t.revoked_at) then revoked now t else t

-- The unused tokens of a user are invalidated.
unfoldable pub use_verifications : ℕ → ℕ → AuthDb → AuthDb
unfolding update_rows
use_verifications now user db = record db {
  verification_tokens = update_rows (used_if_of now user) db.verification_tokens;
}

unfoldable pub use_resets : ℕ → ℕ → AuthDb → AuthDb
unfolding update_rows
use_resets now user db = record db {
  reset_tokens = update_rows (used_if_of now user) db.reset_tokens;
}

unfoldable pub revoke_all_user_sessions : ℕ → ℕ → AuthDb → AuthDb
unfolding update_rows
revoke_all_user_sessions now user db = record db {
  refresh_tokens = update_rows (revoked_if_of now user) db.refresh_tokens;
}

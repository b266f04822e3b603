-- ===== src/Auth/Knocks.antt =====
-- The branches of `login` of services/auth-service/app/routes.py, and those of the guard of Lockout.
use market_place_app.Prelude.{ℕ, String, ◌≡◌, refl, ◌∙◌, Bool, true, false, some, arith}
use market_place_app.Prelude.Session.{ok, err, request}
use market_place_app.Auth.Model.{
  User, AuthDb, find_user_by_email, save_user, save_session, add_event,
}
use market_place_app.Auth.Environment.{
  Auth, Incoming, http, invalid_credentials, account_locked, minutes, verify_password,
  breaks_session, create_audit_event,
}
use market_place_app.Auth.Login.{
  LoginRequest, is_locked, unlocked, logged_in, after_failure, failure_events, write_failure,
  write_login, token_response, open_session, fail_login, check_password, login,
}
use market_place_app.Auth.Laws.{IsOrderedDb}
use market_place_app.Auth.Lockout.{
  refused, locked, welcome, counting, knock, guard_of, Account, save_user-Account, Account-users,
}

module _ {W : Type 0} (a : Auth W) (r : Incoming) (body : LoginRequest) (id : ℕ) (u : User)
    (d : AuthDb) (w : W) (e : find_user_by_email body.email d ≡ some (id, u)) where
  pub login_locked :
      is_locked r.now u.locked_until ≡ true
      → request (login a r body) d w ≡ (err (http 423 account_locked), d, w)
  unfolding login check_password
  login_locked l = ground arith

  pub login_wrong :
      is_locked r.now u.locked_until ≡ false
      → verify_password a body.password u.password_hash ≡ false
      → request (login a r body) d w
        ≡ (err (http 401 invalid_credentials), write_failure a r id (unlocked u) d, w)
  unfolding login check_password fail_login
  login_wrong l v = ground arith

  pub login_right :
      is_locked r.now u.locked_until ≡ false
      → verify_password a body.password u.password_hash ≡ true
      → u.is_active ≡ true
      → u.is_email_verified ≡ true
      → breaks_session r d ≡ false
      → request (login a r body) d w
        ≡ (ok (token_response a r id (unlocked u)), write_login a r id (unlocked u) d, w)
  unfolding login check_password open_session unlocked
  login_right l v active verified_ fresh_ = ground arith

module _ {W : Type 0} (a : Auth W) (r : Incoming) (id : ℕ) (u v : User) (d : AuthDb) where
  pub failure_events_users : (failure_events a r id v d).users ≡ d.users
  unfolding failure_events create_audit_event add_event
  failure_events_users = ground arith

  pub write_login_users :
      (write_login a r id u d).users ≡ (save_user id (logged_in r.now u) d).users
  unfolding write_login create_audit_event add_event save_session
  write_login_users = refl

abbrev pub limit : {W : Type 0} → Auth W → ℕ
limit a = a.settings.max_failed_login_attempts

abbrev pub period : {W : Type 0} → Auth W → ℕ
period a = minutes a.settings.account_lock_minutes

module _ {W : Type 0} (a : Auth W) (r : Incoming) (u : User) where
  -- The guard of a user whose lock is on.
  pub knock-locked :
      (right : Bool)
      → is_locked r.now u.locked_until ≡ true
      → knock (limit a) (period a) r.now right (guard_of u) ≡ (locked, guard_of u)
  knock-locked right l = ground arith

  pub knock_right :
      is_locked r.now u.locked_until ≡ false
      → knock (limit a) (period a) r.now true (guard_of u) ≡ (welcome, counting 0)
  knock_right l = ground arith

  pub knock_wrong :
      is_locked r.now u.locked_until ≡ false
      → knock (limit a) (period a) r.now false (guard_of u)
        ≡ (refused, guard_of (after_failure a r (unlocked u)))
  unfolding after_failure unlocked
  knock_wrong l = ground arith

-- The same person: what a login never writes.
abbrev IsSame : User → User → Type 0
IsSame v u =
    (v.email ≡ u.email)
    × (v.is_active ≡ u.is_active)
    × (v.is_email_verified ≡ u.is_email_verified)
    × (v.password_hash ≡ u.password_hash)

pub unlocked-IsSame : (u : User) → IsSame (unlocked u) u
unfolding unlocked
unlocked-IsSame u = ground arith

pub after_failure-IsSame :
    {W : Type 0} (a : Auth W) (r : Incoming) (u : User) → IsSame (after_failure a r (unlocked u)) u
unfolding after_failure
after_failure-IsSame a r u = ground (arith, unlocked-IsSame u)

-- A write of the same person.
pub save_same-Account :
    (email : String) (id : ℕ) (u v : User) (d d' : AuthDb)
    → IsOrderedDb d
    → find_user_by_email email d ≡ some (id, u)
    → u.is_active ≡ true
    → u.is_email_verified ≡ true
    → IsSame v u
    → d'.users ≡ (save_user id v d).users
    → Account email u.password_hash (guard_of v) d'
save_same-Account email id u v d d' o e active verified_ (same, act, ver, hash) users =
    Account-users email u.password_hash (guard_of v) (save_user id v d) d' users (
      save_user-Account email u.password_hash (guard_of v) id u v d o e same (act ∙ active)
        (ver ∙ verified_) hash refl)

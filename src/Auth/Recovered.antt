-- ===== src/Auth/Recovered.antt =====
-- A login after a password reset (services/auth-service/app/routes.py), and the scopes of service
-- tokens.
use market_place_app.Prelude.{
  ℕ, String, ◌≡◌, refl, sym, subst, ap, ◌∙◌, Bool, true, false, none, some, Option, arith,
}
use market_place_app.Prelude.Table.{get, find_row}
use market_place_app.Prelude.Table.Rows.{find_row-stored}
use market_place_app.Prelude.Session.{ok, request}
use market_place_app.Auth.Model.{
  User, PasswordResetToken, AuthDb, has_hash, find_user_by_email, save_user, save_reset,
  revoke_all_user_sessions, add_event,
}
use market_place_app.Auth.Environment.{
  Auth, Incoming, create_audit_event, breaks_session, verify_password,
}
use market_place_app.Auth.Login.{LoginRequest, login}
use market_place_app.Auth.Recovery.{
  ResetPasswordRequest, reset_password, apply_reset, write_reset, write_password, with_password,
}
use market_place_app.Auth.Laws.{IsOrderedDb}
use market_place_app.Auth.Kept.{reset_password-Holds}
use market_place_app.Auth.Sessions.{Anything, any_users, any_mailed, any_sessions}
use market_place_app.Auth.Rotation.{nothing_held}
use market_place_app.Auth.Lockout.{
  counting, welcome, verdict_of, Account, save_user-Account, Account-users, knock,
}
use market_place_app.Auth.Knocks.{limit, period}
use market_place_app.Auth.Logins.{login-Step}

module _ {W : Type 0} (a : Auth W) (r : Incoming) (body : ResetPasswordRequest) (id : ℕ)
    (t : PasswordResetToken) (u : User) (answer : String) (d : AuthDb) (w : W)
    (e : find_row (has_hash (a.sha256 body.token)) d.reset_tokens ≡ some (id, t))
    (stored : get t.user_id d.users ≡ some u)
    (g : (request (reset_password a r body) d w).0 ≡ ok answer) where
  -- A reset that is answered found its user active, and wrote the rows.
  reset_leaves :
      (u.is_active ≡ true)
      × ((request (reset_password a r body) d w).1 ≡ write_reset a r body.new_password id t u d)
  unfolding reset_password apply_reset
  reset_leaves = ground arith

  reset-Account :
      (email : String)
      → IsOrderedDb d
      → find_user_by_email email d ≡ some (t.user_id, u)
      → u.is_email_verified ≡ true
      → Account email
          (a.hash r.salt body.new_password)
          (counting 0)
          (write_reset a r body.new_password id t u d)
  unfolding write_reset write_password create_audit_event add_event save_user save_reset
      revoke_all_user_sessions
  reset-Account email o f verified_ =
      let v = with_password (a.hash r.salt body.new_password) u in
      Account-users email (a.hash r.salt body.new_password) (counting 0) (save_user t.user_id v d) _
        refl
        (save_user-Account email (a.hash r.salt body.new_password) (counting 0) t.user_id u v d o f
          refl reset_leaves.0 verified_ refl refl)

-- After a password reset that is answered, the user of a verified account logs in with the new
-- password, even where the account was locked; where bcrypt accepts the password that it hashed and
-- the drawn session key is new.
pub reset_then_login :
    {W : Type 0} (a : Auth W) (r later : Incoming) (body : ResetPasswordRequest) (id : ℕ)
    (t : PasswordResetToken) (u : User) (answer email : String) (d : AuthDb) (w w' : W)
    → IsOrderedDb d
    → find_row (has_hash (a.sha256 body.token)) d.reset_tokens ≡ some (id, t)
    → find_user_by_email email d ≡ some (t.user_id, u)
    → u.is_email_verified ≡ true
    → a.verify body.new_password (a.hash r.salt body.new_password) ≡ some true
    → (request (reset_password a r body) d w).0 ≡ ok answer
    → breaks_session later (request (reset_password a r body) d w).1 ≡ false
    → let body' : LoginRequest = record { email = email; password = body.new_password } in
      verdict_of (request (login a later body') (request (reset_password a r body) d w).1 w').0
      ≡ welcome
unfolding find_user_by_email verify_password
reset_then_login a r later body id t u answer email d w w' o e f verified_ good g new =
    let stored = find_row-stored _ d.users t.user_id u o.users f in
    let hash = a.hash r.salt body.new_password in
    let d' = (request (reset_password a r body) d w).1 in
    let after =
      reset_password-Holds a Anything Anything Anything Anything (any_users a) any_mailed any_mailed
        any_sessions r d w (nothing_held d o) body in
    let account : Account email hash (counting 0) d' =
      subst (λ (x : AuthDb). Account email hash (counting 0) x)
        (sym (reset_leaves a r body id t u answer d w e stored g).1)
        (reset-Account a r body id t u answer d w e stored g email o f verified_) in
    let step =
      login-Step a later email body.new_password d' w' hash (counting 0) after.ordered account
        new in
    step.0
    ∙ ap (λ (b : Bool). (knock (limit a) (period a) later.now b (counting 0)).0)
        (ap (λ (x : Option Bool). elim x [ none ↦ false | some b ↦ b ]) good)

-- ===== src/Auth/Passwords.antt =====
-- The sessions of a user of services/auth-service/app/routes.py whose password is changed.
use market_place_app.Prelude.{ℕ, String, ◌≡◌, refl, true, some, arith, Option-cases, inl, inr, List}
use market_place_app.Prelude.Table.{get, find_row, find_row-some}
use market_place_app.Prelude.Session.{ok, request}
use market_place_app.Auth.Model.{
  User, PasswordResetToken, RefreshToken, AuthDb, has_hash, find_session, revoked_if_of,
  revoke_all_user_sessions, save_user, save_reset, add_event,
}
use market_place_app.Auth.Environment.{Auth, Incoming, Claims, create_audit_event}
use market_place_app.Auth.Dependencies.{get_current_user}
use market_place_app.Auth.Tokens.{read_claims, refresh_access_token}
use market_place_app.Auth.Recovery.{
  ResetPasswordRequest, ChangePasswordRequest, reset_password, change_password, apply_reset,
  apply_change, refuse_change, write_password, write_reset, write_changed,
}
use market_place_app.Auth.Runs.{Call, run}
use market_place_app.Auth.Laws.{IsOrderedDb}
use market_place_app.Auth.Callers.{get_current_user_reads}
use market_place_app.Auth.Rows.{update_rows-IsOrdered}
use market_place_app.Auth.Kept.{reset_password-Holds, change_password-Holds}
use market_place_app.Auth.Marks.{Spent, is_of, has_been_revoked, update_rows-Marked}
use market_place_app.Auth.Sessions.{
  Anything, any_users, any_mailed, any_sessions, is_unauthorized, run-Spent, fresh,
}
use market_place_app.Auth.Rotation.{nothing_held, named-refused}

module _ (token_id : String) (user now id : ℕ) (t : RefreshToken) (d : AuthDb) (o : IsOrderedDb d)
    (e : find_session token_id user d ≡ some (id, t)) where
  revoke_all-Spent : Spent token_id user (revoke_all_user_sessions now user d).refresh_tokens
  unfolding revoke_all_user_sessions find_session
  revoke_all-Spent =
      let f = revoked_if_of now user in
      let found = find_row-some (is_of token_id user) d.refresh_tokens id t e in
      (
        update_rows-IsOrdered f d.refresh_tokens o.refresh_tokens,
        update_rows-Marked (is_of token_id user) has_been_revoked f id t d.refresh_tokens
            (λ v. ground arith) (ground arith) e,
      )

module _ {W : Type 0} (a : Auth W) (r : Incoming) (d : AuthDb) (w : W) (token_id : String)
    (user sid : ℕ) (session : RefreshToken) (o : IsOrderedDb d)
    (e : find_session token_id user d ≡ some (sid, session)) where
  write_reset-Spent :
      (password : String) (id : ℕ) (t : PasswordResetToken) (u : User)
      → t.user_id ≡ user
      → Spent token_id user (write_reset a r password id t u d).refresh_tokens
  unfolding write_reset write_password create_audit_event add_event save_user save_reset
      revoke_all_user_sessions
  write_reset-Spent password id t u same =
      ground (arith, revoke_all-Spent token_id user r.now sid session d o e)

  write_changed-Spent :
      (password : String) (u : User)
      → Spent token_id user (write_changed a r password user u d).refresh_tokens
  unfolding write_changed write_password create_audit_event add_event save_user
      revoke_all_user_sessions
  write_changed-Spent password u = revoke_all-Spent token_id user r.now sid session d o e

  -- A reset that is answered revokes the user's sessions.
  reset-Spent :
      (body : ResetPasswordRequest) (id : ℕ) (t : PasswordResetToken) (answer : String)
      → find_row (has_hash (a.sha256 body.token)) d.reset_tokens ≡ some (id, t)
      → t.user_id ≡ user
      → (request (reset_password a r body) d w).0 ≡ ok answer
      → Spent token_id user (request (reset_password a r body) d w).1.refresh_tokens
  unfolding reset_password apply_reset
  reset-Spent body id t answer f same g = elim (Option-cases (get t.user_id d.users)) [
    | inl n ↦ ground arith
    | inr (u, n) ↦ ground (arith, write_reset-Spent body.new_password id t u same)
  ]

  -- A change that is answered revokes the caller's sessions.
  change-Spent :
      (access : String) (body : ChangePasswordRequest) (u : User) (answer : String)
      → (get_current_user a r access (fresh a r d w)).0 ≡ ok (user, u)
      → (request (change_password a r access body) d w).0 ≡ ok answer
      → Spent token_id user (request (change_password a r access body) d w).1.refresh_tokens
  unfolding change_password apply_change refuse_change
  change-Spent access body u answer f g = ground (
    arith,
    get_current_user_reads a (fresh a r d w) r access,
    write_changed-Spent body.new_password u,
  )

-- After a password reset that is answered, a refresh token that names a session which the user had
-- before is refused, after any requests, and the refusal changes nothing; where the library reads
-- the same claims of that token at any time.
pub reset_ends_sessions :
    {W : Type 0} (a : Auth W) (r later : Incoming) (body : ResetPasswordRequest) (id : ℕ)
    (t : PasswordResetToken) (answer token token_id : String) (sid : ℕ) (session : RefreshToken)
    (claims : Claims) (cs : List Call) (d : AuthDb) (w w' w'' : W)
    → IsOrderedDb d
    → find_row (has_hash (a.sha256 body.token)) d.reset_tokens ≡ some (id, t)
    → (request (reset_password a r body) d w).0 ≡ ok answer
    → find_session token_id t.user_id d ≡ some (sid, session)
    → (read_claims a 401 claims (fresh a r d w)).0 ≡ ok (token_id, t.user_id)
    → ((c : Claims) → a.decode_refresh later.now token ≡ some c → claims ≡ c)
    → let d' = (run a cs (request (reset_password a r body) d w).1 w').0 in
      (is_unauthorized (request (refresh_access_token a later token) d' w'').0 ≡ true)
      × ((request (refresh_access_token a later token) d' w'').1 ≡ d')
reset_ends_sessions a r later body id t answer token token_id sid session claims cs d w w' w'' o f g
      e named same =
    let after =
      reset_password-Holds a Anything Anything Anything Anything (any_users a) any_mailed any_mailed
        any_sessions r d w (nothing_held d o) body in
    named-refused a later token token_id t.user_id claims (fresh a r d w) _ w'' same named (
      run-Spent a token_id t.user_id cs _ w' after.ordered
        (reset-Spent a r d w token_id t.user_id sid session o e body id t answer f refl g))

-- After a password change that is answered, a refresh token that names a session which the caller had
-- before is refused, after any requests, and the refusal changes nothing; where the library reads
-- the same claims of that token at any time.
pub change_ends_sessions :
    {W : Type 0} (a : Auth W) (r later : Incoming) (access : String) (body : ChangePasswordRequest)
    (user : ℕ) (u : User) (answer token token_id : String) (sid : ℕ) (session : RefreshToken)
    (claims : Claims) (cs : List Call) (d : AuthDb) (w w' w'' : W)
    → IsOrderedDb d
    → (get_current_user a r access (fresh a r d w)).0 ≡ ok (user, u)
    → (request (change_password a r access body) d w).0 ≡ ok answer
    → find_session token_id user d ≡ some (sid, session)
    → (read_claims a 401 claims (fresh a r d w)).0 ≡ ok (token_id, user)
    → ((c : Claims) → a.decode_refresh later.now token ≡ some c → claims ≡ c)
    → let d' = (run a cs (request (change_password a r access body) d w).1 w').0 in
      (is_unauthorized (request (refresh_access_token a later token) d' w'').0 ≡ true)
      × ((request (refresh_access_token a later token) d' w'').1 ≡ d')
change_ends_sessions a r later access body user u answer token token_id sid session claims cs d w w'
      w'' o f g e named same =
    let after =
      change_password-Holds a Anything Anything Anything Anything (any_users a) any_mailed
        any_mailed any_sessions r d w (nothing_held d o) access body in
    named-refused a later token token_id user claims (fresh a r d w) _ w'' same named (
      run-Spent a token_id user cs _ w' after.ordered
        (change-Spent a r d w token_id user sid session o e access body u answer f g))

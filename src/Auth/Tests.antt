-- ===== src/Auth/Tests.antt =====
-- Concrete runs of services/auth-service.
use market_place_app.Prelude.{String, true, false, some, List, [], ◌∷◌, ◌≡◌, refl, arith, inl, map}
use market_place_app.Prelude.Table.{get, put, find_row}
use market_place_app.Prelude.Table.Rows.{AllRows}
use market_place_app.Prelude.Session.{ok, request}
use market_place_app.Auth.Texts.{
  strip, lower, left_stripped, right_stripped, before_comma, first_letters,
}
use market_place_app.Auth.Model.{
  AuthDb, normalize_email, find_user_by_email, find_session, save_user, save_reset, save_session,
  add_event, update_rows, revoke_all_user_sessions, has_hash,
}
use market_place_app.Auth.Environment.{
  Incoming, get_client_ip, get_user_agent, audit_event, create_audit_event, verify_password,
  create_access_token, create_refresh_token, decode_jwt_token, new_session, breaks_session,
}
use market_place_app.Auth.Dependencies.{get_current_user}
use market_place_app.Auth.Accounts.{verify_email, confirm}
use market_place_app.Auth.Login.{
  TokenResponse, unlocked, after_failure, failure_events, write_failure, write_login,
  token_response, open_session, fail_login, check_password, login,
}
use market_place_app.Auth.Tokens.{read_claims, rotate, refresh_access_token}
use market_place_app.Auth.Recovery.{
  ResetPasswordRequest, ChangePasswordRequest, write_password, write_reset, apply_reset,
  reset_password, apply_change, change_password,
}
use market_place_app.Auth.Runs.{run}
use market_place_app.Auth.Sessions.{is_unauthorized, fresh}
use market_place_app.Auth.Rotation.{refresh_once}
use market_place_app.Auth.Passwords.{reset_ends_sessions, change_ends_sessions}
use market_place_app.Auth.Once.{is_bad_request, reset_once, verify_once}
use market_place_app.Auth.Users.{
  admin_at, run-admin_at, EmailsDiffer, run-EmailsDiffer, IsGuarded, run-IsGuarded,
}
use market_place_app.Auth.Lockout.{
  counting, welcome, refused, locked, verdict_of, knocks, logins, Account, AllFresh,
}
use market_place_app.Auth.Logins.{logins-knocks, seen_as}
use market_place_app.Auth.Recovered.{reset_then_login}
use market_place_app.Auth.Samples.{
  ann, at, auth, calls, claims, db, db-IsOrderedDb, mailed, session,
}

bob_email : normalize_email " Bob@Example.com " ≡ "bob@example.com"
unfolding normalize_email strip left_stripped right_stripped lower
bob_email = refl

abbrev tokens : TokenResponse
tokens = record {
  access_token = "access";
  refresh_token = "refresh";
  token_type = "bearer";
  expires_in = 900;
}

is_rotated : (request (refresh_access_token auth (at 10 2 "two") "refresh") db 0).0 ≡ ok tokens
unfolding refresh_access_token decode_jwt_token read_claims find_session find_row rotate get
    breaks_session token_response create_access_token create_refresh_token
is_rotated = refl

refresh_once_example :
    (let d' =
        (run auth calls
          (request (refresh_access_token auth (at 10 2 "two") "refresh") db 0).1
          1).0 in
      (is_unauthorized (request (refresh_access_token auth (at 60 11 "eleven") "refresh") d' 2).0
        ≡ true)
      × ((request (refresh_access_token auth (at 60 11 "eleven") "refresh") d' 2).1 ≡ d'))
refresh_once_example =
    refresh_once auth (at 10 2 "two") (at 60 11 "eleven") "refresh" tokens calls db 0 1 2
      (λ c c' e f. cc) db-IsOrderedDb is_rotated

abbrev new_password : ResetPasswordRequest
new_password = record { token = "reset"; new_password = "new-password" }

abbrev reset_message : String
reset_message = "Password reset successfully. Please sign in with your new password."

is_reset : (request (reset_password auth (at 10 2 "two") new_password) db 0).0 ≡ ok reset_message
unfolding reset_password apply_reset get find_row verify_password
is_reset = refl

reset_found : find_row (has_hash "reset") db.reset_tokens ≡ some (1, mailed "reset")
unfolding find_row
reset_found = refl

session_found : find_session "session" 1 db ≡ some (1, session)
unfolding find_session find_row
session_found = refl

refresh_named :
    (read_claims auth 401 (claims "refresh") (fresh auth (at 10 2 "two") db 0)).0
    ≡ ok ("session", 1)
unfolding read_claims
refresh_named = refl

reset_ends_sessions_example :
    (let d' =
        (run auth calls (request (reset_password auth (at 10 2 "two") new_password) db 0).1 1).0 in
      (is_unauthorized (request (refresh_access_token auth (at 60 11 "eleven") "refresh") d' 2).0
        ≡ true)
      × ((request (refresh_access_token auth (at 60 11 "eleven") "refresh") d' 2).1 ≡ d'))
reset_ends_sessions_example =
    reset_ends_sessions auth (at 10 2 "two") (at 60 11 "eleven") new_password 1 (mailed "reset")
      reset_message "refresh" "session" 1 session (claims "refresh") calls db 0 1 2 db-IsOrderedDb
      reset_found is_reset session_found refresh_named (λ c e. cc)

abbrev change : ChangePasswordRequest
change = record { current_password = "old-password"; new_password = "new-password" }

abbrev change_message : String
change_message = "Password changed successfully. Please sign in again."

ann_calls :
    (get_current_user auth (at 10 2 "two") "access" (fresh auth (at 10 2 "two") db 0)).0
    ≡ ok (1, ann)
unfolding get_current_user get
ann_calls = refl

is_changed :
    (request (change_password auth (at 10 2 "two") "access" change) db 0).0 ≡ ok change_message
unfolding change_password apply_change get_current_user get verify_password
is_changed = refl

change_ends_sessions_example :
    (let d' =
        (run auth calls
          (request (change_password auth (at 10 2 "two") "access" change) db 0).1
          1).0 in
      (is_unauthorized (request (refresh_access_token auth (at 60 11 "eleven") "refresh") d' 2).0
        ≡ true)
      × ((request (refresh_access_token auth (at 60 11 "eleven") "refresh") d' 2).1 ≡ d'))
change_ends_sessions_example =
    change_ends_sessions auth (at 10 2 "two") (at 60 11 "eleven") "access" change 1 ann
      change_message "refresh" "session" 1 session (claims "refresh") calls db 0 1 2 db-IsOrderedDb
      ann_calls is_changed session_found refresh_named (λ c e. cc)

reset_once_example :
    (let d' =
        (run auth calls (request (reset_password auth (at 10 2 "two") new_password) db 0).1 1).0 in
      (is_bad_request (request (reset_password auth (at 60 11 "eleven") new_password) d' 2).0
        ≡ true)
      × ((request (reset_password auth (at 60 11 "eleven") new_password) d' 2).1 ≡ d'))
reset_once_example =
    reset_once auth (at 10 2 "two") (at 60 11 "eleven") new_password new_password reset_message
      calls db 0 1 2 db-IsOrderedDb is_reset refl

is_verified :
    (request (verify_email auth (at 10 2 "two") "verify") db 0).0 ≡ ok "Email verified successfully"
unfolding verify_email confirm get find_row
is_verified = refl

verify_once_example :
    (let d' = (run auth calls (request (verify_email auth (at 10 2 "two") "verify") db 0).1 1).0 in
      (is_bad_request (request (verify_email auth (at 60 11 "eleven") "verify") d' 2).0 ≡ true)
      × ((request (verify_email auth (at 60 11 "eleven") "verify") d' 2).1 ≡ d'))
verify_once_example =
    verify_once auth (at 10 2 "two") (at 60 11 "eleven") "verify" "verify"
      "Email verified successfully" calls db 0 1 2 db-IsOrderedDb is_verified refl

run-admin_at_example : admin_at 7 (run auth calls db 0).0.users ≡ admin_at 7 db.users
run-admin_at_example = run-admin_at auth 7 calls db 0 db-IsOrderedDb

run-EmailsDiffer_example : EmailsDiffer (run auth calls db 0).0.users
unfolding find_row
run-EmailsDiffer_example = run-EmailsDiffer auth calls db 0 db-IsOrderedDb (refl, tt)

run-IsGuarded_example : AllRows (IsGuarded 2) (run auth calls db 0).0.users
run-IsGuarded_example =
    run-IsGuarded auth calls db 0 (omega arith) db-IsOrderedDb (inl (omega arith), tt)

-- Two wrong passwords lock the account, and the lock ends.
abbrev attempts : List (Incoming × String)
attempts =
    (at 10 2 "two", "guess")
    ∷ (at 20 3 "three", "another")
    ∷ (at 30 4 "four", "old-password")
    ∷ (at 920 5 "five", "old-password")
    ∷ []

ann-Account : Account "Ann@example.com" "hashed old-password" (counting 0) db
unfolding find_user_by_email normalize_email strip left_stripped right_stripped lower find_row
ann-Account = record {
  id = 1;
  user = ann;
  found = refl;
  active = refl;
  verified = refl;
  hashed = refl;
  guarded = refl;
}

attempts-AllFresh : AllFresh auth "Ann@example.com" attempts db 0
unfolding login find_user_by_email normalize_email strip left_stripped right_stripped lower find_row
    check_password verify_password fail_login open_session breaks_session get put unlocked
    write_failure after_failure failure_events save_user write_login save_session new_session
    create_audit_event audit_event get_client_ip get_user_agent add_event before_comma first_letters
attempts-AllFresh = (refl, (refl, (refl, (refl, tt))))

logins-knocks_example :
    (let k = knocks 2 900 (map (seen_as auth "hashed old-password") attempts) (counting 0) in
      ((logins auth "Ann@example.com" attempts db 0).0 ≡ k.0)
      × Account "Ann@example.com" "hashed old-password"
          (k.1)
          (logins auth "Ann@example.com" attempts db 0).1)
logins-knocks_example =
    logins-knocks auth "Ann@example.com" "hashed old-password" (counting 0) attempts db 0
      db-IsOrderedDb ann-Account attempts-AllFresh

verdicts :
    (knocks 2 900 (map (seen_as auth "hashed old-password") attempts) (counting 0)).0
    ≡ refused ∷ refused ∷ locked ∷ welcome ∷ []
unfolding knocks verify_password
verdicts = refl

ann_found : find_user_by_email "ann@example.com" db ≡ some (1, ann)
unfolding find_user_by_email normalize_email strip left_stripped right_stripped lower find_row
ann_found = refl

abbrev second : AuthDb
second = (request (reset_password auth (at 10 2 "two") new_password) db 0).1

second_fresh : breaks_session (at 60 11 "eleven") second ≡ false
unfolding breaks_session reset_password apply_reset get put find_row verify_password write_reset
    write_password create_audit_event add_event save_user save_reset revoke_all_user_sessions
    update_rows
second_fresh = refl

reset_then_login_example :
    verdict_of
      (request
        (login auth
          (at 60 11 "eleven")
          (record { email = "ann@example.com"; password = "new-password" }))
        second
        1).0
    ≡ welcome
reset_then_login_example =
    reset_then_login auth (at 10 2 "two") (at 60 11 "eleven") new_password 1 (mailed "reset") ann
      reset_message "ann@example.com" db 0 1 db-IsOrderedDb reset_found ann_found refl refl is_reset
      second_fresh

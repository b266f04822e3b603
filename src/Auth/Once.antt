-- ===== src/Auth/Once.antt =====
-- The tokens that services/auth-service/app/routes.py mails, when they are sent again.
use market_place_app.Prelude.{
  ℕ, String, ◌≡◌, refl, Bool, true, false, some, arith, Option-cases, inl, inr, List, ◌==◌,
}
use market_place_app.Prelude.Table.{Table, get, put, find_row}
use market_place_app.Prelude.Table.Rows.{IsOrdered, put-IsOrdered}
use market_place_app.Prelude.Session.{Result, ok, err, service_error, request}
use market_place_app.Auth.Model.{
  VerificationToken, AuthDb, has_hash, used, revoke_all_user_sessions, save_user, save_reset,
  save_verification, add_event,
}
use market_place_app.Auth.Environment.{Auth, Incoming, Error, create_audit_event}
use market_place_app.Auth.Accounts.{verify_email, confirm, write_verified}
use market_place_app.Auth.Recovery.{
  ResetPasswordRequest, reset_password, apply_reset, write_password, write_reset,
}
use market_place_app.Auth.Runs.{Call, run}
use market_place_app.Auth.Laws.{IsOrderedDb}
use market_place_app.Auth.Keeping.{verify_email-Holds}
use market_place_app.Auth.Kept.{reset_password-Holds, run-Holds}
use market_place_app.Auth.Marks.{Used, Used-laws, has_been_used, put-Marked}
use market_place_app.Auth.Sessions.{Anything, any_users, any_mailed, any_sessions}
use market_place_app.Auth.Rotation.{nothing_held}

abbrev pub is_bad_request : {A : Type 0} → Result Error A → Bool
is_bad_request (err (service_error status reason)) = status == 400
is_bad_request _ = false

module _ {W : Type 0} (a : Auth W) (digest : String) (cs : List Call) (d : AuthDb) (w : W)
    (o : IsOrderedDb d) where
  run-Used_reset : Used digest d.reset_tokens → Used digest (run a cs d w).0.reset_tokens
  run-Used_reset s =
      (run-Holds a Anything Anything (Used digest) Anything (any_users a) any_mailed
        (Used-laws digest) any_sessions cs d w
        (record {
          ordered = o;
          users_hold = tt;
          verifications_hold = tt;
          resets_hold = s;
          sessions_hold = tt;
        })).resets_hold

  run-Used_verification :
      Used digest d.verification_tokens → Used digest (run a cs d w).0.verification_tokens
  run-Used_verification s =
      (run-Holds a Anything (Used digest) Anything Anything (any_users a) (Used-laws digest)
        any_mailed any_sessions cs d w
        (record {
          ordered = o;
          users_hold = tt;
          verifications_hold = s;
          resets_hold = tt;
          sessions_hold = tt;
        })).verifications_hold

used-Used :
    (digest : String) (now id : ℕ) (t : VerificationToken) (rows : Table VerificationToken)
    → IsOrdered rows
    → find_row (has_hash digest) rows ≡ some (id, t)
    → Used digest (put id (used now t) rows)
used-Used digest now id t rows o e = (
  put-IsOrdered id (used now t) rows o,
  put-Marked (has_hash digest) has_been_used id (used now t) t rows o e refl refl,
)

module _ {W : Type 0} (a : Auth W) (r : Incoming) (d : AuthDb) (w : W) where
  -- A reset that is answered uses its token.
  reset-Used :
      (body : ResetPasswordRequest) (answer : String)
      → IsOrderedDb d
      → (request (reset_password a r body) d w).0 ≡ ok answer
      → Used (a.sha256 body.token) (request (reset_password a r body) d w).1.reset_tokens
  unfolding reset_password apply_reset write_reset write_password create_audit_event add_event
      save_user save_reset revoke_all_user_sessions
  reset-Used body answer o g =
      elim (Option-cases (find_row (has_hash (a.sha256 body.token)) d.reset_tokens)) [
        | inl e ↦ ground arith
        | inr ((id, t), e) ↦ elim (Option-cases (get t.user_id d.users)) [
          | inl n ↦ ground arith
          | inr (u, n) ↦
              ground
                (arith, used-Used (a.sha256 body.token) r.now id t d.reset_tokens o.reset_tokens e)
        ]
      ]

  Used-reset_refused :
      (body : ResetPasswordRequest)
      → Used (a.sha256 body.token) d.reset_tokens
      → (is_bad_request (request (reset_password a r body) d w).0 ≡ true)
        × ((request (reset_password a r body) d w).1 ≡ d)
  unfolding reset_password apply_reset
  Used-reset_refused body u =
      elim (Option-cases (find_row (has_hash (a.sha256 body.token)) d.reset_tokens)) [
        | inl e ↦ ground arith
        | inr ((id, t), e) ↦ ground arith
      ]

  -- A verification that is answered uses its token.
  verify-Used :
      (token answer : String)
      → IsOrderedDb d
      → (request (verify_email a r token) d w).0 ≡ ok answer
      → Used (a.sha256 token) (request (verify_email a r token) d w).1.verification_tokens
  unfolding verify_email confirm write_verified create_audit_event add_event save_user
      save_verification
  verify-Used token answer o g =
      elim (Option-cases (find_row (has_hash (a.sha256 token)) d.verification_tokens)) [
        | inl e ↦ ground arith
        | inr ((id, t), e) ↦ elim (Option-cases (get t.user_id d.users)) [
          | inl n ↦ ground arith
          | inr (u, n) ↦ ground (
            arith,
            used-Used (a.sha256 token) r.now id t d.verification_tokens o.verification_tokens e,
          )
        ]
      ]

  Used-verify_refused :
      (token : String)
      → Used (a.sha256 token) d.verification_tokens
      → (is_bad_request (request (verify_email a r token) d w).0 ≡ true)
        × ((request (verify_email a r token) d w).1 ≡ d)
  unfolding verify_email confirm
  Used-verify_refused token u =
      elim (Option-cases (find_row (has_hash (a.sha256 token)) d.verification_tokens)) [
        | inl e ↦ ground arith
        | inr ((id, t), e) ↦ ground arith
      ]

-- Once a password reset is answered, every later reset with a token of the same hash is refused,
-- after any requests, and changes nothing.
pub reset_once :
    {W : Type 0} (a : Auth W) (r later : Incoming) (body again : ResetPasswordRequest)
    (answer : String) (cs : List Call) (d : AuthDb) (w w' w'' : W)
    → IsOrderedDb d
    → (request (reset_password a r body) d w).0 ≡ ok answer
    → a.sha256 again.token ≡ a.sha256 body.token
    → let d' = (run a cs (request (reset_password a r body) d w).1 w').0 in
      (is_bad_request (request (reset_password a later again) d' w'').0 ≡ true)
      × ((request (reset_password a later again) d' w'').1 ≡ d')
reset_once a r later body again answer cs d w w' w'' o g same =
    let after =
      reset_password-Holds a Anything Anything Anything Anything (any_users a) any_mailed any_mailed
        any_sessions r d w (nothing_held d o) body in
    Used-reset_refused a later _ w'' again (
      rw same (
        run-Used_reset a (a.sha256 body.token) cs _ w' after.ordered
          (reset-Used a r d w body answer o g)))

-- Once an email is verified, every later verification with a token of the same hash is refused, after
-- any requests, and changes nothing.
pub verify_once :
    {W : Type 0} (a : Auth W) (r later : Incoming) (token again answer : String) (cs : List Call)
    (d : AuthDb) (w w' w'' : W)
    → IsOrderedDb d
    → (request (verify_email a r token) d w).0 ≡ ok answer
    → a.sha256 again ≡ a.sha256 token
    → let d' = (run a cs (request (verify_email a r token) d w).1 w').0 in
      (is_bad_request (request (verify_email a later again) d' w'').0 ≡ true)
      × ((request (verify_email a later again) d' w'').1 ≡ d')
verify_once a r later token again answer cs d w w' w'' o g same =
    let after =
      verify_email-Holds a Anything Anything Anything Anything (any_users a) any_mailed any_mailed
        any_sessions r d w (nothing_held d o) token in
    Used-verify_refused a later _ w'' again (
      rw same (
        run-Used_verification a (a.sha256 token) cs _ w' after.ordered
          (verify-Used a r d w token answer o g)))

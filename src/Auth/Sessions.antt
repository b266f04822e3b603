-- ===== src/Auth/Sessions.antt =====
-- A refresh token of services/auth-service/app/routes.py that was rotated, and the tokens of a user
-- whose password was changed.
use market_place_app.Prelude.{
  ℕ, String, ◌≡◌, refl, Bool, true, false, none, some, arith, Option-cases, inl, inr, List, ◌==◌,
}
use market_place_app.Prelude.Table.{Table, get, put, find_row, find_row-none}
use market_place_app.Prelude.Table.Rows.{put-IsOrdered, find_row-stored}
use market_place_app.Prelude.Session.{Session, Result, ok, err, service_error, request}
use market_place_app.Auth.Model.{
  RefreshToken, AuthDb, find_session, save_session, revoked, add_event, has_token_id,
}
use market_place_app.Auth.Environment.{
  Auth, Incoming, Claims, Error, decode_jwt_token, create_audit_event, breaks_session, new_session,
}
use market_place_app.Auth.Login.{TokenResponse}
use market_place_app.Auth.Tokens.{read_claims, rotate, refresh_access_token, write_rotated}
use market_place_app.Auth.Runs.{Call, run}
use market_place_app.Auth.Laws.{IsOrderedDb, UserLaws, MailedLaws, SessionLaws}
use market_place_app.Auth.Rows.{get-none-put, find_row-none-put}
use market_place_app.Auth.Callers.{read_claims_reads}
use market_place_app.Auth.Kept.{run-Holds}
use market_place_app.Auth.Marks.{Spent, Spent-laws, is_of, has_been_revoked, put-Marked}

abbrev pub Anything : {V : Type 0} → Table V → Type 0
Anything t = Unit

pub any_users : {W : Type 0} (a : Auth W) → UserLaws a Anything
any_users a = record {
  registered = λ id u t k e role count lock h. tt;
  verified_law = λ id u t e h. tt;
  failed = λ r id u t e n h. tt;
  logged_in_law = λ now id u t e h. tt;
  changed = λ digest id u t e h. tt;
}

pub any_mailed : MailedLaws Anything
any_mailed = record {
  mailed = λ id v t n f h. tt;
  used_law = λ now id v t e h. tt;
  used_all = λ now user t h. tt;
}

pub any_sessions : SessionLaws Anything
any_sessions = record {
  opened = λ id v t n f h. tt;
  revoked_law = λ now id v t e h. tt;
  revoked_all = λ now user t h. tt;
}

abbrev pub is_unauthorized : {A : Type 0} → Result Error A → Bool
is_unauthorized (err (service_error status reason)) = status == 401
is_unauthorized _ = false

pub run-Spent :
    {W : Type 0} (a : Auth W) (token_id : String) (user : ℕ) (cs : List Call) (d : AuthDb) (w : W)
    → IsOrderedDb d
    → Spent token_id user d.refresh_tokens
    → Spent token_id user (run a cs d w).0.refresh_tokens
run-Spent a token_id user cs d w o s =
    (run-Holds a Anything Anything Anything (Spent token_id user) (any_users a) any_mailed
      any_mailed (Spent-laws token_id user) cs d w
      (record {
        ordered = o;
        users_hold = tt;
        verifications_hold = tt;
        resets_hold = tt;
        sessions_hold = s;
      })).sessions_hold

module _ {W : Type 0} (a : Auth W) (r : Incoming) (d : AuthDb) (w : W) where
  abbrev pub fresh : Session AuthDb W
  fresh = record { durable = d; working = d; world = w }

  -- The rows of a rotation: its token is revoked.
  write_rotated-Spent :
      (token_id : String) (user id : ℕ) (t : RefreshToken)
      → IsOrderedDb d
      → find_session token_id user d ≡ some (id, t)
      → get r.new_token_id d.refresh_tokens ≡ none
      → find_row (has_token_id r.secret) d.refresh_tokens ≡ none
      → Spent token_id user (write_rotated a r id t d).refresh_tokens
  unfolding write_rotated create_audit_event add_event save_session find_session new_session
  write_rotated-Spent token_id user id t o e n f =
      let t' = put id (revoked r.now t) d.refresh_tokens in
      let stored = find_row-stored _ d.refresh_tokens id t o.refresh_tokens e in
      (Spent-laws token_id user).opened r.new_token_id (new_session a r t.user_id) t'
        (get-none-put id r.new_token_id (revoked r.now t) t d.refresh_tokens stored n)
        (find_row-none-put _ id (revoked r.now t) d.refresh_tokens
          (find_row-none _ id t d.refresh_tokens f stored) f)
        (
          put-IsOrdered id (revoked r.now t) d.refresh_tokens o.refresh_tokens,
          put-Marked (is_of token_id user) has_been_revoked id (revoked r.now t) t d.refresh_tokens
              o.refresh_tokens e refl refl,
        )

  rotate-Spent :
      (token_id : String) (user id : ℕ) (t : RefreshToken) (answer : TokenResponse)
      → IsOrderedDb d
      → find_session token_id user d ≡ some (id, t)
      → (request (rotate a r id t) d w).0 ≡ ok answer
      → Spent token_id user (request (rotate a r id t) d w).1.refresh_tokens
  unfolding rotate breaks_session
  rotate-Spent token_id user id t answer o f e = elim (Option-cases (get t.user_id d.users)) [
    | inl n ↦ ground arith
    | inr (u, n) ↦ ground (arith, write_rotated-Spent token_id user id t o f)
  ]

  -- A refresh that is answered revokes the session that its token names.
  pub refresh-Spent :
      (token token_id : String) (user : ℕ) (claims : Claims) (answer : TokenResponse)
      → IsOrderedDb d
      → a.decode_refresh r.now token ≡ some claims
      → (read_claims a 401 claims fresh).0 ≡ ok (token_id, user)
      → (request (refresh_access_token a r token) d w).0 ≡ ok answer
      → Spent token_id user (request (refresh_access_token a r token) d w).1.refresh_tokens
  unfolding refresh_access_token decode_jwt_token
  refresh-Spent token token_id user claims answer o e f g =
      elim (Option-cases (find_session token_id user d)) [
        | inl n ↦ ground (arith, read_claims_reads a fresh 401 claims)
        | inr ((id, t), n) ↦ ground (
          arith,
          read_claims_reads a fresh 401 claims,
          rotate-Spent token_id user id t answer o n,
        )
      ]

  -- The token of a revoked session is refused, and nothing is changed.
  pub Spent-refused :
      (token token_id : String) (user : ℕ) (claims : Claims)
      → Spent token_id user d.refresh_tokens
      → a.decode_refresh r.now token ≡ some claims
      → (read_claims a 401 claims fresh).0 ≡ ok (token_id, user)
      → (is_unauthorized (request (refresh_access_token a r token) d w).0 ≡ true)
        × ((request (refresh_access_token a r token) d w).1 ≡ d)
  unfolding refresh_access_token decode_jwt_token find_session rotate
  Spent-refused token token_id user claims s e f =
      elim (Option-cases (find_row (is_of token_id user) d.refresh_tokens)) [
        | inl n ↦ ground (arith, read_claims_reads a fresh 401 claims)
        | inr ((id, t), n) ↦ ground (arith, read_claims_reads a fresh 401 claims)
      ]

  pub bad_token_refused :
      (token : String)
      → a.decode_refresh r.now token ≡ none
      → (is_unauthorized (request (refresh_access_token a r token) d w).0 ≡ true)
        × ((request (refresh_access_token a r token) d w).1 ≡ d)
  unfolding refresh_access_token decode_jwt_token
  bad_token_refused token e = ground arith

-- What a token names does not depend on the database.
pub read_claims_same :
    {W : Type 0} (a : Auth W) (claims : Claims) (s s' : Session AuthDb W)
    → (read_claims a 401 claims s).0 ≡ (read_claims a 401 claims s').0
unfolding read_claims
read_claims_same a claims s s' = ground arith

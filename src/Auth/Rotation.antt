-- ===== src/Auth/Rotation.antt =====
-- A refresh token of services/auth-service/app/routes.py after it was answered.
use market_place_app.Prelude.{ℕ, String, ◌≡◌, ◌∙◌, true, some, arith, Option-cases, inl, inr, List}
use market_place_app.Prelude.Session.{Session, ok, request, Result-cases}
use market_place_app.Auth.Model.{AuthDb}
use market_place_app.Auth.Environment.{Auth, Incoming, Claims, decode_jwt_token}
use market_place_app.Auth.Login.{TokenResponse}
use market_place_app.Auth.Tokens.{read_claims, refresh_access_token}
use market_place_app.Auth.Runs.{Call, run}
use market_place_app.Auth.Laws.{IsOrderedDb}
use market_place_app.Auth.Writes.{Holds}
use market_place_app.Auth.Callers.{read_claims_reads}
use market_place_app.Auth.Kept.{refresh_access_token-Holds}
use market_place_app.Auth.Marks.{Spent}
use market_place_app.Auth.Sessions.{
  Anything, any_users, any_mailed, any_sessions, is_unauthorized, run-Spent, fresh, refresh-Spent,
  Spent-refused, bad_token_refused, read_claims_same,
}

pub nothing_held : (d : AuthDb) → IsOrderedDb d → Holds Anything Anything Anything Anything d
nothing_held d o = record {
  ordered = o;
  users_hold = tt;
  verifications_hold = tt;
  resets_hold = tt;
  sessions_hold = tt;
}

module _ {W : Type 0} (a : Auth W) (later : Incoming) (token token_id : String) (user : ℕ)
    (claims : Claims) (s : Session AuthDb W) (d : AuthDb) (w : W) where
  -- A token that names a revoked session is refused whenever it is read.
  pub named-refused :
      ((c : Claims) → a.decode_refresh later.now token ≡ some c → claims ≡ c)
      → (read_claims a 401 claims s).0 ≡ ok (token_id, user)
      → Spent token_id user d.refresh_tokens
      → (is_unauthorized (request (refresh_access_token a later token) d w).0 ≡ true)
        × ((request (refresh_access_token a later token) d w).1 ≡ d)
  named-refused same e spent = elim (Option-cases (a.decode_refresh later.now token)) [
    | inl n ↦ bad_token_refused a later d w token n
    | inr (c, f) ↦
        Spent-refused a later d w token token_id user claims spent (rw (same c f) f)
          (read_claims_same a claims (fresh a later d w) s ∙ e)
  ]

-- A refresh token that was answered is refused from then on, after any requests, and the refusal
-- changes nothing; where the library reads the same claims of the token at any time.
pub refresh_once :
    {W : Type 0} (a : Auth W) (r later : Incoming) (token : String) (answer : TokenResponse)
    (cs : List Call) (d : AuthDb) (w w' w'' : W)
    → ((c c' : Claims)
        → a.decode_refresh r.now token ≡ some c
        → a.decode_refresh later.now token ≡ some c'
        → c ≡ c')
    → IsOrderedDb d
    → (request (refresh_access_token a r token) d w).0 ≡ ok answer
    → let d' = (run a cs (request (refresh_access_token a r token) d w).1 w').0 in
      (is_unauthorized (request (refresh_access_token a later token) d' w'').0 ≡ true)
      × ((request (refresh_access_token a later token) d' w'').1 ≡ d')
unfolding refresh_access_token decode_jwt_token
refresh_once a r later token answer cs d w w' w'' same o e =
    elim (Option-cases (a.decode_refresh r.now token)) [
      | inl n ↦ ground arith
      | inr (c, f) ↦ elim (Result-cases (read_claims a 401 c (fresh a r d w)).0) [
        | inr (x, g) ↦ ground (arith, read_claims_reads a (fresh a r d w) 401 c)
        | inl ((token_id, user), g) ↦
            let after =
              refresh_access_token-Holds a Anything Anything Anything Anything (any_users a)
                any_mailed any_mailed any_sessions r d w (nothing_held d o) token in
            named-refused a later token token_id user c (fresh a r d w) _ w''
              (λ c' h. same c c' f h) g
              (run-Spent a token_id user cs _ w' after.ordered
                (refresh-Spent a r d w token token_id user c answer o f g e))
      ]
    ]

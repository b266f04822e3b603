-- ===== src/Auth/Callers.antt =====
-- What services/auth-service/app/dependencies.py and the reading of a refresh token leave: the session
-- as it was, and a user that is stored.
use market_place_app.Prelude.{ℕ, String, ◌≡◌, some, arith, Option-cases, inl, inr}
use market_place_app.Prelude.Table.{get}
use market_place_app.Prelude.Session.{Session, ok}
use market_place_app.Auth.Model.{User, AuthDb}
use market_place_app.Auth.Environment.{Auth, Incoming, Claims, decode_jwt_token, truthy}
use market_place_app.Auth.Dependencies.{get_current_user}
use market_place_app.Auth.Tokens.{read_claims}

module _ {W : Type 0} (a : Auth W) (s : Session AuthDb W) where
  pub decode_jwt_token_reads :
      (r : Incoming) (token : String) → (decode_jwt_token a r token s).1 ≡ s
  unfolding decode_jwt_token
  decode_jwt_token_reads r token = ground arith

  pub read_claims_reads : (status : ℕ) (claims : Claims) → (read_claims a status claims s).1 ≡ s
  unfolding read_claims
  read_claims_reads status claims = ground arith

  pub get_current_user_reads :
      (r : Incoming) (token : String) → (get_current_user a r token s).1 ≡ s
  unfolding get_current_user
  get_current_user_reads r token = elim (Option-cases (a.decode_access r.now token)) [
    | inl e ↦ ground arith
    | inr (c, e) ↦ elim (Option-cases (truthy c.sub)) [
      | inl f ↦ ground arith
      | inr (subject, f) ↦ elim (Option-cases (a.uuid subject)) [
        | inl g ↦ ground arith
        | inr (id, g) ↦ ground arith
      ]
    ]
  ]

  pub get_current_user_stored :
      (r : Incoming) (token : String) (id : ℕ) (u : User)
      → (get_current_user a r token s).0 ≡ ok (id, u)
      → get id s.working.users ≡ some u
  unfolding get_current_user
  get_current_user_stored r token id u = elim (Option-cases (a.decode_access r.now token)) [
    | inl e ↦ ground arith
    | inr (c, e) ↦ elim (Option-cases (truthy c.sub)) [
      | inl f ↦ ground arith
      | inr (subject, f) ↦ elim (Option-cases (a.uuid subject)) [
        | inl g ↦ ground arith
        | inr (id', g) ↦ ground arith
      ]
    ]
  ]

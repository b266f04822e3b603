-- ===== src/Auth/Runs.antt =====
-- services/auth-service/app/routes.py and session_routes.py: the requests, and any number of them.
-- The lengths that schemas.py asks of a field are left out: a body that they refuse does nothing.
use market_place_app.Prelude.{ℕ, String, List, [], ◌∷◌}
use market_place_app.Prelude.Session.{◌>>◌, pure, request}
use market_place_app.Auth.Model.{AuthDb}
use market_place_app.Auth.Environment.{Auth, Incoming, Handler}
use market_place_app.Auth.Accounts.{RegisterRequest, register, verify_email, resend_verification}
use market_place_app.Auth.Login.{
  LoginRequest, ServiceTokenRequest, login, token_login, issue_service_token,
}
use market_place_app.Auth.Tokens.{refresh_access_token, logout, revoke_session, list_sessions}
use market_place_app.Auth.Recovery.{
  ResetPasswordRequest, ChangePasswordRequest, forgot_password, reset_password, change_password,
}

-- A text is the body's one field; the first of two is the access token.
pub data Request : Type 0 where
  registering : RegisterRequest → Request
  verifying : String → Request
  resending : String → Request
  logging_in : LoginRequest → Request
  token_form : String → String → Request
  service : ServiceTokenRequest → Request
  refreshing : String → Request
  logging_out : String → Request
  forgotten : String → Request
  resetting : ResetPasswordRequest → Request
  changing : String → ChangePasswordRequest → Request
  listing : String → Request
  revoking : String → ℕ → Request

pub record Call : Type 0 where
  pub incoming : Incoming
  pub body : Request

module _ {W : Type 0} (a : Auth W) where
  unfoldable pub respond : Incoming → Request → Handler W Unit
  respond r (registering body) = do register a r body; pure tt
  respond r (verifying token) = do verify_email a r token; pure tt
  respond r (resending email) = do resend_verification a r email; pure tt
  respond r (logging_in body) = do login a r body; pure tt
  respond r (token_form username password) = do token_login a r username password; pure tt
  respond r (service body) = do issue_service_token a r body; pure tt
  respond r (refreshing token) = do refresh_access_token a r token; pure tt
  respond r (logging_out token) = do logout a r token; pure tt
  respond r (forgotten email) = do forgot_password a r email; pure tt
  respond r (resetting body) = do reset_password a r body; pure tt
  respond r (changing access body) = do change_password a r access body; pure tt
  respond r (listing access) = do list_sessions a r access; pure tt
  respond r (revoking access id) = do revoke_session a r access id; pure tt

  unfoldable pub step : Call → AuthDb → W → AuthDb × W
  step c d w = let (r, d', w') = request (respond c.incoming c.body) d w in (d', w')

  unfoldable pub run : List Call → AuthDb → W → AuthDb × W
  run [] d w = (d, w)
  run (c ∷ cs) d w = let (d', w') = step c d w in run cs d' w'

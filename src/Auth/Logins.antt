-- ===== src/Auth/Logins.antt =====
-- `login` of services/auth-service/app/routes.py against the guard of Lockout.
use market_place_app.Prelude.{
  ℕ, String, ◌≡◌, refl, sym, subst, ap, ◌∙◌, Bool, true, false, some, [], ◌∷◌, List, Bool-cases,
  inl, inr, map,
}
use market_place_app.Prelude.Session.{Result, ok, err, request}
use market_place_app.Auth.Model.{User, AuthDb, find_user_by_email, save_user}
use market_place_app.Auth.Environment.{
  Auth, Incoming, Error, http, invalid_credentials, account_locked, verify_password, breaks_session,
}
use market_place_app.Auth.Login.{
  LoginRequest, TokenResponse, is_locked, unlocked, logged_in, after_failure, write_failure,
  write_login, token_response, login, counted,
}
use market_place_app.Auth.Laws.{IsOrderedDb}
use market_place_app.Auth.Keeping.{login-Holds}
use market_place_app.Auth.Sessions.{Anything, any_users, any_mailed, any_sessions}
use market_place_app.Auth.Rotation.{nothing_held}
use market_place_app.Auth.Lockout.{
  Guard, Verdict, refused, locked, welcome, counting, knock, knocks, guard_of, verdict_of, logins,
  AllFresh, Account,
}
use market_place_app.Auth.Knocks.{
  login_locked, login_wrong, login_right, failure_events_users, write_login_users, limit, period,
  knock-locked, knock_right, knock_wrong, unlocked-IsSame, after_failure-IsSame, save_same-Account,
}

module _ {W : Type 0} (a : Auth W) (r : Incoming) (email password : String) (id : ℕ) (u : User)
    (d : AuthDb) (w : W) (o : IsOrderedDb d) (e : find_user_by_email email d ≡ some (id, u))
    (active : u.is_active ≡ true) (verified_ : u.is_email_verified ≡ true)
    (new : breaks_session r d ≡ false) where
  abbrev body : LoginRequest
  body = record { email = email; password = password }

  abbrev now_knocks : Verdict × Guard
  now_knocks =
      knock (limit a) (period a) r.now (verify_password a password u.password_hash) (guard_of u)

  -- An answer and what it leaves agree with a knock.
  abbrev Agrees : Result Error TokenResponse × AuthDb × W → Verdict × Guard → Type 0
  Agrees out k = (verdict_of (out.0) ≡ k.0) × Account email u.password_hash (k.1) (out.1)

  agree :
      (out : Result Error TokenResponse × AuthDb × W) (k : Verdict × Guard)
      → request (login a r body) d w ≡ out
      → now_knocks ≡ k
      → Agrees out k
      → Agrees (request (login a r body) d w) now_knocks
  agree out k f g h =
      subst (λ (x : _). Agrees x now_knocks) (sym f)
        (subst (λ (x : Verdict × Guard). Agrees out x) (sym g) h)

  abbrev right : Bool
  right = verify_password a password u.password_hash

  abbrev knocks_with : Bool → Verdict × Guard
  knocks_with b = knock (limit a) (period a) r.now b (guard_of u)

  -- One login does what one knock does.
  login-knock : Agrees (request (login a r body) d w) now_knocks
  unfolding write_failure
  login-knock = elim (Bool-cases (is_locked r.now u.locked_until)) [
    | inl l ↦
        agree (err (http 423 account_locked), d, w) (locked, guard_of u)
          (login_locked a r body id u d w e l) (knock-locked a r u right l)
          (
            refl,
            record {
              id = id;
              user = u;
              found = e;
              active = active;
              verified = verified_;
              hashed = refl;
              guarded = refl;
            },
          )
    | inr l ↦ elim (Bool-cases right) [
      | inl v ↦
          agree (ok (token_response a r id (unlocked u)), write_login a r id (unlocked u) d, w)
            (welcome, counting 0) (login_right a r body id u d w e l v active verified_ new)
            (ap knocks_with v ∙ knock_right a r u l)
            (
              refl,
              save_same-Account email id u (logged_in r.now (unlocked u)) d
                  (write_login a r id (unlocked u) d) o e active verified_ (unlocked-IsSame u)
                  (write_login_users a r id (unlocked u) (unlocked u) d),
            )
      | inr v ↦
          agree (err (http 401 invalid_credentials), write_failure a r id (unlocked u) d, w)
            (refused, guard_of (after_failure a r (unlocked u)))
            (login_wrong a r body id u d w e l v) (ap knocks_with v ∙ knock_wrong a r u l)
            (
              refl,
              save_same-Account email id u (after_failure a r (unlocked u)) d
                  (write_failure a r id (unlocked u) d) o e active verified_
                  (after_failure-IsSame a r u)
                  (failure_events_users a r id u (counted (unlocked u))
                    (save_user id (after_failure a r (unlocked u)) d)),
            )
    ]
  ]

module _ {W : Type 0} (a : Auth W) (r : Incoming) (email password : String) (d : AuthDb)
    (w : W) where
  -- What one login and one knock have in common, for a password hash and a guard.
  abbrev pub Step : String → Guard → Type 0
  Step hash g =
      let out = request (login a r (record { email = email; password = password })) d w in
      let k = knock (limit a) (period a) r.now (verify_password a password hash) g in
      (verdict_of (out.0) ≡ k.0) × Account email hash (k.1) (out.1)

  pub login-Step :
      (hash : String) (g : Guard)
      → IsOrderedDb d
      → Account email hash g d
      → breaks_session r d ≡ false
      → Step hash g
  login-Step hash g o x new =
      subst (λ (g' : Guard). Step hash g') x.guarded
        (subst (λ (h : String). Step h (guard_of x.user)) x.hashed
          (login-knock a r email password x.id x.user d w o x.found x.active x.verified new))

-- An attempt as the guard sees it.
abbrev pub seen_as : {W : Type 0} → Auth W → String → Incoming × String → ℕ × Bool
seen_as a hash (r, password) = (r.now, verify_password a password hash)

-- Any logins with the email of an active and verified account, taken one after the other, no
-- other request between a login's read and its commit, are answered as the abstract guard answers attempts at the same times, right where the password is the account's, and leave the
-- account with that guard; where the drawn session keys are new.
pub logins-knocks :
    {W : Type 0} (a : Auth W) (email hash : String) (g : Guard)
    (attempts : List (Incoming × String)) (d : AuthDb) (w : W)
    → IsOrderedDb d
    → Account email hash g d
    → AllFresh a email attempts d w
    → let k = knocks (limit a) (period a) (map (seen_as a hash) attempts) g in
      ((logins a email attempts d w).0 ≡ k.0)
      × Account email hash (k.1) (logins a email attempts d w).1
unfolding logins knocks
logins-knocks a email hash g [] d w o x f = (refl, x)
logins-knocks a email hash g ((r, password) ∷ rest) d w o x f =
    let body : LoginRequest = record { email = email; password = password } in
    let out = request (login a r body) d w in
    let k = knock (limit a) (period a) r.now (verify_password a password hash) g in
    let one = login-Step a r email password d w hash g o x f.0 in
    let after =
      login-Holds a Anything Anything Anything Anything (any_users a) any_mailed any_mailed
        any_sessions r d w (nothing_held d o) body in
    let more = logins-knocks a email hash (k.1) rest (out.1) (out.2) after.ordered one.1 f.1 in
    (
      ap (λ (v : Verdict). v ∷ (logins a email rest (out.1) (out.2)).0) one.0
          ∙ ap (λ (vs : List Verdict). k.0 ∷ vs) more.0,
      more.1,
    )

-- ===== src/Auth/Lockout.antt =====
-- The lock of `login` (services/auth-service/app/routes.py) as an abstract guard at a door, and the
-- attempts on one account.
use market_place_app.Prelude.{
  ℕ, String, ◌+◌, ◌≡◌, Bool, true, false, none, some, [], ◌∷◌, arith, leb, ltb, List, if◌then◌else◌,
  ◌==◌, ap, str_eq,
}
use market_place_app.Prelude.Table.{Table, put, find_row}
use market_place_app.Prelude.Table.Rows.{IsOrdered, get-Above, find_row-stored}
use market_place_app.Prelude.Session.{Result, ok, err, service_error, request}
use market_place_app.Auth.Model.{
  User, AuthDb, has_email, normalize_email, find_user_by_email, save_user,
}
use market_place_app.Auth.Environment.{Auth, Incoming, Error, breaks_session}
use market_place_app.Auth.Login.{TokenResponse, login}
use market_place_app.Auth.Laws.{IsOrderedDb}

-- The guard counts failures, or lets nobody in until a time.
pub data Guard : Type 0 where
  counting : ℕ → Guard
  shut : ℕ → Guard

pub data Verdict : Type 0 where
  welcome refused locked unavailable : Verdict

-- An attempt at the time `now` after `n` failures, with the right password or not.
abbrev pub attempt : ℕ → ℕ → ℕ → Bool → ℕ → Verdict × Guard
attempt limit period now true n = (welcome, counting 0)
attempt limit period now false n =
    if leb limit (n + 1) then (refused, shut (now + period)) else (refused, counting (n + 1))

abbrev pub knock : ℕ → ℕ → ℕ → Bool → Guard → Verdict × Guard
knock limit period now right (counting n) = attempt limit period now right n
knock limit period now right (shut until) =
    if ltb now until then (locked, shut until) else attempt limit period now right 0

-- Attempts in a row: what they are told, and the guard behind them.
unfoldable pub knocks : ℕ → ℕ → List (ℕ × Bool) → Guard → List Verdict × Guard
knocks limit period [] g = ([], g)
knocks limit period ((now, right) ∷ rest) g =
    let (v, g') = knock limit period now right g in
    let (vs, g'') = knocks limit period rest g' in (v ∷ vs, g'')

-- The guard of a user.
abbrev pub guard_of : User → Guard
guard_of u = elim u.locked_until [
  | none ↦ counting u.failed_login_attempts
  | some until ↦ shut until
]

abbrev pub verdict_of : Result Error TokenResponse → Verdict
verdict_of (ok answer) = welcome
verdict_of (err (service_error status reason)) =
    if status == 401 then refused else if status == 423 then locked else unavailable
verdict_of _ = unavailable

-- Logins with one email.
unfoldable pub logins :
    {W : Type 0} → Auth W → String → List (Incoming × String) → AuthDb → W → List Verdict × AuthDb
logins a email [] d w = ([], d)
logins a email ((r, password) ∷ rest) d w =
    let (answer, d', w') =
      request (login a r (record { email = email; password = password })) d w in
    let (vs, d'') = logins a email rest d' w' in (verdict_of answer ∷ vs, d'')

-- The drawn session keys are new whenever they are used.
abbrev pub AllFresh :
    {W : Type 0} → Auth W → String → List (Incoming × String) → AuthDb → W → Type 0
AllFresh a email [] d w = Unit
AllFresh a email ((r, password) ∷ rest) d w =
    let (answer, d', w') =
      request (login a r (record { email = email; password = password })) d w in
    (breaks_session r d ≡ false) × AllFresh a email rest d' w'

pub find_row-put :
    {V : Type 0} (p : V → Bool) (k : ℕ) (v w : V) (t : Table V)
    → IsOrdered t
    → find_row p t ≡ some (k, w)
    → p v ≡ p w
    → find_row p (put k v t) ≡ some (k, v)
unfolding put find_row
find_row-put p k v w [] o e same = cc
find_row-put p k v w ((j, u) ∷ t) o e same =
    ground (arith, find_row-put p k v w t o.1, find_row-stored p t k w o.1, get-Above j k t o.0)

-- An active and verified account under an email, with its password hash and its guard.
pub record Account (email hash : String) (g : Guard) (d : AuthDb) : Type 0 where
  pub id : ℕ
  pub user : User
  pub found : find_user_by_email email d ≡ some (id, user)
  pub active : user.is_active ≡ true
  pub verified : user.is_email_verified ≡ true
  pub hashed : user.password_hash ≡ hash
  pub guarded : guard_of user ≡ g

pub save_user-Account :
    (email hash : String) (g : Guard) (id : ℕ) (u v : User) (d : AuthDb)
    → IsOrderedDb d
    → find_user_by_email email d ≡ some (id, u)
    → v.email ≡ u.email
    → v.is_active ≡ true
    → v.is_email_verified ≡ true
    → v.password_hash ≡ hash
    → guard_of v ≡ g
    → Account email hash g (save_user id v d)
unfolding save_user find_user_by_email
save_user-Account email hash g id u v d o e same active verified_ hashed gs = record {
  id = id;
  user = v;
  found =
      find_row-put (has_email (normalize_email email)) id v u d.users o.users e
        (ap (λ (m : String). str_eq m (normalize_email email)) same);
  active = active;
  verified = verified_;
  hashed = hashed;
  guarded = gs;
}

-- Only the table of users counts.
pub Account-users :
    (email hash : String) (g : Guard) (d d' : AuthDb)
    → d'.users ≡ d.users
    → Account email hash g d
    → Account email hash g d'
unfolding find_user_by_email
Account-users email hash g d d' same x = record {
  id = x.id;
  user = x.user;
  found = rw same x.found;
  active = x.active;
  verified = x.verified;
  hashed = x.hashed;
  guarded = x.guarded;
}

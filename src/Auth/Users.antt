-- ===== src/Auth/Users.antt =====
-- The accounts of services/auth-service over any requests: their roles, emails and failed logins.
use market_place_app.Prelude.{
  ℕ, ◌≤◌, ◌<◌, ◌≡◌, refl, Bool, true, false, none, some, [], ◌∷◌, arith, is_some, str_eq_iff, List,
  ◌∙◌, ◌⊎◌,
}
use market_place_app.Prelude.Table.{Table, get, put, find_row, get-put, find_row-none}
use market_place_app.Prelude.Table.Rows.{
  IsOrdered, put-IsOrdered, get-Above, AllRows, put-AllRows, get-AllRows,
}
use market_place_app.Auth.Model.{User, AuthDb, is_admin, has_email}
use market_place_app.Auth.Environment.{Auth, Incoming}
use market_place_app.Auth.Accounts.{verified}
use market_place_app.Auth.Login.{unlocked, after_failure, logged_in}
use market_place_app.Auth.Recovery.{with_password}
use market_place_app.Auth.Runs.{Call, run}
use market_place_app.Auth.Laws.{IsOrderedDb, UserLaws}
use market_place_app.Auth.Kept.{run-Holds}
use market_place_app.Auth.Rows.{find_row-none-put}
use market_place_app.Auth.Sessions.{Anything, any_mailed, any_sessions}

-- A property of the accounts that the writes keep holds after any requests.
pub run-users :
    {W : Type 0} (a : Auth W) (P : Table User → Type 0) (laws : UserLaws a P) (cs : List Call)
    (d : AuthDb) (w : W)
    → IsOrderedDb d
    → P d.users
    → P (run a cs d w).0.users
run-users a P laws cs d w o p =
    (run-Holds a P Anything Anything Anything laws any_mailed any_mailed any_sessions cs d w
      (record {
        ordered = o;
        users_hold = p;
        verifications_hold = tt;
        resets_hold = tt;
        sessions_hold = tt;
      })).users_hold

-- Whether account `k` is an administrator's.
unfoldable pub admin_at : ℕ → Table User → Bool
admin_at k t = elim (get k t) [ none ↦ false | some u ↦ is_admin u.role ]

put-admin_at :
    (k id : ℕ) (u v : User) (t : Table User)
    → get id t ≡ some u
    → v.role ≡ u.role
    → admin_at k (put id v t) ≡ admin_at k t
unfolding admin_at
put-admin_at k id u v t e same = ground (arith, get-put id k v t)

put_new-admin_at :
    (k id : ℕ) (v : User) (t : Table User)
    → get id t ≡ none
    → is_admin v.role ≡ false
    → admin_at k (put id v t) ≡ admin_at k t
unfolding admin_at
put_new-admin_at k id v t e same = ground (arith, get-put id k v t)

unlocked_role : (u : User) → (unlocked u).role ≡ u.role
unfolding unlocked
unlocked_role u = ground arith

unlocked_email : (u : User) → (unlocked u).email ≡ u.email
unfolding unlocked
unlocked_email u = ground arith

module _ {W : Type 0} (a : Auth W) (r : Incoming) (u : User) where
  after_failure_role : (after_failure a r (unlocked u)).role ≡ u.role
  unfolding after_failure
  after_failure_role = ground (arith, unlocked_role u)

  after_failure_email : (after_failure a r (unlocked u)).email ≡ u.email
  unfolding after_failure
  after_failure_email = ground (arith, unlocked_email u)

admin_laws : {W : Type 0} (a : Auth W) (k : ℕ) (b : Bool) → UserLaws a (λ t. admin_at k t ≡ b)
admin_laws a k b = record {
  registered = λ id u t e f role count lock h. put_new-admin_at k id u t e role ∙ h;
  verified_law = λ id u t e h. put-admin_at k id u (verified u) t e refl ∙ h;
  failed = λ r id u t e n h.
      put-admin_at k id u (after_failure a r (unlocked u)) t e (after_failure_role a r u) ∙ h;
  logged_in_law =
      λ now id u t e h. put-admin_at k id u (logged_in now (unlocked u)) t e (unlocked_role u) ∙ h;
  changed = λ digest id u t e h. put-admin_at k id u (with_password digest u) t e refl ∙ h;
}

-- Whatever is requested, an account is an administrator's afterwards exactly if it was before.
pub run-admin_at :
    {W : Type 0} (a : Auth W) (k : ℕ) (cs : List Call) (d : AuthDb) (w : W)
    → IsOrderedDb d
    → admin_at k (run a cs d w).0.users ≡ admin_at k d.users
run-admin_at a k cs d w o =
    run-users a (λ t. admin_at k t ≡ admin_at k d.users) (admin_laws a k (admin_at k d.users)) cs d
      w o refl

-- No two accounts have one email.
abbrev pub EmailsDiffer : Table User → Type 0
EmailsDiffer [] = Unit
EmailsDiffer ((k, u) ∷ t) = (find_row (has_email u.email) t ≡ none) × EmailsDiffer t

-- A table in which nobody else has the email of `v`.
put_new-EmailsDiffer :
    (id : ℕ) (v : User) (t : Table User)
    → get id t ≡ none
    → find_row (has_email v.email) t ≡ none
    → EmailsDiffer t
    → EmailsDiffer (put id v t)
unfolding put find_row get
put_new-EmailsDiffer id v [] e f h = (refl, tt)
put_new-EmailsDiffer id v ((j, w) ∷ t) e f h = ground (
  arith,
  put_new-EmailsDiffer id v t,
  find_row-none-put (has_email w.email) id v t,
  str_eq_iff w.email v.email,
  str_eq_iff v.email w.email,
)

put_same-none :
    (p : User → Bool) (id : ℕ) (u v : User) (t : Table User)
    → get id t ≡ some u
    → p v ≡ p u
    → find_row p t ≡ none
    → find_row p (put id v t) ≡ none
put_same-none p id u v t e same n = find_row-none-put p id v t (same ∙ find_row-none p id u t n e) n

put-EmailsDiffer :
    (id : ℕ) (u v : User) (t : Table User)
    → IsOrdered t
    → get id t ≡ some u
    → v.email ≡ u.email
    → EmailsDiffer t
    → EmailsDiffer (put id v t)
unfolding put find_row get
put-EmailsDiffer id u v [] o e same h = (refl, tt)
put-EmailsDiffer id u v ((j, w) ∷ t) o e same h = ground (
  arith,
  put-EmailsDiffer id u v t o.1,
  put_same-none (has_email w.email) id u v t,
  get-Above j id t o.0,
)

email_laws : {W : Type 0} (a : Auth W) → UserLaws a (λ t. IsOrdered t × EmailsDiffer t)
email_laws a = record {
  registered = λ id u t e f role count lock h.
      (put-IsOrdered id u t h.0, put_new-EmailsDiffer id u t e f h.1);
  verified_law = λ id u t e h.
      (put-IsOrdered id (verified u) t h.0, put-EmailsDiffer id u (verified u) t h.0 e refl h.1);
  failed = λ r id u t e n h. (
    put-IsOrdered id (after_failure a r (unlocked u)) t h.0,
    put-EmailsDiffer id u (after_failure a r (unlocked u)) t h.0 e (after_failure_email a r u) h.1,
  );
  logged_in_law = λ now id u t e h. (
    put-IsOrdered id (logged_in now (unlocked u)) t h.0,
    put-EmailsDiffer id u (logged_in now (unlocked u)) t h.0 e (unlocked_email u) h.1,
  );
  changed = λ digest id u t e h. (
    put-IsOrdered id (with_password digest u) t h.0,
    put-EmailsDiffer id u (with_password digest u) t h.0 e refl h.1,
  );
}

-- Whatever is requested, no two accounts have one email, where no two had one at first.
pub run-EmailsDiffer :
    {W : Type 0} (a : Auth W) (cs : List Call) (d : AuthDb) (w : W)
    → IsOrderedDb d
    → EmailsDiffer d.users
    → EmailsDiffer (run a cs d w).0.users
run-EmailsDiffer a cs d w o h =
    (run-users a (λ t. IsOrdered t × EmailsDiffer t) (email_laws a) cs d w o (o.users, h)).1

-- An account has fewer failed logins than the limit, or as many and a lock.
abbrev pub IsGuarded : ℕ → User → Type 0
IsGuarded limit u =
    (u.failed_login_attempts < limit)
    ⊎ ((u.failed_login_attempts ≡ limit) × (is_some u.locked_until ≡ true))

after_failure-IsGuarded :
    {W : Type 0} (a : Auth W) (r : Incoming) (u : User)
    → 1 ≤ a.settings.max_failed_login_attempts
    → IsGuarded a.settings.max_failed_login_attempts u
    → IsGuarded a.settings.max_failed_login_attempts (after_failure a r (unlocked u))
unfolding after_failure unlocked
after_failure-IsGuarded a r u m h = ground arith

guard_laws :
    {W : Type 0} (a : Auth W)
    → 1 ≤ a.settings.max_failed_login_attempts
    → UserLaws a (AllRows (IsGuarded a.settings.max_failed_login_attempts))
guard_laws a m =
    let P = IsGuarded a.settings.max_failed_login_attempts in
    record {
      registered = λ id u t e f role count lock h. put-AllRows P id u t (ground arith) h;
      verified_law = λ id u t e h. put-AllRows P id (verified u) t (get-AllRows P id u t h e) h;
      failed = λ r id u t e n h.
          put-AllRows P id (after_failure a r (unlocked u)) t
            (after_failure-IsGuarded a r u m (get-AllRows P id u t h e)) h;
      logged_in_law =
          λ now id u t e h. put-AllRows P id (logged_in now (unlocked u)) t (ground arith) h;
      changed = λ digest id u t e h. put-AllRows P id (with_password digest u) t (ground arith) h;
    }

-- Whatever is requested, every account has fewer failed logins than the limit, or exactly as many and
-- a lock, where the limit is at least one and the accounts have that at first.
pub run-IsGuarded :
    {W : Type 0} (a : Auth W) (cs : List Call) (d : AuthDb) (w : W)
    → 1 ≤ a.settings.max_failed_login_attempts
    → IsOrderedDb d
    → AllRows (IsGuarded a.settings.max_failed_login_attempts) d.users
    → AllRows (IsGuarded a.settings.max_failed_login_attempts) (run a cs d w).0.users
run-IsGuarded a cs d w m o h = run-users a _ (guard_laws a m) cs d w o h

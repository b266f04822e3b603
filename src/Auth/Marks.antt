-- ===== src/Auth/Marks.antt =====
-- A row of services/auth-service that a query finds and that carries a mark: a used token, a revoked
-- session.
use market_place_app.Prelude.{
  ℕ, String, ◌≡◌, refl, Bool, true, false, none, some, Option, [], ◌∷◌, arith, is_some, ◌&&◌, ◌==◌,
  str_eq_iff,
}
use market_place_app.Prelude.Table.{Table, get, put, find_row}
use market_place_app.Prelude.Table.Rows.{IsOrdered, put-IsOrdered, get-Above, find_row-stored}
use market_place_app.Auth.Model.{
  VerificationToken, RefreshToken, has_hash, has_token_id, used, revoked, update_rows, used_if_of,
  revoked_if_of,
}
use market_place_app.Auth.Laws.{MailedLaws, SessionLaws}
use market_place_app.Auth.Rows.{update_rows-IsOrdered}

module _ {V : Type 0} (p q : V → Bool) where
  abbrev pub is_marked : Option (ℕ × V) → Bool
  is_marked none = false
  is_marked (some (k, v)) = q v

  -- The first row with `p` is there and has the mark `q`.
  abbrev pub Marked : Table V → Type 0
  Marked t = is_marked (find_row p t) ≡ true

  pub Marked-put_new :
      (k : ℕ) (v : V) (t : Table V) → get k t ≡ none → p v ≡ false → Marked t → Marked (put k v t)
  unfolding put find_row get
  Marked-put_new k v [] n e h = ground arith
  Marked-put_new k v ((j, w) ∷ t) n e h = ground (arith, Marked-put_new k v t)

  pub Marked-put :
      (k : ℕ) (v w : V) (t : Table V)
      → IsOrdered t
      → get k t ≡ some w
      → p v ≡ p w
      → q v ≡ true
      → Marked t
      → Marked (put k v t)
  unfolding put find_row get
  Marked-put k v w [] o n e m h = ground arith
  Marked-put k v w ((j, u) ∷ t) o n e m h =
      ground (arith, Marked-put k v w t o.1, get-Above j k t o.0)

  pub put-Marked :
      (k : ℕ) (v w : V) (t : Table V)
      → IsOrdered t
      → find_row p t ≡ some (k, w)
      → p v ≡ p w
      → q v ≡ true
      → Marked (put k v t)
  unfolding put find_row
  put-Marked k v w [] o e same m = cc
  put-Marked k v w ((j, u) ∷ t) o e same m =
      ground (arith, put-Marked k v w t o.1, find_row-stored p t k w o.1, get-Above j k t o.0)

  pub Marked-update_rows :
      (f : V → V) (t : Table V)
      → ((v : V) → p (f v) ≡ p v)
      → ((v : V) → q v ≡ true → q (f v) ≡ true)
      → Marked t
      → Marked (update_rows f t)
  unfolding update_rows find_row
  Marked-update_rows f [] same m h = h
  Marked-update_rows f ((j, v) ∷ t) same m h =
      ground (arith, same v, m v, Marked-update_rows f t same m)

  pub update_rows-Marked :
      (f : V → V) (k : ℕ) (w : V) (t : Table V)
      → ((v : V) → p (f v) ≡ p v)
      → q (f w) ≡ true
      → find_row p t ≡ some (k, w)
      → Marked (update_rows f t)
  unfolding update_rows find_row
  update_rows-Marked f k w [] same m e = cc
  update_rows-Marked f k w ((j, v) ∷ t) same m e =
      ground (arith, same v, update_rows-Marked f k w t same m)

-- The mailed token with a hash is used.
abbrev pub has_been_used : VerificationToken → Bool
has_been_used t = is_some t.used_at

abbrev pub Used : String → Table VerificationToken → Type 0
Used digest t = IsOrdered t × Marked (has_hash digest) has_been_used t

-- The session of a refresh token is revoked.
abbrev pub is_of : String → ℕ → RefreshToken → Bool
is_of token_id user t = has_token_id token_id t && t.user_id == user

abbrev pub has_been_revoked : RefreshToken → Bool
has_been_revoked t = is_some t.revoked_at

abbrev pub Spent : String → ℕ → Table RefreshToken → Type 0
Spent token_id user t = IsOrdered t × Marked (is_of token_id user) has_been_revoked t

-- A new token's hash is not one that is there.
Marked-other_hash :
    (digest : String) (v : VerificationToken) (t : Table VerificationToken)
    → find_row (has_hash v.token_hash) t ≡ none
    → Marked (has_hash digest) has_been_used t
    → has_hash digest v ≡ false
unfolding find_row
Marked-other_hash digest v [] n m = cc
Marked-other_hash digest v ((j, u) ∷ t) n m = ground (
  arith,
  Marked-other_hash digest v t,
  str_eq_iff u.token_hash digest,
  str_eq_iff v.token_hash digest,
  str_eq_iff u.token_hash v.token_hash,
)

Marked-other_id :
    (token_id : String) (user : ℕ) (v : RefreshToken) (t : Table RefreshToken)
    → find_row (has_token_id v.token_id) t ≡ none
    → Marked (is_of token_id user) has_been_revoked t
    → is_of token_id user v ≡ false
unfolding find_row
Marked-other_id token_id user v [] n m = cc
Marked-other_id token_id user v ((j, u) ∷ t) n m = ground (
  arith,
  Marked-other_id token_id user v t,
  str_eq_iff u.token_id token_id,
  str_eq_iff v.token_id token_id,
  str_eq_iff u.token_id v.token_id,
)

pub Used-laws : (digest : String) → MailedLaws (Used digest)
Used-laws digest = record {
  mailed = λ id v t n f h. (
    put-IsOrdered id v t h.0,
    Marked-put_new _ _ id v t n (Marked-other_hash digest v t f h.1) h.1,
  );
  used_law = λ now id v t e h.
      (put-IsOrdered id (used now v) t h.0, Marked-put _ _ id (used now v) v t h.0 e refl refl h.1);
  used_all = λ now user t h. (
    update_rows-IsOrdered (used_if_of now user) t h.0,
    Marked-update_rows _ _ (used_if_of now user) t (λ v. ground arith) (λ v m. ground arith) h.1,
  );
}

pub Spent-laws : (token_id : String) (user : ℕ) → SessionLaws (Spent token_id user)
Spent-laws token_id user = record {
  opened = λ id v t n f h. (
    put-IsOrdered id v t h.0,
    Marked-put_new _ _ id v t n (Marked-other_id token_id user v t f h.1) h.1,
  );
  revoked_law = λ now id v t e h. (
    put-IsOrdered id (revoked now v) t h.0,
    Marked-put _ _ id (revoked now v) v t h.0 e refl refl h.1,
  );
  revoked_all = λ now who t h. (
    update_rows-IsOrdered (revoked_if_of now who) t h.0,
    Marked-update_rows _ _ (revoked_if_of now who) t (λ v. ground arith) (λ v m. ground arith) h.1,
  );
}

-- ===== src/Auth/Rows.antt =====
-- The rows that an update of services/auth-service leaves: what a query finds of them afterwards.
use market_place_app.Prelude.{ℕ, String, ◌≡◌, refl, Bool, false, none, some, [], ◌∷◌, arith}
use market_place_app.Prelude.Table.{Table, get, put, find_row, get-put}
use market_place_app.Prelude.Table.Rows.{Above, IsOrdered}
use market_place_app.Auth.Model.{VerificationToken, has_hash, update_rows, used_if_of}

module _ {V : Type 0} where
  Above-update_rows : (n : ℕ) (f : V → V) (t : Table V) → Above n t → Above n (update_rows f t)
  unfolding update_rows
  Above-update_rows n f [] h = tt
  Above-update_rows n f ((k, v) ∷ t) h = (h.0, Above-update_rows n f t h.1)

  pub update_rows-IsOrdered : (f : V → V) (t : Table V) → IsOrdered t → IsOrdered (update_rows f t)
  unfolding update_rows
  update_rows-IsOrdered f [] h = tt
  update_rows-IsOrdered f ((k, v) ∷ t) h =
      (Above-update_rows k f t h.0, update_rows-IsOrdered f t h.1)

  pub get-none-update_rows :
      (f : V → V) (k : ℕ) (t : Table V) → get k t ≡ none → get k (update_rows f t) ≡ none
  unfolding update_rows get
  get-none-update_rows f k [] h = refl
  get-none-update_rows f k ((j, v) ∷ t) h = ground (arith, get-none-update_rows f k t)

  -- A test that the update does not change finds nothing afterwards where it found nothing.
  pub find_row-none-update_rows :
      (f : V → V) (p : V → Bool) (t : Table V)
      → ((v : V) → p (f v) ≡ p v)
      → find_row p t ≡ none
      → find_row p (update_rows f t) ≡ none
  unfolding update_rows find_row
  find_row-none-update_rows f p [] same h = refl
  find_row-none-update_rows f p ((j, v) ∷ t) same h =
      ground (arith, same v, find_row-none-update_rows f p t same)

  pub find_row-none-put :
      (p : V → Bool) (k : ℕ) (v : V) (t : Table V)
      → p v ≡ false
      → find_row p t ≡ none
      → find_row p (put k v t) ≡ none
  unfolding put find_row
  find_row-none-put p k v [] n h = ground arith
  find_row-none-put p k v ((j, w) ∷ t) n h = ground (arith, find_row-none-put p k v t n)

  -- A key that is taken is not the new one.
  pub get-none-put :
      (k id : ℕ) (v w : V) (t : Table V)
      → get k t ≡ some w
      → get id t ≡ none
      → get id (put k v t) ≡ none
  get-none-put k id v w t e n = ground (arith, get-put k id v t)

pub used_if_of_hash :
    (digest : String) (now user : ℕ) (v : VerificationToken)
    → has_hash digest (used_if_of now user v) ≡ has_hash digest v
used_if_of_hash digest now user v = ground arith

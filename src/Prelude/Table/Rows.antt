-- ===== src/Prelude/Table/Rows.antt =====
-- Tables in the order of their keys: sums over the rows, and the rows that a query loads.
use Prim.Native.Nat.{ℕ, zero, suc, ◌+◌, ◌≤◌, ◌<◌}
use mathlib.Core.Path.{◌≡◌, refl}
use mathlib.Core.Logic.{◌≢◌}
use mathlib.Core.Bool.{Bool, true}
use mathlib.Core.List.{[], ◌∷◌}
use mathlib.Core.Option.{Option, none, some}
use native.Mathlib.Omega.{arith}
use market_place_app.Prelude.Lists.{All, insert_by, sort_by, take}
use market_place_app.Prelude.Table.{Table, get, put, find_row, filter_rows, get-put}

module _ {ℓ} {V : Type ℓ} where
  -- Every key of the table is above `n`.
  abbrev pub Above : ℕ → Table V → Type 0
  Above n [] = Unit
  Above n ((j, v) ∷ t) = (n < j) × Above n t

  -- The keys rise strictly, so each is there once.
  abbrev pub IsOrdered : Table V → Type 0
  IsOrdered [] = Unit
  IsOrdered ((j, v) ∷ t) = Above j t × IsOrdered t

  Above-put : (n k : ℕ) (v : V) (t : Table V) → n < k → Above n t → Above n (put k v t)
  unfolding put
  Above-put n k v [] h a = (h, tt)
  Above-put n k v ((j, w) ∷ t) h a = ground (arith, Above-put n k v t h a.1)

  Above-mono : (n m : ℕ) (t : Table V) → n ≤ m → Above m t → Above n t
  Above-mono n m [] h a = tt
  Above-mono n m ((j, w) ∷ t) h a = (omega arith, Above-mono n m t h a.1)

  pub put-IsOrdered : (k : ℕ) (v : V) (t : Table V) → IsOrdered t → IsOrdered (put k v t)
  unfolding put
  put-IsOrdered k v [] o = (tt, tt)
  put-IsOrdered k v ((j, w) ∷ t) o =
      ground (arith, put-IsOrdered k v t o.1, Above-put j k v t, Above-mono k j t)

  pub get-Above : (n k : ℕ) (t : Table V) → Above n t → k ≤ n → get k t ≡ none
  unfolding get
  get-Above n k [] a h = refl
  get-Above n k ((j, w) ∷ t) a h = ground (arith, get-Above n k t a.1 h)

  -- The sum of a number over the rows.
  abbrev pub sum_rows : (V → ℕ) → Table V → ℕ
  sum_rows f [] = 0
  sum_rows f ((j, v) ∷ t) = f v + sum_rows f t

  abbrev pub or_zero : (V → ℕ) → Option V → ℕ
  or_zero f none = 0
  or_zero f (some v) = f v

  -- A write of a row replaces its part of the sum.
  pub sum_rows-put :
      (f : V → ℕ) (k : ℕ) (v : V) (t : Table V)
      → IsOrdered t
      → sum_rows f (put k v t) + or_zero f (get k t) ≡ sum_rows f t + f v
  unfolding put get
  sum_rows-put f k v [] o = omega arith
  sum_rows-put f k v ((j, w) ∷ t) o = ground (arith, sum_rows-put f k v t o.1, get-Above j k t o.0)

  -- What a query loads is stored.
  abbrev pub Stored : Table V → Table V → Type ℓ
  Stored t rows = All (λ e. get (e.0) t ≡ some (e.1)) rows

  -- A key is not among the rows, and no key is twice among them.
  abbrev pub Apart : ℕ → Table V → Type 0
  Apart k [] = Unit
  Apart k ((j, v) ∷ t) = (j ≢ k) × Apart k t

  abbrev pub Distinct : Table V → Type 0
  Distinct [] = Unit
  Distinct ((j, v) ∷ t) = Apart j t × Distinct t

  Apart-of_Above : (k : ℕ) (t : Table V) → Above k t → Apart k t
  Apart-of_Above k [] a = tt
  Apart-of_Above k ((j, v) ∷ t) a = (omega arith, Apart-of_Above k t a.1)

  pub Distinct-of_IsOrdered : (t : Table V) → IsOrdered t → Distinct t
  Distinct-of_IsOrdered [] o = tt
  Distinct-of_IsOrdered ((j, v) ∷ t) o = (Apart-of_Above j t o.0, Distinct-of_IsOrdered t o.1)

  Apart-insert_by :
      (key : ℕ × V → ℕ) (k : ℕ) (e : ℕ × V) (t : Table V)
      → e.0 ≢ k
      → Apart k t
      → Apart k (insert_by key e t)
  unfolding insert_by
  Apart-insert_by key k e [] n a = (n, tt)
  Apart-insert_by key k e (x ∷ t) n a = ground (arith, Apart-insert_by key k e t n a.1)

  Distinct-insert_by :
      (key : ℕ × V → ℕ) (e : ℕ × V) (t : Table V)
      → Apart (e.0) t
      → Distinct t
      → Distinct (insert_by key e t)
  unfolding insert_by
  Distinct-insert_by key e [] a d = (tt, tt)
  Distinct-insert_by key e (x ∷ t) a d =
      ground (arith, Distinct-insert_by key e t a.1 d.1, Apart-insert_by key (x.0) e t)

  Apart-sort_by : (key : ℕ × V → ℕ) (k : ℕ) (t : Table V) → Apart k t → Apart k (sort_by key t)
  unfolding sort_by
  Apart-sort_by key k [] a = tt
  Apart-sort_by key k (x ∷ t) a =
      Apart-insert_by key k x (sort_by key t) a.0 (Apart-sort_by key k t a.1)

  pub Distinct-sort_by : (key : ℕ × V → ℕ) (t : Table V) → Distinct t → Distinct (sort_by key t)
  unfolding sort_by
  Distinct-sort_by key [] d = tt
  Distinct-sort_by key (x ∷ t) d =
      Distinct-insert_by key x (sort_by key t) (Apart-sort_by key (x.0) t d.0)
        (Distinct-sort_by key t d.1)

  Apart-take : (n k : ℕ) (t : Table V) → Apart k t → Apart k (take n t)
  unfolding take
  Apart-take zero k t a = tt
  Apart-take (suc n) k [] a = tt
  Apart-take (suc n) k (x ∷ t) a = (a.0, Apart-take n k t a.1)

  pub Distinct-take : (n : ℕ) (t : Table V) → Distinct t → Distinct (take n t)
  unfolding take
  Distinct-take zero t d = tt
  Distinct-take (suc n) [] d = tt
  Distinct-take (suc n) (x ∷ t) d = (Apart-take n (x.0) t d.0, Distinct-take n t d.1)

  get-cons :
      (j : ℕ) (w : V) (t rows : Table V) → Above j t → Stored t rows → Stored ((j, w) ∷ t) rows
  unfolding get
  get-cons j w t [] a s = tt
  get-cons j w t ((k, v) ∷ rows) a s = ground (arith, get-cons j w t rows a s.1, get-Above j k t a)

  Above-filter_rows : (n : ℕ) (p : V → Bool) (t : Table V) → Above n t → Above n (filter_rows p t)
  unfolding filter_rows
  Above-filter_rows n p [] a = tt
  Above-filter_rows n p ((j, w) ∷ t) a = ground (arith, Above-filter_rows n p t a.1)

  pub filter_rows-IsOrdered :
      (p : V → Bool) (t : Table V) → IsOrdered t → IsOrdered (filter_rows p t)
  unfolding filter_rows
  filter_rows-IsOrdered p [] o = tt
  filter_rows-IsOrdered p ((j, w) ∷ t) o =
      ground (arith, filter_rows-IsOrdered p t o.1, Above-filter_rows j p t o.0)

  pub filter_rows-Stored : (p : V → Bool) (t : Table V) → IsOrdered t → Stored t (filter_rows p t)
  unfolding filter_rows get
  filter_rows-Stored p [] o = tt
  filter_rows-Stored p ((j, w) ∷ t) o =
      ground (arith, filter_rows-Stored p t o.1, get-cons j w t (filter_rows p t) o.0)

  pub filter_rows-All : (p : V → Bool) (t : Table V) → All (λ e. p (e.1) ≡ true) (filter_rows p t)
  unfolding filter_rows
  filter_rows-All p [] = tt
  filter_rows-All p ((j, w) ∷ t) = ground (arith, filter_rows-All p t)

  find_row-ne :
      (p : V → Bool) (n k : ℕ) (v : V) (t : Table V)
      → Above n t
      → find_row p t ≡ some (k, v)
      → n < k
  unfolding find_row
  find_row-ne p n k v [] a e = cc
  find_row-ne p n k v ((j, w) ∷ t) a e = ground (arith, find_row-ne p n k v t a.1)

  -- What a query finds is stored.
  pub find_row-stored :
      (p : V → Bool) (t : Table V) (k : ℕ) (v : V)
      → IsOrdered t
      → find_row p t ≡ some (k, v)
      → get k t ≡ some v
  unfolding find_row get
  find_row-stored p [] k v o e = cc
  find_row-stored p ((j, w) ∷ t) k v o e =
      ground (arith, find_row-stored p t k v o.1, find_row-ne p j k v t o.0)

  -- A write of a row that is not loaded leaves the loaded rows as they are stored.
  pub put-Stored :
      (k : ℕ) (v : V) (t rows : Table V) → Apart k rows → Stored t rows → Stored (put k v t) rows
  put-Stored k v t [] a s = tt
  put-Stored k v t ((j, w) ∷ rows) a s =
      ground (arith, put-Stored k v t rows a.1 s.1, get-put k j v t)

module _ {ℓ} {V : Type ℓ} (P : V → Type 0) where
  -- Every row has the property.
  abbrev pub AllRows : Table V → Type 0
  AllRows [] = Unit
  AllRows ((j, v) ∷ t) = P v × AllRows t

  pub put-AllRows : (k : ℕ) (v : V) (t : Table V) → P v → AllRows t → AllRows (put k v t)
  unfolding put
  put-AllRows k v [] p h = (p, tt)
  put-AllRows k v ((j, w) ∷ t) p h = ground (arith, put-AllRows k v t p h.1)

  pub get-AllRows : (k : ℕ) (v : V) (t : Table V) → AllRows t → get k t ≡ some v → P v
  unfolding get
  get-AllRows k v [] h e = cc
  get-AllRows k v ((j, w) ∷ t) h e = ground (arith, get-AllRows k v t h.1)

  pub find_row-AllRows :
      (p : V → Bool) (k : ℕ) (v : V) (t : Table V) → AllRows t → find_row p t ≡ some (k, v) → P v
  unfolding find_row
  find_row-AllRows p k v [] h e = cc
  find_row-AllRows p k v ((j, w) ∷ t) h e = ground (arith, find_row-AllRows p k v t h.1)

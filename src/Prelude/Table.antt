-- ===== src/Prelude/Table.antt =====
-- A database table: rows by primary key, in the order of the keys.
pub mod Rows
use Prim.Native.Nat.{ℕ}
use mathlib.Core.Path.{◌≡◌, refl}
use mathlib.Core.Logic.{◌≢◌}
use mathlib.Core.Bool.{Bool, true, false}
use mathlib.Core.List.{List, [], ◌∷◌}
use mathlib.Core.Option.{Option, none, some}
use native.Mathlib.Omega.{arith}
use market_place_app.Prelude.Tests.{ltb, ◌==◌, if◌then◌else◌}

abbrev pub Table {ℓ} : Type ℓ → Type ℓ
Table V = List (ℕ × V)

module _ {ℓ} {V : Type ℓ} where
  -- `select(...).where(id == k)`
  unfoldable pub get : ℕ → Table V → Option V
  get k [] = none
  get k ((j, v) ∷ t) = if j == k then some v else get k t

  -- An update of a loaded row, or the insertion of a new one.
  unfoldable pub put : ℕ → V → Table V → Table V
  put k v [] = (k, v) ∷ []
  put k v ((j, w) ∷ t) =
      let rest = put k v t in
      if j == k then (k, v) ∷ t else if ltb k j then (k, v) ∷ (j, w) ∷ t else (j, w) ∷ rest

  -- The first row that passes a test, with its key.
  unfoldable pub find_row : (V → Bool) → Table V → Option (ℕ × V)
  find_row p [] = none
  find_row p ((j, v) ∷ t) = if p v then some (j, v) else find_row p t

  -- The rows that pass a test, with their keys: `select(...).where(...).order_by(id)`.
  unfoldable pub filter_rows : (V → Bool) → Table V → Table V
  filter_rows p [] = []
  filter_rows p ((j, v) ∷ t) = let rest = filter_rows p t in if p v then (j, v) ∷ rest else rest

  pub get-put :
      (k j : ℕ) (v : V) (t : Table V) → get j (put k v t) ≡ (if k == j then some v else get j t)
  unfolding get put
  get-put k j v [] = refl
  get-put k j v ((i, w) ∷ t) = ground (arith, get-put k j v t)

  pub get-put_self : (k : ℕ) (v : V) (t : Table V) → get k (put k v t) ≡ some v
  get-put_self k v t = ground (arith, get-put k k v t)

  pub find_row-none :
      (p : V → Bool) (k : ℕ) (v : V) (t : Table V)
      → find_row p t ≡ none
      → get k t ≡ some v
      → p v ≡ false
  unfolding find_row get
  find_row-none p k v [] h e = cc
  find_row-none p k v ((j, u) ∷ t) h e = ground (arith, find_row-none p k v t)

  pub find_row-some :
      (p : V → Bool) (t : Table V) (k : ℕ) (v : V) → find_row p t ≡ some (k, v) → p v ≡ true
  unfolding find_row
  find_row-some p [] k v h = cc
  find_row-some p ((j, u) ∷ t) k v h = ground (arith, find_row-some p t k v)

-- ===== src/Inventory/Lookup.antt =====
-- The search for an idempotency key writes nothing.
use market_place_app.Prelude.{ℕ, String, ◌≡◌, refl, Option, none, some, arith}
use market_place_app.Prelude.Session.{Session}
use market_place_app.Inventory.Model.{InventoryDb, Surroundings}
use market_place_app.Inventory.Writes.{idempotency_lookup}

pub lookup_reads :
    (env : Surroundings) (actor : ℕ) (key : Option String) (s : Session InventoryDb Unit)
    → (idempotency_lookup env actor key s).1 ≡ s
unfolding idempotency_lookup
lookup_reads env actor none s = refl
lookup_reads env actor (some key) s = ground arith

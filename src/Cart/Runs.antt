-- ===== src/Cart/Runs.antt =====
-- services/cart-service/app/routes/cart.py: the requests that change carts, and any number of them.
use market_place_app.Prelude.{ℕ, ◌≤◌, ◌≡◌, subst, String, Option, List, [], ◌∷◌, arith, All, not}
use market_place_app.Prelude.Session.{◌>>◌, raise_if, pure, service_error, request}
use market_place_app.Prelude.Principal.{Principal, has_scope}
use market_place_app.Prelude.Session.{Session}
use market_place_app.Cart.Model.{CartDb, CartItemCreate}
use market_place_app.Cart.Clients.{Peers, forbidden}
use market_place_app.Cart.Service.{
  Handler, Caller, Surroundings, create_guest_cart, update_quantity, remove_item, save_for_later,
  delete_saved, clear,
}
use market_place_app.Cart.Changes.{
  add_item, move_saved_to_cart, merge_guest, mark_checked_out, expire_due,
}
use market_place_app.Cart.Keeping.{AllTidy, Safe, OthersKeep}
use market_place_app.Cart.Operations.{
  update_quantity_keeps, remove_item_keeps, clear_keeps, delete_saved_keeps, save_for_later_keeps,
  add_item_keeps,
}
use market_place_app.Cart.Readiness.{readiness, readiness_keeps}
use market_place_app.Cart.Merging.{
  move_saved_keeps, merge_guest_keeps, create_guest_cart_keeps, mark_checked_out_keeps,
  expire_due_keeps,
}

-- A request with the caller that the route reads: a caller with a scope for the internal ones.
pub data Request : Type 0 where
  open_guest : Request
  add : CartItemCreate → Caller → ℕ → Option String → Request
  update : ℕ → ℕ → Caller → ℕ → Request
  remove : ℕ → Caller → ℕ → Request
  save : ℕ → Caller → ℕ → Request
  move_saved : ℕ → Caller → ℕ → Request
  drop_saved : ℕ → Caller → ℕ → Request
  merge : Principal → String → Request
  clear_all : Caller → ℕ → Request
  check : Caller → ℕ → Request
  check_out : Principal → ℕ → ℕ → Request
  expire : Principal → Request

module _ {W : Type 0} (peers : Peers W) where
  unfoldable pub respond : Surroundings → Request → Handler W Unit
  respond env open_guest = create_guest_cart env >> pure tt
  respond env (add body caller version key) = add_item peers env body caller version key >> pure tt
  respond env (update item quantity caller version) =
      update_quantity env item quantity caller version >> pure tt
  respond env (remove item caller version) = remove_item env item caller version >> pure tt
  respond env (save item caller version) = save_for_later env item caller version >> pure tt
  respond env (move_saved saved caller version) =
      move_saved_to_cart peers env saved caller version >> pure tt
  respond env (drop_saved saved caller version) = delete_saved env saved caller version >> pure tt
  respond env (merge p token) = merge_guest env p token >> pure tt
  respond env (clear_all caller version) = clear env caller version >> pure tt
  respond env (check caller version) = readiness peers env caller version >> pure tt
  respond env (check_out p cart customer) = do
    raise_if (not (has_scope p "cart:checkout")) (service_error 403 forbidden)
    mark_checked_out env cart customer
    pure tt
  respond env (expire p) = do
    raise_if (not (has_scope p "cart:expire")) (service_error 403 forbidden)
    expire_due env.now
    pure tt

  unfoldable pub run : List (Surroundings × Request) → CartDb → W → CartDb × W
  unfolding respond
  run [] d w = (d, w)
  run (c ∷ cs) d w = let (r, d', w') = request (respond (c.0) (c.1)) d w in run cs d' w'

-- The settings' limit, which does not change, and other requests that keep the carts tidy.
abbrev pub Fits : ℕ → Surroundings × Request → Type 0
Fits max c = ((c.0).max_item_quantity ≡ max) × OthersKeep (c.0)

module _ {W : Type 0} (peers : Peers W) where
  respond_keeps :
      (env : Surroundings) (r : Request) (s : Session CartDb W)
      → 1 ≤ env.max_item_quantity
      → OthersKeep env
      → Safe env.max_item_quantity s
      → Safe env.max_item_quantity (respond peers env r s).1
  unfolding respond
  respond_keeps env open_guest s one o i = ground (arith, create_guest_cart_keeps env s i)
  respond_keeps env (add body caller version key) s one o i =
      ground (arith, add_item_keeps env o peers body caller version key s i)
  respond_keeps env (update item quantity caller version) s one o i =
      ground (arith, update_quantity_keeps env o item quantity caller version s i)
  respond_keeps env (remove item caller version) s one o i =
      ground (arith, remove_item_keeps env o item caller version s i)
  respond_keeps env (save item caller version) s one o i =
      ground (arith, save_for_later_keeps env o item caller version s i)
  respond_keeps env (move_saved saved caller version) s one o i =
      ground (arith, move_saved_keeps env o peers saved caller version s one i)
  respond_keeps env (drop_saved saved caller version) s one o i =
      ground (arith, delete_saved_keeps env o saved caller version s i)
  respond_keeps env (merge p token) s one o i = ground (arith, merge_guest_keeps env o p token s i)
  respond_keeps env (clear_all caller version) s one o i =
      ground (arith, clear_keeps env o caller version s i)
  respond_keeps env (check caller version) s one o i =
      ground (arith, readiness_keeps peers env o caller version s i)
  respond_keeps env (check_out p cart customer) s one o i =
      ground (arith, mark_checked_out_keeps env cart customer s i)
  respond_keeps env (expire p) s one o i = ground (arith, expire_due_keeps env env.now s i)

-- Whatever is requested and whatever the product and the inventory service answer, every cart keeps
-- at most one line for each variant, none of more than the limit of the settings, which is at least
-- one. Other requests that commit meanwhile keep it as well.
pub run-AllTidy :
    {W : Type 0} (peers : Peers W) (max : ℕ) (cs : List (Surroundings × Request)) (d : CartDb)
    (w : W)
    → 1 ≤ max
    → All (Fits max) cs
    → AllTidy max d
    → AllTidy max (run peers cs d w).0
unfolding run
run-AllTidy peers max [] d w one fits h = h
run-AllTidy peers max (c ∷ cs) d w one fits h =
    let t = respond peers (c.0) (c.1) (record { durable = d; working = d; world = w }) in
    let Keeps : ℕ → Type 0 = λ n. 1 ≤ n → AllTidy n d → AllTidy n t.1.durable in
    let kept : Keeps (c.0).max_item_quantity = λ pos tidy.
      (respond_keeps peers (c.0) (c.1) (record { durable = d; working = d; world = w }) pos
        (fits.0).1 (tidy, tidy)).0 in
    run-AllTidy peers max cs t.1.durable t.1.world one fits.1 (subst Keeps (fits.0).0 kept one h)

-- ===== src/Cart/Changes.antt =====
-- services/cart-service/app/services/cart_service.py: the methods that ask the product service, the
-- merge and the checkout of a cart, and the expiry sweep of repositories/cart_repository.py.
use market_place_app.Prelude.{
  ℕ, ◌+◌, String, Bool, false, Option, none, some, [], ◌∷◌, ◌++◌, ◌==◌, ◌&&◌, leb, ltb, not, length,
  str_eq, is_some, if◌then◌else◌,
}
use market_place_app.Prelude.Table.{Table, get}
use market_place_app.Prelude.Session.{
  pure, query, or_raise, remote, ◌>>=◌, ◌>>◌, raise_if, modify, commit, service_error,
}
use market_place_app.Prelude.Principal.{Principal}
use market_place_app.Cart.Model.{
  CartStatus, is_active, Cart, CartDb, get_guest_cart, get_idempotency, CartItemCreate,
}
use market_place_app.Cart.Clients.{
  Peers, get_snapshot, cart_not_found, guest_cart_not_found, idempotency_conflict, quantity_limit,
  saved_item_not_found, empty_cart,
}
use market_place_app.Cart.Items.{
  add_line, move_line, merge_lines, merge_saved, saved_of_id, remove_saved,
}
use market_place_app.Cart.Service.{
  Handler, Caller, Surroundings, given, expires_at, subject_of, log, save_cart, actor_key,
  remembered, remember, lift, commit_or_conflict, assert_active, resolve_cart, locked_cart, finish,
}

-- A repeated key answers with the cart of the first request, if that is still there.
unfoldable pub replayed :
    {W : Type 0} → Surroundings → String → Option String → Handler W (Option (ℕ × Cart))
replayed env actor none = pure none
replayed env actor (some key) = do
  previous ← query (get_idempotency actor key)
  elim previous [
    | none ↦ pure none
    | some r ↦ do
      raise_if (not (str_eq r.request_hash env.body_hash)) (service_error 409 idempotency_conflict)
      found ← query (λ db. get r.resource_id db.carts)
      elim found [ none ↦ pure none | some c ↦ pure (some (r.resource_id, c)) ]
  ]

-- The rows of `add_item`: the cart, its log and the key, which another request may have used.
unfoldable pub store_addition :
    {W : Type 0} → Surroundings → Caller → String → Option String → ℕ → Cart → Handler W Unit
unfolding save_cart log remember
store_addition env caller actor key id c = do
  modify (save_cart id c)
  modify (log id c (subject_of caller) "cart.item_added" id)
  seen ← query (remembered actor key)
  modify (remember env actor key id)
  commit_or_conflict seen

abbrev pub renewed : Surroundings → Bool → Cart → Cart
renewed env guest c = record c { version = c.version + 1; expires_at = expires_at env guest }

module _ {W : Type 0} (peers : Peers W) where
  -- `add_item`, where the key is not a replay.
  unfoldable pub put_in :
      Surroundings → CartItemCreate → Caller → ℕ → String → Option String → Handler W (ℕ × Cart)
  put_in env body caller expected_version actor key = do
    row ← locked_cart env caller expected_version
    raise_if (ltb env.max_item_quantity body.quantity) (service_error 422 quantity_limit)
    snapshot ← remote (get_snapshot peers body.product_id body.variant_id)
    c ← lift (
        add_line env.max_item_quantity env.max_distinct_items (env.new_id 0) body.quantity snapshot
          row.1)
    let c' = renewed env (not (is_some caller.principal)) c
    store_addition env caller actor key row.0 c'
    pure (row.0, c')

  unfoldable pub add_item :
      Surroundings → CartItemCreate → Caller → ℕ → Option String → Handler W (ℕ × Cart)
  add_item env body caller expected_version idempotency_key = do
    actor ← lift (actor_key env caller)
    let key = given idempotency_key
    earlier ← replayed env actor key
    elim earlier [ some row ↦ pure row | none ↦ put_in env body caller expected_version actor key ]

  unfoldable pub move_saved_to_cart : Surroundings → ℕ → Caller → ℕ → Handler W (ℕ × Cart)
  move_saved_to_cart env saved_item_id caller expected_version = do
    row ← locked_cart env caller expected_version
    saved ←
        or_raise (saved_of_id saved_item_id row.1.saved_items)
          (service_error 404 saved_item_not_found)
    snapshot ← remote (get_snapshot peers saved.product_id saved.variant_id)
    c ← lift (move_line env.max_item_quantity (env.new_id 0) snapshot row.1)
    finish (subject_of caller) row.0
        (record c { saved_items = remove_saved saved_item_id c.saved_items })
        "cart.saved_item_moved" row.0

abbrev pub merged_away : Cart → ℕ → Cart
merged_away guest customer = record guest {
  status = CartStatus.merged;
  merged_into_cart_id = some customer;
  guest_token_hash = none;
  version = guest.version + 1;
}

-- The second outbox event of a checkout.
unfoldable pub link_checkout : ℕ → Cart → CartDb → CartDb
link_checkout id c db = record db {
  outbox =
      db.outbox
      ++ record {
        aggregate_id = id;
        event_type = "cart.checkout_linked";
        customer_id = c.customer_id;
        version = c.version;
      }
        ∷ [];
}

abbrev pub is_customer : Cart → ℕ → Bool
is_customer c customer = elim c.customer_id [ none ↦ false | some k ↦ k == customer ]

module _ {W : Type 0} where
  -- Nothing but the quantities is checked: lines of another currency, and any number of lines, are
  -- taken over.
  unfoldable pub merge_guest : Surroundings → Principal → String → Handler W (ℕ × Cart)
  unfolding save_cart log
  merge_guest env p guest_token = do
    found ← query (get_guest_cart (env.token_hash guest_token))
    guest ← or_raise found (service_error 404 guest_cart_not_found)
    customer ← resolve_cart env (record { principal = some p; guest_token = none })
    items ← lift (merge_lines env.max_item_quantity env.new_id guest.1.items customer.1.items)
    let c = record customer.1 {
      items = items;
      saved_items =
          customer.1.saved_items
          ++ merge_saved env.new_id customer.1.saved_items guest.1.saved_items;
    }
    let c' = renewed env false c
    modify (save_cart guest.0 (merged_away guest.1 customer.0))
    modify (save_cart customer.0 c')
    modify (log customer.0 c' (some p.subject) "cart.guest_merged" customer.0)
    commit_or_conflict false
    pure (customer.0, c')

  unfoldable pub mark_checked_out : Surroundings → ℕ → ℕ → Handler W (ℕ × Cart)
  unfolding save_cart log link_checkout
  mark_checked_out env cart_id customer_id = do
    found ← query (λ db. get cart_id db.carts)
    c ← or_raise found (service_error 404 cart_not_found)
    raise_if (not (is_customer c customer_id)) (service_error 404 cart_not_found)
    assert_active env c
    raise_if (not (leb 1 (length c.items))) (service_error 409 empty_cart)
    let c' = record c { status = CartStatus.checked_out; version = c.version + 1 }
    modify (save_cart cart_id c')
    modify (log cart_id c' (some customer_id) "cart.checked_out" cart_id)
    modify (link_checkout cart_id c')
    commit_or_conflict false
    pure (cart_id, c')

abbrev pub is_due : ℕ → Cart → Bool
is_due now c = is_active c.status && leb c.expires_at now

abbrev pub expired : Cart → Cart
expired c = record c { status = CartStatus.expired; version = c.version + 1 }

-- The rows after the sweep of `expire_due`.
unfoldable pub expire_rows : ℕ → Table Cart → Table Cart
expire_rows now [] = []
expire_rows now ((id, c) ∷ rows) =
    let rest = expire_rows now rows in (id, (if is_due now c then expired c else c)) ∷ rest

unfoldable pub due_count : ℕ → Table Cart → ℕ
due_count now [] = 0
due_count now ((id, c) ∷ rows) =
    let rest = due_count now rows in if is_due now c then rest + 1 else rest

unfoldable pub expire_due : {W : Type 0} → ℕ → Handler W ℕ
unfolding expire_rows
expire_due now = do
  count ← query (λ db. due_count now db.carts)
  modify (λ db. record db { carts = expire_rows now db.carts })
  commit
  pure count

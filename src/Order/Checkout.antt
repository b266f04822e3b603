-- ===== src/Order/Checkout.antt =====
-- services/order-service/app/service.py: `create`, in the stages of its body. Fresh ids, the time,
-- the date's text and the hash of the request body come from outside, and so do the writes that
-- other requests commit while this one waits for its peers (`others`).
use market_place_app.Prelude.{
  ℕ, String, Option, none, some, List, [], ◌∷◌, ◌+◌, ◌==◌, ◌||◌, not, str_eq, is_some,
  if◌then◌else◌,
}
use market_place_app.Prelude.Table.{Table, get, put}
use market_place_app.Prelude.Session.{
  pure, raise, query, or_raise, remote, ◌>>=◌, ◌>>◌, raise_if, modify, commit, rollback, interleave,
  notify, try_pass, service_error, integrity_error, key_error,
}
use market_place_app.Prelude.Principal.{Principal}
use market_place_app.Order.Model.{Order, by_customer_cart, idempotency}
use market_place_app.Order.Clients.{
  idempotency_conflict, order_already_exists, cart_ownership_error, Peers, CartSnapshot,
  CartItemSnapshot, snapshot, seller_for_product, reserve_batch, release_group, mark_checked_out,
  service_token,
}
use market_place_app.Order.Transitions.{Handler}
use market_place_app.Order.Drafts.{
  OrderCreate, Surroundings, breaks_cart_index, breaks_other_index, insert_order, is_empty,
  new_order, order_items, order_number, reservation_lines,
}

module _ {W : Type 0} (peers : Peers W) where
  -- The sellers of the items' products, by product.
  unfoldable pub resolve_sellers : List CartItemSnapshot → Table ℕ → Handler W (Table ℕ)
  resolve_sellers [] cache = pure cache
  resolve_sellers (i ∷ is) cache = do
    seller ← remote (seller_for_product peers i.product_id)
    resolve_sellers is (put i.product_id seller cache)

  -- From the cart's snapshot to the reservation of its lines: the cart, the sellers and the group.
  unfoldable pub reserve :
      Surroundings
      → OrderCreate
      → Principal
      → String
      → String
      → Handler W (CartSnapshot × Table ℕ × ℕ)
  unfolding order_number
  reserve env body principal access_token key = do
    cart ← remote (snapshot peers body.cart_id body.cart_version access_token)
    raise_if (not (cart.customer_id == principal.subject) || is_empty cart.items)
        (service_error 403 cart_ownership_error)
    sellers ← resolve_sellers cart.items []
    lines ← or_raise (reservation_lines sellers cart.items) key_error
    token ← remote (service_token peers access_token)
    group ← remote (
        reserve_batch peers
          (record {
            customer_id = principal.subject;
            cart_reference = cart.id;
            order_reference = order_number env;
            expires_at = env.now + env.reservation_minutes;
            lines = lines;
          })
          token key)
    pure (cart, sellers, group)

  -- The `except` of the commit: the session is rolled back and the stock released, with the
  -- buyer's own token.
  unfoldable pub give_up : ℕ → String → Handler W Unit
  give_up group access_token = do
    rollback
    remote (release_group peers group "Order persistence failed" access_token)

  -- The `commit`, which fails where a unique index is violated.
  unfoldable pub persist :
      Surroundings
      → OrderCreate
      → Order
      → Principal
      → String
      → ℕ
      → String
      → Option String
      → Handler W Unit
  unfolding give_up
  persist env body o principal key group access_token request_id = do
    cart_taken ← query (breaks_cart_index o)
    other_taken ← query (breaks_other_index env.new_id o key)
    modify (insert_order env body o principal key request_id)
    if cart_taken
        then (do give_up group access_token; raise (service_error 409 order_already_exists))
        else if other_taken
        then (do give_up group access_token; raise integrity_error)
        else commit

  -- The best-effort calls after the commit.
  unfoldable pub announce : ℕ → ℕ → Order → String → Handler W Unit
  announce cart_id id o access_token = do
    try_pass (do
      token ← remote (service_token peers access_token)
      remote (mark_checked_out peers cart_id id o.customer_id token))
    notify (peers.post_notification o.customer_id o.order_number "order_created")

  -- `create` from the insertion of the rows on.
  unfoldable pub complete :
      Surroundings
      → OrderCreate
      → ℕ
      → Order
      → Principal
      → String
      → ℕ
      → String
      → Option String
      → Handler W (ℕ × Order)
  complete env body cart_id o principal key group access_token request_id = do
    persist env body o principal key group access_token request_id
    announce cart_id env.new_id o access_token
    pure (env.new_id, o)

  -- A checkout of a cart that has no live order yet.
  unfoldable pub place :
      Surroundings
      → OrderCreate
      → Principal
      → String
      → String
      → Option String
      → Handler W (ℕ × Order)
  place env body principal access_token key request_id = do
    existing ← query (by_customer_cart principal.subject body.cart_id)
    raise_if (is_some existing) (service_error 409 order_already_exists)
    (cart, sellers, group) ← reserve env body principal access_token key
    interleave env.others
    items ← or_raise (order_items sellers cart.items) key_error
    let o = new_order env body principal cart group items
    complete env body cart.id o principal key group access_token request_id

  -- `create`: a replayed key answers with the order that it made.
  unfoldable pub create :
      Surroundings
      → OrderCreate
      → Principal
      → String
      → String
      → Option String
      → Handler W (ℕ × Order)
  create env body principal access_token key request_id = do
    previous ← query (idempotency principal.subject key)
    elim previous [
      | none ↦ place env body principal access_token key request_id
      | some seen ↦ do
        raise_if (not (str_eq seen.request_hash (env.hash body)))
            (service_error 409 idempotency_conflict)
        found ← query (λ db. get seen.resource_id db.orders)
        elim found [
          | none ↦ place env body principal access_token key request_id
          | some o ↦ pure (seen.resource_id, o)
        ]
    ]

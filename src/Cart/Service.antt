-- ===== src/Cart/Service.antt =====
-- services/cart-service/app/services/cart_service.py: the methods that change a cart.
use market_place_app.Prelude.{
  ℕ, ◌+◌, String, ◌+++◌, Bool, true, false, Option, none, some, [], ◌∷◌, ◌++◌, ◌==◌, leb, ltb, not,
  str_eq, is_some, if◌then◌else◌,
}
use market_place_app.Prelude.Table.{get, put}
use market_place_app.Prelude.Session.{
  Tx, Result, ok, err, pure, raise, query, or_raise, ◌>>=◌, ◌>>◌, raise_if, modify, commit,
  rollback, interleave, service_error, integrity_error,
}
use market_place_app.Prelude.Principal.{Principal}
use market_place_app.Cart.Model.{
  CartStatus, is_active, Cart, CartDb, get_active_customer_cart, get_guest_cart, get_idempotency,
}
use market_place_app.Cart.Clients.{
  Error, concurrent_cart_change, cart_not_active, cart_expired, version_conflict,
  cart_identity_required, guest_cart_not_found, quantity_limit, cart_item_not_found,
  saved_item_not_found,
}
use market_place_app.Cart.Items.{
  item_of_id, set_quantity, remove, saved_of_id, remove_saved, has_saved, saved_from,
}

abbrev pub Handler : Type 0 → Type 0 → Type 0
Handler W A = Tx CartDb W Error A

-- Who asks: a token's principal, or a guest's cart token.
pub record Caller : Type 0 where
  pub principal : Option Principal
  pub guest_token : Option String

-- New ids, the clock, SHA-256 of a token and of the request's body, the settings, and what other
-- requests commit before this one opens a cart.
pub record Surroundings : Type 0 where
  pub new_cart : ℕ
  pub new_id : ℕ → ℕ
  pub raw_token : String
  pub now : ℕ
  pub token_hash : String → String
  pub subject_text : ℕ → String
  pub body_hash : String
  pub cart_ttl : ℕ
  pub guest_cart_ttl : ℕ
  pub max_distinct_items : ℕ
  pub max_item_quantity : ℕ
  pub others : CartDb → CartDb

abbrev pub given : Option String → Option String
given none = none
given (some s) = if str_eq s "" then none else some s

-- `_expires_at`
abbrev pub expires_at : Surroundings → Bool → ℕ
expires_at env guest = env.now + (if guest then env.guest_cart_ttl else env.cart_ttl)

abbrev pub subject_of : Caller → Option ℕ
subject_of caller = elim caller.principal [ none ↦ none | some p ↦ some p.subject ]

-- `_record`
unfoldable pub log : ℕ → Cart → Option ℕ → String → ℕ → CartDb → CartDb
log id c actor event_type resource db = record db {
  audit_logs =
      db.audit_logs
      ++ record {
        actor_id = actor;
        action = event_type;
        resource_id = resource;
        cart_version = c.version;
      }
        ∷ [];
  outbox =
      db.outbox
      ++ record {
        aggregate_id = id;
        event_type = event_type;
        customer_id = c.customer_id;
        version = c.version;
      }
        ∷ [];
}

unfoldable pub save_cart : ℕ → Cart → CartDb → CartDb
save_cart id c db = record db { carts = put id c db.carts }

abbrev pub empty_cart_of : Option ℕ → Option String → ℕ → Cart
empty_cart_of customer hash expiry = record {
  customer_id = customer;
  guest_token_hash = hash;
  status = CartStatus.active;
  currency_code = "USD";
  expires_at = expiry;
  merged_into_cart_id = none;
  version = 1;
  items = [];
  saved_items = [];
}

-- `_actor_key`
abbrev pub actor_key : Surroundings → Caller → Result Error String
actor_key env caller = elim caller.principal [
  | some p ↦ ok ("customer:" +++ env.subject_text p.subject)
  | none ↦ elim (given caller.guest_token) [
    | some token ↦ ok ("guest:" +++ env.token_hash token)
    | none ↦ err (service_error 401 cart_identity_required)
  ]
]

abbrev pub remembered : String → Option String → CartDb → Bool
remembered actor none db = false
remembered actor (some key) db = is_some (get_idempotency actor key db)

unfoldable pub remember : Surroundings → String → Option String → ℕ → CartDb → CartDb
remember env actor none id db = db
remember env actor (some key) id db = record db {
  idempotency_records =
      db.idempotency_records
      ++ record {
        actor_key = actor;
        idempotency_key = key;
        request_hash = env.body_hash;
        resource_id = id;
      }
        ∷ [];
}

module _ {W : Type 0} where
  abbrev pub lift : {A : Type 0} → Result Error A → Handler W A
  lift r s = (r, s)

  -- `_commit`, where a violated constraint is a conflict
  unfoldable pub commit_or_conflict : Bool → Handler W Unit
  commit_or_conflict broken =
      if broken then (do rollback; raise (service_error 409 concurrent_cart_change)) else commit

  -- `_assert_active`
  unfoldable pub assert_active : Surroundings → Cart → Handler W Unit
  assert_active env c = do
    raise_if (not (is_active c.status)) (service_error 409 cart_not_active)
    raise_if (leb c.expires_at env.now) (service_error 410 cart_expired)

  -- A customer's first cart. At most one of a customer's carts is active.
  unfoldable pub open_cart : Surroundings → Principal → Handler W (ℕ × Cart)
  unfolding save_cart
  open_cart env p = do
    interleave env.others
    mine ← query (get_active_customer_cart p.subject)
    raise_if (is_some mine) integrity_error
    same_key ← query (λ db. get env.new_cart db.carts)
    raise_if (is_some same_key) integrity_error
    let c = empty_cart_of (some p.subject) none (expires_at env false)
    modify (save_cart env.new_cart c)
    pure (env.new_cart, c)

  unfoldable pub customer_cart : Surroundings → Principal → Handler W (ℕ × Cart)
  customer_cart env p = do
    found ← query (get_active_customer_cart p.subject)
    elim found [ some row ↦ pure row | none ↦ open_cart env p ]

  unfoldable pub guest_cart : Surroundings → Option String → Handler W (ℕ × Cart)
  guest_cart env none = raise (service_error 401 cart_identity_required)
  guest_cart env (some token) = do
    found ← query (get_guest_cart (env.token_hash token))
    or_raise found (service_error 404 guest_cart_not_found)

  -- `resolve_cart`, for update
  unfoldable pub resolve_cart : Surroundings → Caller → Handler W (ℕ × Cart)
  resolve_cart env caller = do
    row ← elim caller.principal [
      | some p ↦ customer_cart env p
      | none ↦ guest_cart env (given caller.guest_token)
    ]
    assert_active env row.1
    pure row

  -- The first lines of every method: the cart, locked, at the version that the caller knows.
  unfoldable pub locked_cart : Surroundings → Caller → ℕ → Handler W (ℕ × Cart)
  locked_cart env caller expected_version = do
    row ← resolve_cart env caller
    raise_if (not (row.1.version == expected_version)) (service_error 409 version_conflict)
    pure row

  -- Their last lines: the cart with its next version, logged and committed.
  unfoldable pub finish : Option ℕ → ℕ → Cart → String → ℕ → Handler W (ℕ × Cart)
  unfolding save_cart log
  finish actor id c event_type resource = do
    let c' = record c { version = c.version + 1 }
    modify (save_cart id c')
    modify (log id c' actor event_type resource)
    commit_or_conflict false
    pure (id, c')

  unfoldable pub create_guest_cart : Surroundings → Handler W (ℕ × Cart)
  unfolding save_cart log
  create_guest_cart env = do
    let c = empty_cart_of none (some (env.token_hash env.raw_token)) (expires_at env true)
    same_key ← query (λ db. get env.new_cart db.carts)
    raise_if (is_some same_key) integrity_error
    modify (save_cart env.new_cart c)
    modify (log env.new_cart c none "cart.created" env.new_cart)
    commit_or_conflict false
    pure (env.new_cart, c)

  unfoldable pub update_quantity : Surroundings → ℕ → ℕ → Caller → ℕ → Handler W (ℕ × Cart)
  update_quantity env item_id quantity caller expected_version = do
    row ← locked_cart env caller expected_version
    raise_if (ltb env.max_item_quantity quantity) (service_error 422 quantity_limit)
    or_raise (item_of_id item_id row.1.items) (service_error 404 cart_item_not_found)
    finish (subject_of caller) row.0
        (record row.1 { items = set_quantity item_id quantity row.1.items }) "cart.item_updated"
        item_id

  unfoldable pub remove_item : Surroundings → ℕ → Caller → ℕ → Handler W (ℕ × Cart)
  remove_item env item_id caller expected_version = do
    row ← locked_cart env caller expected_version
    or_raise (item_of_id item_id row.1.items) (service_error 404 cart_item_not_found)
    finish (subject_of caller) row.0 (record row.1 { items = remove item_id row.1.items })
        "cart.item_removed" item_id

  unfoldable pub save_for_later : Surroundings → ℕ → Caller → ℕ → Handler W (ℕ × Cart)
  save_for_later env item_id caller expected_version = do
    row ← locked_cart env caller expected_version
    item ← or_raise (item_of_id item_id row.1.items) (service_error 404 cart_item_not_found)
    let saved = row.1.saved_items
    finish (subject_of caller) row.0
        (record row.1 {
          items = remove item_id row.1.items;
          saved_items =
              if has_saved item.variant_id saved
              then saved
              else saved ++ saved_from (env.new_id 0) item ∷ [];
        })
        "cart.item_saved" row.0

  unfoldable pub delete_saved : Surroundings → ℕ → Caller → ℕ → Handler W (ℕ × Cart)
  delete_saved env saved_item_id caller expected_version = do
    row ← locked_cart env caller expected_version
    or_raise (saved_of_id saved_item_id row.1.saved_items) (service_error 404 saved_item_not_found)
    finish (subject_of caller) row.0
        (record row.1 { saved_items = remove_saved saved_item_id row.1.saved_items })
        "cart.saved_item_removed" row.0

  unfoldable pub clear : Surroundings → Caller → ℕ → Handler W (ℕ × Cart)
  clear env caller expected_version = do
    row ← locked_cart env caller expected_version
    finish (subject_of caller) row.0 (record row.1 { items = [] }) "cart.cleared" row.0

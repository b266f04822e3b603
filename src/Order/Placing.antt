-- ===== src/Order/Placing.antt =====
-- Checkout: what is stored and what is reserved when `create` ends, on every path.
use market_place_app.Prelude.{
  ℕ, String, ◌≡◌, ◌≢◌, refl, sym, subst, Bool, true, false, Option, none, some, List, [], ◌∷◌,
  arith, Option-cases, Bool-cases, inl, inr, if◌then◌else◌, not, ◌&&◌,
}
use market_place_app.Prelude.Table.{Table, put}
use market_place_app.Prelude.Session.{
  Result, ok, err, Failure, Session, request, remote, bind_keeps,
}
use market_place_app.Prelude.Principal.{Principal}
use market_place_app.Order.Model.{Order, OrderDb, OrderItem, by_customer_cart}
use market_place_app.Order.Clients.{
  Code, Peers, CartSnapshot, CartItemSnapshot, release_group, mark_checked_out, service_token,
  read_token, read_checked_out, seller_for_product,
}
use market_place_app.Order.Lines.{LineByLine, order_items-LineByLine}
use market_place_app.Order.Checkout.{resolve_sellers, reserve, persist, announce, complete, place}
use market_place_app.Order.Drafts.{
  OrderCreate, Surroundings, reservation_lines, order_items, new_order, insert_order,
  breaks_cart_index, breaks_other_index,
}

-- A session that has written nothing yet.
abbrev pub fresh : {W : Type 0} → OrderDb → W → Session OrderDb W
fresh d w = record { durable = d; working = d; world = w }

abbrev is_ok : {A : Type 0} → Result (Failure Code) A → Bool
is_ok (ok a) = true
is_ok (err e) = false

-- The items are built where the lines were: a lookup that succeeded once succeeds again.
order_items-some :
    (cache : Table ℕ) (is : List CartItemSnapshot)
    → reservation_lines cache is ≢ none
    → order_items cache is ≢ none
unfolding reservation_lines order_items
order_items-some cache [] h = λ e. cc
order_items-some cache (i ∷ is) h = ground (arith, order_items-some cache is)

module _ {W : Type 0} (peers : Peers W) (env : Surroundings) (body : OrderCreate) (p : Principal)
    (token key : String) (rid : Option String) where
  abbrev released : ℕ → W → W
  released group w = (release_group peers group "Order persistence failed" token w).1

  abbrev pub is_free : Order → OrderDb → Bool
  is_free o d = not (breaks_cart_index o d) && not (breaks_other_index env.new_id o key d)

  -- How the commit ends: everything is stored, or nothing is and the stock is given back.
  abbrev Commits : Result (Failure Code) Unit × OrderDb × W → Order → ℕ → OrderDb → W → Type 0
  Commits (r, d', w') o group d w =
      if is_free o d
      then (r ≡ ok tt) × (d' ≡ insert_order env body o p key rid d) × (w' ≡ w)
      else (r ≢ ok tt) × (d' ≡ d) × (w' ≡ released group w)

  persist_lem :
      (o : Order) (group : ℕ) (d : OrderDb) (w : W)
      → Commits (request (persist peers env body o p key group token rid) d w) o group d w
  unfolding persist
  persist_lem o group d w = ground arith

  announce_keeps :
      (cart id : ℕ) (o : Order) (s : Session OrderDb W)
      → ((announce peers cart id o token s).0 ≡ ok tt)
        × ((announce peers cart id o token s).1.durable ≡ s.durable)
  unfolding announce mark_checked_out service_token read_token read_checked_out
  announce_keeps cart id o s = ground arith

  resolve_sellers_keeps :
      (is : List CartItemSnapshot) (cache : Table ℕ) (s : Session OrderDb W)
      → (resolve_sellers peers is cache s).1.durable ≡ s.durable
  unfolding resolve_sellers
  resolve_sellers_keeps [] cache s = refl
  resolve_sellers_keeps (i ∷ is) cache s =
      bind_keeps (remote (seller_for_product peers i.product_id))
        (λ seller. resolve_sellers peers is (put i.product_id seller cache)) s refl
        (λ seller s'. resolve_sellers_keeps is (put i.product_id seller cache) s')

  pub reserve_keeps :
      (s : Session OrderDb W) → (reserve peers env body p token key s).1.durable ≡ s.durable
  unfolding reserve
  reserve_keeps s = grind (arith, resolve_sellers_keeps)

  reserve_lines :
      (s s₁ : Session OrderDb W) (cart : CartSnapshot) (sellers : Table ℕ) (group : ℕ)
      → reserve peers env body p token key s ≡ (ok (cart, sellers, group), s₁)
      → reservation_lines sellers cart.items ≢ none
  unfolding reserve
  reserve_lines s s₁ cart sellers group h = ground arith

  -- `place` from the commit on, once the stock is reserved.
  place-persist :
      (d : OrderDb) (w : W) (cart : CartSnapshot) (sellers : Table ℕ) (group : ℕ)
      (s : Session OrderDb W) (items : List OrderItem)
      → by_customer_cart p.subject body.cart_id d ≡ none
      → reserve peers env body p token key (fresh d w) ≡ (ok (cart, sellers, group), s)
      → order_items sellers cart.items ≡ some items
      → place peers env body p token key rid (fresh d w)
        ≡ complete peers env body cart.id
            (new_order env body p cart group items)
            p
            key
            group
            token
            rid
            (fresh (env.others d) s.world)
  unfolding place
  place-persist d w cart sellers group s items none_yet reserved e =
      ground (arith, reserve_keeps (fresh d w))

  -- How a checkout ends that found `d` when it stored its order, and held `group` at `w`.
  abbrev pub Settles :
      Order → ℕ → OrderDb → W → Result (Failure Code) (ℕ × Order) × OrderDb × W → Type 0
  Settles o group d w (r, d', w') =
      if is_free o d
      then (r ≡ ok (env.new_id, o)) × (d' ≡ insert_order env body o p key rid d)
      else (is_ok r ≡ false) × (d' ≡ d) × (w' ≡ released group w)

  finish :
      (cart : ℕ) (o : Order) (group : ℕ) (d : OrderDb) (w : W)
      → Settles o group d w (request (complete peers env body cart o p key group token rid) d w)
  unfolding complete
  finish cart o group d w =
      let persisted = persist peers env body o p key group token rid (fresh d w) in
      let end = persist_lem o group d w in
      elim (Bool-cases (is_free o d)) [
        | inl f ↦ rw f (ground (arith, rw f at end, announce_keeps cart env.new_id o persisted.1))
        | inr f ↦ rw f (ground (arith, rw f at end))
      ]

  item_lines :
      (cart : CartSnapshot) (sellers : Table ℕ) (group : ℕ) (items : List OrderItem)
      → order_items sellers cart.items ≡ some items
      → LineByLine sellers cart.items (new_order env body p cart group items).items
  unfolding new_order
  item_lines cart sellers group items e = order_items-LineByLine sellers cart.items items e

  -- A checkout whose stock is reserved either stores the order with one item for each line of
  -- the cart, as it was sold there and under the seller looked up for it, and with its history, event, audit record and
  -- idempotency key, and answers with it; or it stores nothing, answers with an error and asks for
  -- the release of the stock: whatever the other services answer, and whatever other requests
  -- commit meanwhile.
  pub place_lem :
      (d : OrderDb) (w : W) (cart : CartSnapshot) (sellers : Table ℕ) (group : ℕ)
      (s : Session OrderDb W)
      → by_customer_cart p.subject body.cart_id d ≡ none
      → reserve peers env body p token key (fresh d w) ≡ (ok (cart, sellers, group), s)
      → (items : List OrderItem) × (order_items sellers cart.items ≡ some items)
        × LineByLine sellers cart.items (new_order env body p cart group items).items
        × Settles
            (new_order env body p cart group items)
            group
            (env.others d)
            s.world
            (request (place peers env body p token key rid) d w)
  place_lem d w cart sellers group s none_yet reserved =
      elim (Option-cases (order_items sellers cart.items)) [
        | inl e ↦ absurd (
            order_items-some sellers cart.items
              (reserve_lines (fresh d w) s cart sellers group reserved) e)
        | inr (items, e) ↦
            let o = new_order env body p cart group items in
            let d₁ = env.others d in
            (
              items,
              e,
              item_lines cart sellers group items e,
              subst
                  (λ (x : Result (Failure Code) (ℕ × Order) × Session OrderDb W).
                    Settles o group d₁ s.world (x.0, x.1.durable, x.1.world))
                  (sym (place-persist d w cart sellers group s items none_yet reserved e))
                  (finish cart.id o group d₁ s.world),
            )
      ]

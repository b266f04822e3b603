-- ===== src/Order/Checkouts.antt =====
-- A whole checkout request keeps what its insertion keeps: one live order for each cart, and the
-- logs of every order.
use market_place_app.Prelude.{
  ℕ, String, ◌≡◌, refl, sym, subst, ap, true, Option, none, List, arith, Option-cases, Bool-cases,
  inl, inr, sum_of-append,
}
use market_place_app.Prelude.Table.{Table, get, get-put}
use market_place_app.Prelude.Session.{Result, ok, Failure, Session, request, Result-cases}
use market_place_app.Prelude.Principal.{Principal}
use market_place_app.Order.Model.{OrderStatus, Order, OrderDb, OrderItem, by_customer_cart}
use market_place_app.Order.Clients.{Peers, CartSnapshot, Code}
use market_place_app.Order.Checkout.{reserve, place, create}
use market_place_app.Order.Drafts.{
  OrderCreate, Surroundings, new_order, insert_order, breaks_other_index,
}
use market_place_app.Order.Uniqueness.{OneLiveOrder, insert_order-OneLiveOrder}
use market_place_app.Order.Logged.{IsLogged, last_status-append}
use market_place_app.Order.Placing.{Settles, is_free, fresh, reserve_keeps, place_lem}

module _ {W : Type 0} (peers : Peers W) (env : Surroundings) (body : OrderCreate) (p : Principal)
    (token key : String) (rid : Option String) where
  -- The insertion of a checkout's order, where no constraint is in its way, keeps `P`.
  abbrev InsertKeeps : (OrderDb → Type 0) → Type 0
  InsertKeeps P =
      (cart : CartSnapshot) (group : ℕ) (items : List OrderItem) (d : OrderDb)
      → is_free peers env body p token key rid (new_order env body p cart group items) d ≡ true
      → P d
      → P (insert_order env body (new_order env body p cart group items) p key rid d)

  module _ (P : OrderDb → Type 0) (keep : InsertKeeps P) where
    settled-P :
        (cart : CartSnapshot) (group : ℕ) (items : List OrderItem) (d : OrderDb) (w : W)
        (t : Result (Failure Code) (ℕ × Order) × OrderDb × W)
        → Settles peers env body p token key rid (new_order env body p cart group items) group d w t
        → P d
        → P t.1
    settled-P cart group items d w t s h =
        elim (Bool-cases
          (is_free peers env body p token key rid (new_order env body p cart group items) d)) [
            | inl e ↦ subst P (sym (rw e at s).1) (keep cart group items d e h)
            | inr e ↦ subst P (sym (rw e at s).1) h
          ]

    -- From the commit on, once the stock is reserved.
    stored-P :
        (d : OrderDb) (w : W) (cart : CartSnapshot) (sellers : Table ℕ) (group : ℕ)
        (s : Session OrderDb W)
        → by_customer_cart p.subject body.cart_id d ≡ none
        → reserve peers env body p token key (fresh d w) ≡ (ok (cart, sellers, group), s)
        → P (env.others d)
        → P (request (place peers env body p token key rid) d w).1
    stored-P d w cart sellers group s none_yet reserved h =
        let (items, built, lines, settles) =
          place_lem peers env body p token key rid d w cart sellers group s none_yet reserved in
        settled-P cart group items (env.others d) s.world
          (request (place peers env body p token key rid) d w) settles h

    place-P :
        (d : OrderDb) (w : W)
        → P d
        → P (env.others d)
        → P (request (place peers env body p token key rid) d w).1
    unfolding place
    place-P d w h h' =
        let reserved = reserve peers env body p token key (fresh d w) in
        elim (Option-cases (by_customer_cart p.subject body.cart_id d)) [
          | inr (o, e) ↦ ground arith
          | inl e ↦ elim (Result-cases reserved.0) [
            | inl ((cart, sellers, group), f) ↦
                stored-P d w cart sellers group reserved.1 e
                  (ap (λ (r : Result (Failure Code) (CartSnapshot × Table ℕ × ℕ)). (r, reserved.1))
                    f)
                  h'
            | inr (x, f) ↦ ground (arith, reserve_keeps peers env body p token key rid (fresh d w))
          ]
        ]

    create-P :
        (d : OrderDb) (w : W)
        → P d
        → P (env.others d)
        → P (request (create peers env body p token key rid) d w).1
    unfolding create
    create-P d w h h' = ground (arith, place-P d w h h')

  -- A checkout, however it ends and replays included, keeps at most one live order of each
  -- customer for each cart, where the requests that commit meanwhile do.
  pub create-OneLiveOrder :
      (d : OrderDb) (w : W)
      → OneLiveOrder d
      → OneLiveOrder (env.others d)
      → OneLiveOrder (request (create peers env body p token key rid) d w).1
  create-OneLiveOrder = create-P OneLiveOrder (λ cart group items d free h.
      insert_order-OneLiveOrder env body (new_order env body p cart group items) p key rid d
        (ground arith) h)

insert_order-IsLogged :
    (j : ℕ) (env : Surroundings) (body : OrderCreate) (o : Order) (p : Principal) (key : String)
    (rid : Option String) (d : OrderDb)
    → get env.new_id d.orders ≡ none
    → o.status ≡ OrderStatus.pending_payment
    → o.version ≡ 1
    → IsLogged j d
    → IsLogged j (insert_order env body o p key rid d)
unfolding insert_order
insert_order-IsLogged j env body o p key rid d new first one h =
    grind (arith, get-put, last_status-append, sum_of-append)

module _ {W : Type 0} (j : ℕ) (peers : Peers W) (env : Surroundings) (body : OrderCreate)
    (p : Principal) (token key : String) (rid : Option String) where
  insert_new-IsLogged : InsertKeeps peers env body p token key rid (IsLogged j)
  unfolding breaks_other_index new_order
  insert_new-IsLogged cart group items d free h =
      let o = new_order env body p cart group items in
      elim (Option-cases (get env.new_id d.orders)) [
        | inl e ↦ insert_order-IsLogged j env body o p key rid d e refl refl h
        | inr (old, e) ↦ absurd (ground arith)
      ]

  -- A checkout, however it ends, keeps the logs of every order complete, its own included: the
  -- history ends in the order's status, and each version has its event and its audit record; where
  -- the requests that commit meanwhile do.
  pub create-IsLogged :
      (d : OrderDb) (w : W)
      → IsLogged j d
      → IsLogged j (env.others d)
      → IsLogged j (request (create peers env body p token key rid) d w).1
  create-IsLogged = create-P peers env body p token key rid (IsLogged j) insert_new-IsLogged

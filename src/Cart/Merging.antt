-- ===== src/Cart/Merging.antt =====
-- The merge, the move of a saved item, the checkout and the sweep, against the bounds of Cart.Tidy.
use market_place_app.Prelude.{
  ℕ, ◌+◌, ◌≤◌, String, true, false, none, some, [], ◌∷◌, arith, Option-cases, inl, inr, ◌++◌,
}
use market_place_app.Prelude.Table.{Table, get}
use market_place_app.Prelude.Table.Rows.{AllRows, get-AllRows}
use market_place_app.Prelude.Session.{Session, Result-cases}
use market_place_app.Prelude.Principal.{Principal}
use market_place_app.Cart.Model.{CartStatus, Cart, CartDb, get_guest_cart}
use market_place_app.Cart.Clients.{Peers, get_snapshot}
use market_place_app.Cart.Items.{move_line, merge_lines, merge_saved, saved_of_id, remove_saved}
use market_place_app.Cart.Tidy.{IsTidy, move_line-IsTidy, merge_lines-IsTidy}
use market_place_app.Cart.Service.{
  Caller, Surroundings, save_cart, log, commit_or_conflict, assert_active, empty_cart_of,
  expires_at, locked_cart, resolve_cart, create_guest_cart, subject_of,
}
use market_place_app.Cart.Changes.{
  renewed, move_saved_to_cart, merge_guest, mark_checked_out, merged_away, link_checkout,
  expire_rows, expire_due,
}
use market_place_app.Cart.Keeping.{
  Safe, OthersKeep, save_cart-AllTidy, guest_row-IsTidy, resolve_cart_keeps, locked_cart_keeps,
  finish_keeps,
}

module _ {W : Type 0} (env : Surroundings) (o : OthersKeep env) where
  pub move_saved_keeps :
      (peers : Peers W) (saved : ℕ) (caller : Caller) (version : ℕ) (s : Session CartDb W)
      → 1 ≤ env.max_item_quantity
      → Safe env.max_item_quantity s
      → Safe env.max_item_quantity (move_saved_to_cart peers env saved caller version s).1
  unfolding move_saved_to_cart
  move_saved_keeps peers saved caller version s one i =
      let t = locked_cart {W = W} env caller version s in
      let h = locked_cart_keeps env o caller version s i in
      elim (Result-cases t.0) [
        | inl ((id, c), e) ↦ elim (Option-cases (saved_of_id saved c.saved_items)) [
          | inl f ↦ ground (arith, h)
          | inr (y, f) ↦
              let got = get_snapshot peers y.product_id y.variant_id t.1.world in
              elim (Result-cases got.0) [
                | inl (x, g) ↦
                    let moved = move_line env.max_item_quantity (env.new_id 0) x c in
                    let tidy = move_line-IsTidy env.max_item_quantity (env.new_id 0) x c one in
                    elim (Result-cases moved) [
                      | inl (c', k) ↦ ground (
                        arith,
                        h,
                        tidy,
                        finish_keeps env (subject_of caller) id
                            (record c' { saved_items = remove_saved saved c'.saved_items })
                            "cart.saved_item_moved" id (record t.1 { world = got.1 }),
                      )
                      | inr (z, k) ↦ ground (arith, h)
                    ]
                | inr (z, g) ↦ ground (arith, h)
              ]
        ]
        | inr (x, e) ↦ ground (arith, h)
      ]

  pub merge_guest_keeps :
      (p : Principal) (token : String) (s : Session CartDb W)
      → Safe env.max_item_quantity s
      → Safe env.max_item_quantity (merge_guest env p token s).1
  unfolding merge_guest commit_or_conflict log
  merge_guest_keeps p token s i =
      elim (Option-cases (get_guest_cart (env.token_hash token) s.working)) [
        | inl e ↦ ground arith
        | inr ((gid, guest), e) ↦
            let caller : Caller = record { principal = some p; guest_token = none } in
            let guest_tidy =
              guest_row-IsTidy env.max_item_quantity (env.token_hash token) gid guest s.working i.1
                e in
            let t = resolve_cart {W = W} env caller s in
            let h = resolve_cart_keeps env o caller s i in
            elim (Result-cases t.0) [
              | inl ((id, c), f) ↦
                  let merged = merge_lines env.max_item_quantity env.new_id guest.items c.items in
                  let tidy =
                    merge_lines-IsTidy env.max_item_quantity env.new_id guest.items c.items
                      guest_tidy in
                  elim (Result-cases merged) [
                    | inl (items, g) ↦
                        let away = merged_away guest id in
                        let c' = record c {
                          items = items;
                          saved_items =
                              c.saved_items
                              ++ merge_saved env.new_id c.saved_items guest.saved_items;
                        } in
                        ground (
                          arith,
                          h,
                          tidy,
                          save_cart-AllTidy env.max_item_quantity gid away t.1.working guest_tidy,
                          save_cart-AllTidy env.max_item_quantity id (renewed env false c')
                              (save_cart gid away t.1.working),
                        )
                    | inr (y, g) ↦ ground (arith, h)
                  ]
              | inr (x, f) ↦ ground (arith, h)
            ]
      ]

expire_rows_keeps :
    (max now : ℕ) (rows : Table Cart)
    → AllRows (λ (c : Cart). IsTidy max c.items) rows
    → AllRows (λ (c : Cart). IsTidy max c.items) (expire_rows now rows)
unfolding expire_rows
expire_rows_keeps max now [] h = tt
expire_rows_keeps max now ((id, c) ∷ rows) h = ground (arith, expire_rows_keeps max now rows h.1)

module _ {W : Type 0} (env : Surroundings) where
  pub create_guest_cart_keeps :
      (s : Session CartDb W)
      → Safe env.max_item_quantity s
      → Safe env.max_item_quantity (create_guest_cart env s).1
  unfolding create_guest_cart commit_or_conflict log
  create_guest_cart_keeps s i =
      let c = empty_cart_of none (some (env.token_hash env.raw_token)) (expires_at env true) in
      ground (arith, save_cart-AllTidy env.max_item_quantity env.new_cart c s.working tt i.1)

  pub mark_checked_out_keeps :
      (id customer : ℕ) (s : Session CartDb W)
      → Safe env.max_item_quantity s
      → Safe env.max_item_quantity (mark_checked_out env id customer s).1
  unfolding mark_checked_out assert_active commit_or_conflict log link_checkout
  mark_checked_out_keeps id customer s i = elim (Option-cases (get id s.working.carts)) [
    | inl e ↦ ground arith
    | inr (c, e) ↦
        let tidy =
          get-AllRows (λ (x : Cart). IsTidy env.max_item_quantity x.items) id c s.working.carts i.1
            e in
        let c' = record c { status = CartStatus.checked_out; version = c.version + 1 } in
        ground (arith, save_cart-AllTidy env.max_item_quantity id c' s.working tidy i.1)
  ]

  pub expire_due_keeps :
      (now : ℕ) (s : Session CartDb W)
      → Safe env.max_item_quantity s
      → Safe env.max_item_quantity (expire_due now s).1
  unfolding expire_due
  expire_due_keeps now s i =
      ground (arith, expire_rows_keeps env.max_item_quantity now s.working.carts i.1)

-- ===== src/Cart/Operations.antt =====
-- The methods of Cart.Service, and add_item, against the bounds of Cart.Tidy.
use market_place_app.Prelude.{
  ℕ, String, Option, none, some, [], ◌∷◌, arith, Option-cases, inl, inr, is_some, ◌++◌, not,
  if◌then◌else◌,
}
use market_place_app.Prelude.Table.{get}
use market_place_app.Prelude.Session.{Session, Result-cases}
use market_place_app.Cart.Model.{Cart, CartDb, get_idempotency, CartItemCreate}
use market_place_app.Cart.Clients.{Peers, get_snapshot}
use market_place_app.Cart.Items.{
  item_of_id, set_quantity, remove, add_line, remove_saved, has_saved, saved_from,
}
use market_place_app.Cart.Tidy.{IsTidy, set_quantity-IsTidy, remove-IsTidy, add_line-IsTidy}
use market_place_app.Cart.Service.{
  Caller, Surroundings, log, commit_or_conflict, locked_cart, update_quantity, remove_item,
  save_for_later, delete_saved, clear, given, subject_of, actor_key,
}
use market_place_app.Cart.Changes.{replayed, store_addition, renewed, put_in, add_item}
use market_place_app.Cart.Keeping.{
  Safe, OthersKeep, KeepsTidy, save_cart-AllTidy, locked_cart_keeps, finish_keeps,
}

module _ {W : Type 0} (env : Surroundings) (o : OthersKeep env) where
  pub update_quantity_keeps :
      (item q : ℕ) (caller : Caller) (version : ℕ)
      → KeepsTidy {W = W} env (update_quantity env item q caller version)
  unfolding update_quantity
  update_quantity_keeps item q caller version s i =
      let t = locked_cart {W = W} env caller version s in
      let h = locked_cart_keeps env o caller version s i in
      elim (Result-cases t.0) [
        | inl ((id, c), e) ↦
            let c' = record c { items = set_quantity item q c.items } in
            ground (
              arith,
              h,
              finish_keeps env (subject_of caller) id c' "cart.item_updated" item t.1,
              set_quantity-IsTidy env.max_item_quantity item q c.items,
            )
        | inr (x, e) ↦ ground (arith, h)
      ]

  pub remove_item_keeps :
      (item : ℕ) (caller : Caller) (version : ℕ)
      → KeepsTidy {W = W} env (remove_item env item caller version)
  unfolding remove_item
  remove_item_keeps item caller version s i =
      let t = locked_cart {W = W} env caller version s in
      let h = locked_cart_keeps env o caller version s i in
      elim (Result-cases t.0) [
        | inl ((id, c), e) ↦
            let c' = record c { items = remove item c.items } in
            ground (
              arith,
              h,
              finish_keeps env (subject_of caller) id c' "cart.item_removed" item t.1,
              remove-IsTidy env.max_item_quantity item c.items,
            )
        | inr (x, e) ↦ ground (arith, h)
      ]

  pub clear_keeps :
      (caller : Caller) (version : ℕ) → KeepsTidy {W = W} env (clear env caller version)
  unfolding clear
  clear_keeps caller version s i =
      let t = locked_cart {W = W} env caller version s in
      let h = locked_cart_keeps env o caller version s i in
      elim (Result-cases t.0) [
        | inl ((id, c), e) ↦
            let c' = record c { items = [] } in
            ground (arith, h, finish_keeps env (subject_of caller) id c' "cart.cleared" id t.1)
        | inr (x, e) ↦ ground (arith, h)
      ]

  pub delete_saved_keeps :
      (saved : ℕ) (caller : Caller) (version : ℕ)
      → KeepsTidy {W = W} env (delete_saved env saved caller version)
  unfolding delete_saved
  delete_saved_keeps saved caller version s i =
      let t = locked_cart {W = W} env caller version s in
      let h = locked_cart_keeps env o caller version s i in
      elim (Result-cases t.0) [
        | inl ((id, c), e) ↦
            let c' = record c { saved_items = remove_saved saved c.saved_items } in
            ground (
              arith,
              h,
              finish_keeps env (subject_of caller) id c' "cart.saved_item_removed" id t.1,
            )
        | inr (x, e) ↦ ground (arith, h)
      ]

  pub save_for_later_keeps :
      (item : ℕ) (caller : Caller) (version : ℕ)
      → KeepsTidy {W = W} env (save_for_later env item caller version)
  unfolding save_for_later
  save_for_later_keeps item caller version s i =
      let t = locked_cart {W = W} env caller version s in
      let h = locked_cart_keeps env o caller version s i in
      elim (Result-cases t.0) [
        | inl ((id, c), e) ↦ elim (Option-cases (item_of_id item c.items)) [
          | inl f ↦ ground (arith, h)
          | inr (x, f) ↦
              let saved =
                if has_saved x.variant_id c.saved_items
                then c.saved_items
                else c.saved_items ++ saved_from (env.new_id 0) x ∷ [] in
              let c' = record c { items = remove item c.items; saved_items = saved } in
              ground (
                arith,
                h,
                finish_keeps env (subject_of caller) id c' "cart.item_saved" id t.1,
                remove-IsTidy env.max_item_quantity item c.items,
              )
        ]
        | inr (x, e) ↦ ground (arith, h)
      ]

  store_addition_keeps :
      (caller : Caller) (actor : String) (key : Option String) (id : ℕ) (c : Cart)
      (s : Session CartDb W)
      → IsTidy env.max_item_quantity c.items
      → Safe env.max_item_quantity s
      → Safe env.max_item_quantity (store_addition env caller actor key id c s).1
  unfolding store_addition commit_or_conflict log
  store_addition_keeps caller actor none id c s t i =
      ground (arith, save_cart-AllTidy env.max_item_quantity id c s.working t i.1)
  store_addition_keeps caller actor (some key) id c s t i =
      ground (arith, save_cart-AllTidy env.max_item_quantity id c s.working t i.1)

  replayed_keeps :
      (actor : String) (key : Option String) (s : Session CartDb W)
      → Safe env.max_item_quantity s
      → Safe env.max_item_quantity (replayed env actor key s).1
  unfolding replayed
  replayed_keeps actor none s i = i
  replayed_keeps actor (some key) s i = elim (Option-cases (get_idempotency actor key s.working)) [
    | inl e ↦ ground arith
    | inr (r, e) ↦ elim (Option-cases (get r.resource_id s.working.carts)) [
      | inl f ↦ ground arith
      | inr (c, f) ↦ ground arith
    ]
  ]

  put_in_keeps :
      (peers : Peers W) (body : CartItemCreate) (caller : Caller) (version : ℕ) (actor : String)
      (key : Option String) (s : Session CartDb W)
      → Safe env.max_item_quantity s
      → Safe env.max_item_quantity (put_in peers env body caller version actor key s).1
  unfolding put_in
  put_in_keeps peers body caller version actor key s i =
      let t = locked_cart {W = W} env caller version s in
      let h = locked_cart_keeps env o caller version s i in
      elim (Result-cases t.0) [
        | inl ((id, c), e) ↦
            let got = get_snapshot peers body.product_id body.variant_id t.1.world in
            elim (Result-cases got.0) [
              | inl (x, f) ↦
                  let added =
                    add_line env.max_item_quantity env.max_distinct_items (env.new_id 0)
                      body.quantity x c in
                  let tidy =
                    add_line-IsTidy env.max_item_quantity env.max_distinct_items (env.new_id 0)
                      body.quantity x c in
                  elim (Result-cases added) [
                    | inl (c', g) ↦ ground (
                      arith,
                      h,
                      tidy,
                      store_addition_keeps caller actor key id
                          (renewed env (not (is_some caller.principal)) c')
                          (record t.1 { world = got.1 }),
                    )
                    | inr (y, g) ↦ ground (arith, h)
                  ]
              | inr (y, f) ↦ ground (arith, h)
            ]
        | inr (x, e) ↦ ground (arith, h)
      ]

  pub add_item_keeps :
      (peers : Peers W) (body : CartItemCreate) (caller : Caller) (version : ℕ)
      (key : Option String) (s : Session CartDb W)
      → Safe env.max_item_quantity s
      → Safe env.max_item_quantity (add_item peers env body caller version key s).1
  unfolding add_item
  add_item_keeps peers body caller version key s i = elim (Result-cases (actor_key env caller)) [
    | inl (actor, e) ↦
        let t = replayed {W = W} env actor (given key) s in
        let h = replayed_keeps actor (given key) s i in
        elim (Result-cases t.0) [
          | inl (earlier, f) ↦
              ground (arith, h, put_in_keeps peers body caller version actor (given key) t.1)
          | inr (y, f) ↦ ground (arith, h)
        ]
    | inr (x, e) ↦ ground arith
  ]

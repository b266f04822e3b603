-- ===== src/Cart/Keeping.antt =====
-- The bounds of Cart.Tidy for all carts, and the lines with which every method begins and ends.
use market_place_app.Prelude.{
  ℕ, ◌+◌, ◌≡◌, String, false, Option, none, some, arith, Option-cases, inl, inr,
}
use market_place_app.Prelude.Table.Rows.{AllRows, put-AllRows, find_row-AllRows}
use market_place_app.Prelude.Session.{Session}
use market_place_app.Prelude.Principal.{Principal}
use market_place_app.Prelude.Triple.{Triple, IfOk}
use market_place_app.Cart.Model.{Cart, CartDb, get_active_customer_cart, get_guest_cart}
use market_place_app.Cart.Tidy.{IsTidy}
use market_place_app.Cart.Service.{
  Handler, Caller, Surroundings, save_cart, log, commit_or_conflict, assert_active, open_cart,
  customer_cart, guest_cart, resolve_cart, empty_cart_of, expires_at, locked_cart, finish, given,
}

abbrev pub AllTidy : ℕ → CartDb → Type 0
AllTidy max d = AllRows (λ (c : Cart). IsTidy max c.items) d.carts

abbrev pub Safe : {W : Type 0} → ℕ → Session CartDb W → Type 0
Safe max s = AllTidy max s.durable × AllTidy max s.working

abbrev pub RowTidy : ℕ → ℕ × Cart → Type 0
RowTidy max row = IsTidy max row.1.items

-- Other requests keep every cart tidy as well.
abbrev pub OthersKeep : Surroundings → Type 0
OthersKeep env =
    (d : CartDb) → AllTidy env.max_item_quantity d → AllTidy env.max_item_quantity (env.others d)

-- A handler leaves every cart tidy, the one that it answers with too.
abbrev pub KeepsTidy : {W : Type 0} → Surroundings → Handler W (ℕ × Cart) → Type 0
KeepsTidy env m = Triple (Safe env.max_item_quantity) m (RowTidy env.max_item_quantity)

pub save_cart-AllTidy :
    (max id : ℕ) (c : Cart) (d : CartDb)
    → IsTidy max c.items
    → AllTidy max d
    → AllTidy max (save_cart id c d)
unfolding save_cart
save_cart-AllTidy max id c d t h = put-AllRows (λ (x : Cart). IsTidy max x.items) id c d.carts t h

customer_row-IsTidy :
    (max customer k : ℕ) (c : Cart) (d : CartDb)
    → AllTidy max d
    → get_active_customer_cart customer d ≡ some (k, c)
    → IsTidy max c.items
unfolding get_active_customer_cart
customer_row-IsTidy max customer k c d h e =
    find_row-AllRows (λ (x : Cart). IsTidy max x.items) _ k c d.carts h e

pub guest_row-IsTidy :
    (max : ℕ) (hash : String) (k : ℕ) (c : Cart) (d : CartDb)
    → AllTidy max d
    → get_guest_cart hash d ≡ some (k, c)
    → IsTidy max c.items
unfolding get_guest_cart
guest_row-IsTidy max hash k c d h e =
    find_row-AllRows (λ (x : Cart). IsTidy max x.items) _ k c d.carts h e

module _ {W : Type 0} (env : Surroundings) (o : OthersKeep env) where
  open_cart_keeps : (p : Principal) → KeepsTidy {W = W} env (open_cart env p)
  unfolding open_cart
  open_cart_keeps p s i =
      let other = o s.durable i.0 in
      let c = empty_cart_of (some p.subject) none (expires_at env false) in
      ground (
        arith,
        save_cart-AllTidy env.max_item_quantity env.new_cart c (env.others s.durable) tt other,
      )

  customer_cart_keeps : (p : Principal) → KeepsTidy {W = W} env (customer_cart env p)
  unfolding customer_cart
  customer_cart_keeps p s i = elim (Option-cases (get_active_customer_cart p.subject s.working)) [
    | inl e ↦ ground (arith, open_cart_keeps p s i)
    | inr ((k, c), e) ↦
        ground (arith, customer_row-IsTidy env.max_item_quantity p.subject k c s.working i.1 e)
  ]

  guest_cart_keeps : (token : Option String) → KeepsTidy {W = W} env (guest_cart env token)
  unfolding guest_cart
  guest_cart_keeps none s i = (i, tt)
  guest_cart_keeps (some token) s i =
      elim (Option-cases (get_guest_cart (env.token_hash token) s.working)) [
        | inl e ↦ ground arith
        | inr ((k, c), e) ↦ ground (
          arith,
          guest_row-IsTidy env.max_item_quantity (env.token_hash token) k c s.working i.1 e,
        )
      ]

  pub resolve_cart_keeps : (caller : Caller) → KeepsTidy {W = W} env (resolve_cart env caller)
  unfolding resolve_cart assert_active
  resolve_cart_keeps caller s i = elim (Option-cases caller.principal) [
    | inl e ↦ ground (arith, guest_cart_keeps (given caller.guest_token) s i)
    | inr (p, e) ↦ ground (arith, customer_cart_keeps p s i)
  ]

  pub locked_cart_keeps :
      (caller : Caller) (version : ℕ) → KeepsTidy {W = W} env (locked_cart env caller version)
  unfolding locked_cart
  locked_cart_keeps caller version s i = ground (arith, resolve_cart_keeps caller s i)

module _ {W : Type 0} (env : Surroundings) where
  pub finish_keeps :
      (actor : Option ℕ) (id : ℕ) (c : Cart) (event : String) (resource : ℕ) (s : Session CartDb W)
      → IsTidy env.max_item_quantity c.items
      → Safe env.max_item_quantity s
      → Safe env.max_item_quantity (finish actor id c event resource s).1
        × IfOk (RowTidy env.max_item_quantity) (finish actor id c event resource s).0
  unfolding finish commit_or_conflict log
  finish_keeps actor id c event resource s t i = ground (
    arith,
    save_cart-AllTidy env.max_item_quantity id (record c { version = c.version + 1 }) s.working t
        i.1,
  )

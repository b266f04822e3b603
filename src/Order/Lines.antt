-- ===== src/Order/Lines.antt =====
-- The items of an order and the lines of the cart that it was made of.
use market_place_app.Prelude.{
  ℕ, ◌*◌, ◌≡◌, refl, Option, none, some, List, [], ◌∷◌, arith, Option-cases, inl, inr, sym, subst,
}
use market_place_app.Prelude.Table.{Table, get}
use market_place_app.Order.Model.{OrderItem}
use market_place_app.Order.Clients.{CartItemSnapshot}
use market_place_app.Order.Drafts.{order_items}

-- An item is a line's, as it was sold: its names, its quantity and its price, under the seller that
-- was looked up for its product.
pub record IsItemOf (sellers : Table ℕ) (i : CartItemSnapshot) (x : OrderItem) : Type 0 where
  pub same_product : x.product_id ≡ i.product_id
  pub same_variant : x.variant_id ≡ i.variant_id
  pub same_sku : x.sku ≡ i.sku
  pub same_product_name : x.product_name ≡ i.product_name
  pub same_variant_name : x.variant_name ≡ i.variant_name
  pub same_quantity : x.quantity ≡ i.quantity
  pub same_price : x.unit_price ≡ i.unit_price
  pub total : x.line_total ≡ i.unit_price * i.quantity
  pub same_version : x.product_version ≡ i.product_version
  pub seller : get i.product_id sellers ≡ some x.seller_id

-- The items are those of the lines, one for each and in their order.
abbrev pub LineByLine : Table ℕ → List CartItemSnapshot → List OrderItem → Type 0
LineByLine sellers [] [] = Unit
LineByLine sellers [] (x ∷ xs) = ⊥
LineByLine sellers (i ∷ is) [] = ⊥
LineByLine sellers (i ∷ is) (x ∷ xs) = IsItemOf sellers i x × LineByLine sellers is xs

abbrev Built : Table ℕ → List CartItemSnapshot → Option (List OrderItem) → Type 0
Built sellers is none = Unit
Built sellers is (some xs) = LineByLine sellers is xs

order_items-Built :
    (sellers : Table ℕ) (is : List CartItemSnapshot) → Built sellers is (order_items sellers is)
unfolding order_items
order_items-Built sellers [] = tt
order_items-Built sellers (i ∷ is) = elim (Option-cases (get i.product_id sellers)) [
  | inl e ↦ ground arith
  | inr (seller, e) ↦ elim (Option-cases (order_items sellers is)) [
    | inl f ↦ ground arith
    | inr (xs, f) ↦
        let rest : LineByLine sellers is xs = rw f at (order_items-Built sellers is) in
        let built : order_items sellers (i ∷ is)
            ≡ some (
                record {
                  product_id = i.product_id;
                  variant_id = i.variant_id;
                  seller_id = seller;
                  sku = i.sku;
                  product_name = i.product_name;
                  variant_name = i.variant_name;
                  quantity = i.quantity;
                  unit_price = i.unit_price;
                  line_total = i.unit_price * i.quantity;
                  product_version = i.product_version;
                }
                ∷ xs) =
          ground arith in
        subst (Built sellers (i ∷ is)) (sym built) (
          record {
            same_product = refl;
            same_variant = refl;
            same_sku = refl;
            same_product_name = refl;
            same_variant_name = refl;
            same_quantity = refl;
            same_price = refl;
            total = refl;
            same_version = refl;
            seller = e;
          },
          rest,
        )
  ]
]

pub order_items-LineByLine :
    (sellers : Table ℕ) (is : List CartItemSnapshot) (xs : List OrderItem)
    → order_items sellers is ≡ some xs
    → LineByLine sellers is xs
order_items-LineByLine sellers is xs e = rw e at (order_items-Built sellers is)

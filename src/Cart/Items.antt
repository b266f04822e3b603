-- ===== src/Cart/Items.antt =====
-- services/cart-service/app/services/cart_service.py: what its methods do to the items of a cart that
-- they have locked.
use market_place_app.Prelude.{
  ℕ, ◌+◌, Bool, Option, none, some, List, [], ◌∷◌, ◌++◌, ◌==◌, ◌&&◌, leb, ltb, not, length, find,
  any, str_eq, if◌then◌else◌,
}
use market_place_app.Prelude.Session.{Result, ok, err, service_error}
use market_place_app.Cart.Model.{CartItem, SavedItem, Cart, ProductSnapshot}
use market_place_app.Cart.Clients.{Error, quantity_limit, cart_item_limit, currency_mismatch}

-- `_apply_snapshot`
abbrev pub apply_snapshot : CartItem → ProductSnapshot → CartItem
apply_snapshot i s = record i {
  product_id = s.product_id;
  variant_id = s.variant_id;
  sku = s.sku;
  product_name = s.product_name;
  variant_name = s.variant_name;
  image_url = s.image_url;
  unit_price = s.unit_price;
  currency_code = s.currency_code;
  product_version = s.product_version;
}

abbrev pub item_of : ℕ → ℕ → ProductSnapshot → CartItem
item_of id quantity s = record {
  id = id;
  product_id = s.product_id;
  variant_id = s.variant_id;
  sku = s.sku;
  product_name = s.product_name;
  variant_name = s.variant_name;
  image_url = s.image_url;
  quantity = quantity;
  unit_price = s.unit_price;
  currency_code = s.currency_code;
  product_version = s.product_version;
  version = 1;
}

-- `next((i for i in items if ...), None)` of a variant, and of an id.
abbrev pub item_of_variant : ℕ → List CartItem → Option CartItem
item_of_variant variant items = find (λ i. i.variant_id == variant) items

-- The first item with a variant, changed in place.
unfoldable pub change : ℕ → (CartItem → CartItem) → List CartItem → List CartItem
change variant f [] = []
change variant f (i ∷ is) =
    let rest = change variant f is in if i.variant_id == variant then f i ∷ is else i ∷ rest

-- `items.remove(item)`, of the first item with an id
unfoldable pub remove : ℕ → List CartItem → List CartItem
remove id [] = []
remove id (i ∷ is) = let rest = remove id is in if i.id == id then is else i ∷ rest

-- The item of the variant takes up to `max` of it, or a line is added.
abbrev pub more : ℕ → CartItem → CartItem
more quantity i = record i { quantity = i.quantity + quantity; version = i.version + 1 }

abbrev pub more_of : ℕ → ProductSnapshot → CartItem → CartItem
more_of quantity s i = apply_snapshot (more quantity i) s

-- The rest of `add_item` once the product is known.
unfoldable pub add_line : ℕ → ℕ → ℕ → ℕ → ProductSnapshot → Cart → Result Error Cart
add_line max_quantity max_items id quantity s c = elim (item_of_variant s.variant_id c.items) [
  | some existing ↦
      if ltb max_quantity (existing.quantity + quantity)
      then err (service_error 422 quantity_limit)
      else ok (record c { items = change s.variant_id (more_of quantity s) c.items })
  | none ↦
      if leb max_items (length c.items)
      then err (service_error 422 cart_item_limit)
      else if leb 1 (length c.items) && not (str_eq c.currency_code s.currency_code)
      then err (service_error 422 currency_mismatch)
      else ok (record c {
        currency_code = s.currency_code;
        items = c.items ++ item_of id quantity s ∷ [];
      })
]

-- `move_saved_to_cart` once the product is known: neither the number of lines nor the currency is
-- checked.
unfoldable pub move_line : ℕ → ℕ → ProductSnapshot → Cart → Result Error Cart
move_line max_quantity id s c = elim (item_of_variant s.variant_id c.items) [
  | some existing ↦
      if leb max_quantity existing.quantity
      then err (service_error 422 quantity_limit)
      else ok (record c { items = change s.variant_id (more_of 1 s) c.items })
  | none ↦ ok (record c { items = c.items ++ item_of id 1 s ∷ [] })
]

-- One item of a guest's cart in `merge_guest`, whose line gets a new id.
unfoldable pub merge_line : ℕ → ℕ → CartItem → List CartItem → Result Error (List CartItem)
merge_line max_quantity id source items = elim (item_of_variant source.variant_id items) [
  | some target ↦
      if ltb max_quantity (target.quantity + source.quantity)
      then err (service_error 422 quantity_limit)
      else ok (change source.variant_id (more source.quantity) items)
  | none ↦ ok (items ++ record source { id = id; version = 1 } ∷ [])
]

-- The loop over the guest's items, with a new id for each.
unfoldable pub merge_lines :
    ℕ → (ℕ → ℕ) → List CartItem → List CartItem → Result Error (List CartItem)
merge_lines max_quantity new_id [] items = ok items
merge_lines max_quantity new_id (source ∷ rest) items =
    let merged = merge_line max_quantity (new_id (length rest)) source items in
    elim merged [ ok items' ↦ merge_lines max_quantity new_id rest items' | err e ↦ err e ]

abbrev pub item_of_id : ℕ → List CartItem → Option CartItem
item_of_id id items = find (λ i. i.id == id) items

-- `update_quantity`, of the first item with an id
unfoldable pub set_quantity : ℕ → ℕ → List CartItem → List CartItem
set_quantity id quantity [] = []
set_quantity id quantity (i ∷ is) =
    let rest = set_quantity id quantity is in
    if i.id == id then record i { quantity = quantity; version = i.version + 1 } ∷ is else i ∷ rest

abbrev pub saved_of_id : ℕ → List SavedItem → Option SavedItem
saved_of_id id saved = find (λ x. x.id == id) saved

unfoldable pub remove_saved : ℕ → List SavedItem → List SavedItem
remove_saved id [] = []
remove_saved id (x ∷ xs) = let rest = remove_saved id xs in if x.id == id then xs else x ∷ rest

abbrev pub has_saved : ℕ → List SavedItem → Bool
has_saved variant saved = any (λ x. x.variant_id == variant) saved

abbrev pub saved_from : ℕ → CartItem → SavedItem
saved_from id i = record {
  id = id;
  product_id = i.product_id;
  variant_id = i.variant_id;
  sku = i.sku;
  product_name = i.product_name;
  variant_name = i.variant_name;
  image_url = i.image_url;
  unit_price = i.unit_price;
  currency_code = i.currency_code;
}

-- The saved items of a guest that the customer's cart had not saved before.
unfoldable pub merge_saved : (ℕ → ℕ) → List SavedItem → List SavedItem → List SavedItem
merge_saved new_id before [] = []
merge_saved new_id before (x ∷ xs) =
    let rest = merge_saved new_id before xs in
    if has_saved x.variant_id before then rest else record x { id = new_id (length xs) } ∷ rest

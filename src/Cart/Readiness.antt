-- ===== src/Cart/Readiness.antt =====
-- services/cart-service/app/services/cart_service.py: readiness, which refreshes the prices of a cart
-- and asks for the stock of each line.
use market_place_app.Prelude.{
  ℕ, ◌+◌, ◌*◌, ◌≡◌, refl, String, Bool, none, some, List, [], ◌∷◌, ◌==◌, ◌&&◌, ◌||◌, leb, not, any,
  length, map, sum_of, find, if◌then◌else◌, arith, Option-cases, inl, inr,
}
use market_place_app.Prelude.Session.{Session, Result-cases, pure, remote, ◌>>=◌, ◌>>◌}
use market_place_app.Prelude.Triple.{IfOk}
use market_place_app.Cart.Model.{Cart, CartItem, CartDb, ProductSnapshot}
use market_place_app.Cart.Clients.{Peers, Variant, get_snapshot, read_product, availability}
use market_place_app.Cart.Items.{apply_snapshot}
use market_place_app.Cart.Tidy.{LacksVariant, IsTidy}
use market_place_app.Cart.Service.{Handler, Caller, Surroundings, locked_cart, finish, subject_of}
use market_place_app.Cart.Keeping.{Safe, OthersKeep, locked_cart_keeps, finish_keeps}

pub record AvailabilityLine : Type 0 where
  pub item_id : ℕ
  pub sku : String
  pub requested_quantity : ℕ
  pub available_quantity : ℕ
  pub is_available : Bool

pub record CheckoutReadinessResponse : Type 0 where
  pub cart_id : ℕ
  pub ready : Bool
  pub price_changed : Bool
  pub unavailable_items : List AvailabilityLine
  pub items : List AvailabilityLine
  pub subtotal : ℕ
  pub currency_code : String

-- One turn of the loop: the item, whether it changed, and its line.
pub record Checked : Type 0 where
  pub item : CartItem
  pub changed : Bool
  pub line : AvailabilityLine

abbrev pub is_outdated : CartItem → ProductSnapshot → Bool
is_outdated i s = not (i.unit_price == s.unit_price) || not (i.product_version == s.product_version)

abbrev pub refreshed : CartItem → ProductSnapshot → CartItem
refreshed i s =
    if is_outdated i s then record (apply_snapshot i s) { version = i.version + 1 } else i

abbrev pub checked : CartItem → ProductSnapshot → ℕ × Bool → Checked
checked i s got =
    let i' = refreshed i s in
    record {
      item = i';
      changed = is_outdated i s;
      line = record {
        item_id = i'.id;
        sku = i'.sku;
        requested_quantity = i'.quantity;
        available_quantity = got.0;
        is_available = got.1;
      };
    }

abbrev pub unavailable : List Checked → List AvailabilityLine
unavailable [] = []
unavailable (c ∷ cs) =
    let rest = unavailable cs in if c.line.is_available then rest else c.line ∷ rest

abbrev pub response : ℕ → Cart → List Checked → CheckoutReadinessResponse
response id c cs = record {
  cart_id = id;
  ready = leb 1 (length cs) && not (leb 1 (length (unavailable cs)));
  price_changed = any (λ (x : Checked). x.changed) cs;
  unavailable_items = unavailable cs;
  items = map (λ (x : Checked). x.line) cs;
  subtotal = sum_of (λ (x : Checked). x.item.unit_price * x.item.quantity) cs;
  currency_code = c.currency_code;
}

module _ {W : Type 0} (peers : Peers W) where
  unfoldable pub check_line : CartItem → Handler W Checked
  check_line i = do
    snapshot ← remote (get_snapshot peers i.product_id i.variant_id)
    let i' = refreshed i snapshot
    got ← remote (availability peers i'.sku i'.quantity)
    pure (checked i snapshot got)

  unfoldable pub check_lines : List CartItem → Handler W (List Checked)
  check_lines [] = pure []
  check_lines (i ∷ is) = do c ← check_line i; rest ← check_lines is; pure (c ∷ rest)

  unfoldable pub readiness : Surroundings → Caller → ℕ → Handler W CheckoutReadinessResponse
  readiness env caller expected_version = do
    row ← locked_cart env caller expected_version
    cs ← check_lines row.1.items
    if any (λ (x : Checked). x.changed) cs
        then (do
          finish (subject_of caller) row.0
              (record row.1 { items = map (λ (x : Checked). x.item) cs }) "cart.prices_refreshed"
              row.0
          pure (response row.0 row.1 cs))
        else pure (response row.0 row.1 cs)

-- The same lines, with other prices.
abbrev SameLines : List CartItem → List Checked → Type 0
SameLines [] [] = Unit
SameLines [] (c ∷ cs) = ⊥
SameLines (i ∷ is) [] = ⊥
SameLines (i ∷ is) (c ∷ cs) =
    ((c.item).variant_id ≡ i.variant_id) × ((c.item).quantity ≡ i.quantity) × SameLines is cs

LacksVariant-SameLines :
    (v : ℕ) (is : List CartItem) (cs : List Checked)
    → SameLines is cs
    → LacksVariant v is
    → LacksVariant v (map (λ (x : Checked). x.item) cs)
LacksVariant-SameLines v [] [] e h = tt
LacksVariant-SameLines v [] (c ∷ cs) e h = elim e [ ]
LacksVariant-SameLines v (i ∷ is) [] e h = elim e [ ]
LacksVariant-SameLines v (i ∷ is) (c ∷ cs) e h =
    ground (arith, LacksVariant-SameLines v is cs e.2 h.1)

SameLines-IsTidy :
    (max : ℕ) (is : List CartItem) (cs : List Checked)
    → SameLines is cs
    → IsTidy max is
    → IsTidy max (map (λ (x : Checked). x.item) cs)
SameLines-IsTidy max [] [] e h = tt
SameLines-IsTidy max [] (c ∷ cs) e h = elim e [ ]
SameLines-IsTidy max (i ∷ is) [] e h = elim e [ ]
SameLines-IsTidy max (i ∷ is) (c ∷ cs) e h =
    ground
      (arith, SameLines-IsTidy max is cs e.2 h.2, LacksVariant-SameLines i.variant_id is cs e.2 h.1)

read_product_variant :
    (p v : ℕ) (answer : _)
    → IfOk (λ (x : ProductSnapshot). x.variant_id ≡ v) (read_product p v answer)
unfolding read_product
read_product_variant p v none = tt
read_product_variant p v (some (status, product)) =
    elim (Option-cases (find (λ (x : Variant). x.id == v) product.variants)) [
      | inl e ↦ ground arith
      | inr (x, e) ↦ ground arith
    ]

module _ {W : Type 0} (peers : Peers W) where
  -- Nothing is written, and the line keeps its variant and its quantity.
  check_line_lem :
      (i : CartItem) (s : Session CartDb W)
      → let t = check_line peers i s in
        (t.1.durable ≡ s.durable)
        × (t.1.working ≡ s.working)
        × IfOk
            (λ (c : Checked).
              ((c.item).variant_id ≡ i.variant_id) × ((c.item).quantity ≡ i.quantity))
            t.0
  unfolding check_line get_snapshot availability
  check_line_lem i s =
      let got = peers.get_product i.product_id s.world in
      let same = read_product_variant i.product_id i.variant_id got.0 in ground (arith, same)

  check_lines_lem :
      (is : List CartItem) (s : Session CartDb W)
      → let t = check_lines peers is s in
        (t.1.durable ≡ s.durable) × (t.1.working ≡ s.working) × IfOk (SameLines is) t.0
  unfolding check_lines
  check_lines_lem [] s = (refl, refl, tt)
  check_lines_lem (i ∷ is) s =
      let t = check_line peers i s in
      let one = check_line_lem i s in
      let rest = check_lines peers is t.1 in
      let others = check_lines_lem is t.1 in
      elim (Result-cases t.0) [
        | inl (c, e) ↦ elim (Result-cases rest.0) [
          | inl (cs, f) ↦ ground (arith, one, others)
          | inr (x, f) ↦ ground (arith, one, others)
        ]
        | inr (x, e) ↦ ground (arith, one)
      ]

  pub readiness_keeps :
      (env : Surroundings) (o : OthersKeep env) (caller : Caller) (version : ℕ)
      (s : Session CartDb W)
      → Safe env.max_item_quantity s
      → Safe env.max_item_quantity (readiness peers env caller version s).1
  unfolding readiness
  readiness_keeps env o caller version s i =
      let t = locked_cart {W = W} env caller version s in
      let h = locked_cart_keeps env o caller version s i in
      elim (Result-cases t.0) [
        | inl ((id, c), e) ↦
            let lines = check_lines peers c.items t.1 in
            let unwritten = check_lines_lem c.items t.1 in
            elim (Result-cases lines.0) [
              | inl (cs, f) ↦
                  let c' = record c { items = map (λ (x : Checked). x.item) cs } in
                  ground (
                    arith,
                    h,
                    unwritten,
                    SameLines-IsTidy env.max_item_quantity c.items cs,
                    finish_keeps env (subject_of caller) id c' "cart.prices_refreshed" id lines.1,
                  )
              | inr (x, f) ↦ ground (arith, h, unwritten)
            ]
        | inr (x, e) ↦ ground (arith, h)
      ]

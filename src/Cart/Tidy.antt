-- ===== src/Cart/Tidy.antt =====
-- The items of a cart: a line for each variant, none of more than the limit.
use market_place_app.Prelude.{
  ℕ, ◌≤◌, ◌≡◌, refl, subst, length, true, false, none, some, List, [], ◌∷◌, ◌++◌, ◌==◌, All, arith,
  Option-cases, inl, inr,
}
use market_place_app.Prelude.Session.{Result-cases}
use market_place_app.Prelude.Triple.{IfOk}
use market_place_app.Cart.Model.{CartItem, Cart, ProductSnapshot}
use market_place_app.Cart.Items.{
  item_of_variant, item_of, change, remove, more, more_of, add_line, move_line, merge_line,
  merge_lines, set_quantity,
}

-- No item has the variant.
abbrev pub LacksVariant : ℕ → List CartItem → Type 0
LacksVariant variant items = All (λ (i : CartItem). (i.variant_id == variant) ≡ false) items

-- Each variant once, and at most `max` of each.
abbrev pub IsTidy : ℕ → List CartItem → Type 0
IsTidy max [] = Unit
IsTidy max (i ∷ is) = (i.quantity ≤ max) × LacksVariant i.variant_id is × IsTidy max is

abbrev Keeps : ℕ → (CartItem → CartItem) → Type 0
Keeps u f = (i : CartItem) → (i.variant_id == u) ≡ true → (f i).variant_id ≡ i.variant_id

LacksVariant-change :
    (v u : ℕ) (f : CartItem → CartItem) (is : List CartItem)
    → Keeps u f
    → LacksVariant v is
    → LacksVariant v (change u f is)
unfolding change
LacksVariant-change v u f [] k h = tt
LacksVariant-change v u f (i ∷ is) k h = ground (arith, k i, LacksVariant-change v u f is k h.1)

change-IsTidy :
    (max u : ℕ) (f : CartItem → CartItem) (is : List CartItem) (e : CartItem)
    → Keeps u f
    → item_of_variant u is ≡ some e
    → (f e).quantity ≤ max
    → IsTidy max is
    → IsTidy max (change u f is)
unfolding change
change-IsTidy max u f [] e k found q h = tt
change-IsTidy max u f (i ∷ is) e k found q h =
    ground (arith, k i, change-IsTidy max u f is e k, LacksVariant-change i.variant_id u f is k h.1)

LacksVariant-append :
    (v : ℕ) (is : List CartItem) (i : CartItem)
    → (i.variant_id == v) ≡ false
    → LacksVariant v is
    → LacksVariant v (is ++ i ∷ [])
LacksVariant-append v [] i e h = (e, tt)
LacksVariant-append v (j ∷ is) i e h = (h.0, LacksVariant-append v is i e h.1)

append-IsTidy :
    (max : ℕ) (is : List CartItem) (i : CartItem)
    → item_of_variant i.variant_id is ≡ none
    → i.quantity ≤ max
    → IsTidy max is
    → IsTidy max (is ++ i ∷ [])
append-IsTidy max [] i new q h = (q, tt, tt)
append-IsTidy max (j ∷ is) i new q h =
    ground (arith, append-IsTidy max is i, LacksVariant-append j.variant_id is i)

LacksVariant-remove :
    (v id : ℕ) (is : List CartItem) → LacksVariant v is → LacksVariant v (remove id is)
unfolding remove
LacksVariant-remove v id [] h = tt
LacksVariant-remove v id (i ∷ is) h = ground (arith, LacksVariant-remove v id is h.1)

pub remove-IsTidy : (max id : ℕ) (is : List CartItem) → IsTidy max is → IsTidy max (remove id is)
unfolding remove
remove-IsTidy max id [] h = tt
remove-IsTidy max id (i ∷ is) h =
    ground (arith, remove-IsTidy max id is h.2, LacksVariant-remove i.variant_id id is h.1)

LacksVariant-set_quantity :
    (v id q : ℕ) (is : List CartItem) → LacksVariant v is → LacksVariant v (set_quantity id q is)
unfolding set_quantity
LacksVariant-set_quantity v id q [] h = tt
LacksVariant-set_quantity v id q (i ∷ is) h =
    ground (arith, LacksVariant-set_quantity v id q is h.1)

pub set_quantity-IsTidy :
    (max id q : ℕ) (is : List CartItem)
    → q ≤ max
    → IsTidy max is
    → IsTidy max (set_quantity id q is)
unfolding set_quantity
set_quantity-IsTidy max id q [] e h = tt
set_quantity-IsTidy max id q (i ∷ is) e h = ground (
  arith,
  set_quantity-IsTidy max id q is e h.2,
  LacksVariant-set_quantity i.variant_id id q is h.1,
)

pub add_line-IsTidy :
    (max lines id q : ℕ) (s : ProductSnapshot) (c : Cart)
    → q ≤ max
    → IsTidy max c.items
    → IfOk (λ (c' : Cart). IsTidy max c'.items) (add_line max lines id q s c)
unfolding add_line
add_line-IsTidy max lines id q s c e h =
    elim (Option-cases (item_of_variant s.variant_id c.items)) [
      | inl f ↦ ground (arith, append-IsTidy max c.items (item_of id q s) f e h)
      | inr (x, f) ↦
          ground
            (arith, change-IsTidy max s.variant_id (more_of q s) c.items x (λ i g. ground arith) f)
    ]

pub move_line-IsTidy :
    (max id : ℕ) (s : ProductSnapshot) (c : Cart)
    → 1 ≤ max
    → IsTidy max c.items
    → IfOk (λ (c' : Cart). IsTidy max c'.items) (move_line max id s c)
unfolding move_line
move_line-IsTidy max id s c e h = elim (Option-cases (item_of_variant s.variant_id c.items)) [
  | inl f ↦ ground (arith, append-IsTidy max c.items (item_of id 1 s) f e h)
  | inr (x, f) ↦
      ground (arith, change-IsTidy max s.variant_id (more_of 1 s) c.items x (λ i g. ground arith) f)
]

merge_line-IsTidy :
    (max id : ℕ) (i : CartItem) (is : List CartItem)
    → i.quantity ≤ max
    → IsTidy max is
    → IfOk (IsTidy max) (merge_line max id i is)
unfolding merge_line
merge_line-IsTidy max id i is e h = elim (Option-cases (item_of_variant i.variant_id is)) [
  | inl f ↦ ground (arith, append-IsTidy max is (record i { id = id; version = 1 }) f e h)
  | inr (x, f) ↦
      ground (arith, change-IsTidy max i.variant_id (more i.quantity) is x (λ j g. refl) f)
]

pub merge_lines-IsTidy :
    (max : ℕ) (new_id : ℕ → ℕ) (sources is : List CartItem)
    → IsTidy max sources
    → IsTidy max is
    → IfOk (IsTidy max) (merge_lines max new_id sources is)
unfolding merge_lines
merge_lines-IsTidy max new_id [] is g h = h
merge_lines-IsTidy max new_id (x ∷ xs) is g h =
    let step = merge_line max (new_id (length xs)) x is in
    let kept = merge_line-IsTidy max (new_id (length xs)) x is g.0 h in
    elim (Result-cases step) [
      | inl (is', e) ↦
          let kept' : IsTidy max is' = subst (IfOk (IsTidy max)) e kept in
          rw (e, IfOk) (merge_lines-IsTidy max new_id xs is' g.2 kept')
      | inr (x', e) ↦ rw (e, IfOk) tt
    ]

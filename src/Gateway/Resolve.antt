-- ===== src/Gateway/Resolve.antt =====
-- The search of services/routing.py of the gateway, against what it means for a path to be of a route.
use market_place_app.Prelude.{
  ℕ, ◌≤◌, ◌≡◌, ◌⊎◌, refl, sym, ap, subst, Bool, true, Option, none, some, List, [], ◌∷◌, ◌++◌, ◌&&◌,
  length, if◌then◌else◌, arith, All, inl, inr, Bool-cases,
}
use market_place_app.Gateway.Routing.{
  Route, codes, allowlist, nat_eq, starts_with, same_text, matches, is_longer, better, resolve_in,
  resolve,
}

nat_eq_lem : (m n : ℕ) → nat_eq m n ≡ true → m ≡ n
nat_eq_lem m n h = ground arith

pub same_text_lem : (p path : List ℕ) → same_text p path ≡ true → path ≡ p
unfolding same_text
same_text_lem [] [] h = refl
same_text_lem [] (d ∷ ds) h = ground arith
same_text_lem (c ∷ cs) [] h = ground arith
same_text_lem (c ∷ cs) (d ∷ ds) h = ground (arith, nat_eq_lem c d, same_text_lem cs ds)

pub same_text_refl : (p : List ℕ) → same_text p p ≡ true
unfolding same_text
same_text_refl [] = refl
same_text_refl (c ∷ cs) = ground (arith, same_text_refl cs)

starts_with_lem :
    (p path : List ℕ) → starts_with p path ≡ true → (rest : List ℕ) × (path ≡ p ++ rest)
unfolding starts_with
starts_with_lem [] path h = (path, refl)
starts_with_lem (c ∷ cs) [] h = ground arith
starts_with_lem (c ∷ cs) (d ∷ ds) h =
    let (rest, e) = starts_with_lem cs ds (ground arith) in
    let same : c ≡ d = ground arith in (rest, cc)

starts_with-append : (p rest : List ℕ) → starts_with p (p ++ rest) ≡ true
unfolding starts_with
starts_with-append [] rest = refl
starts_with-append (c ∷ cs) rest = ground (arith, starts_with-append cs rest)

append_assoc : (p : List ℕ) (c : ℕ) (rest : List ℕ) → (p ++ c ∷ []) ++ rest ≡ p ++ c ∷ rest
append_assoc [] c rest = refl
append_assoc (d ∷ p) c rest = ap (λ (t : List ℕ). d ∷ t) (append_assoc p c rest)

-- The path of the route itself, or one below it.
abbrev pub IsUnder : List ℕ → Route → Type 0
IsUnder path r = (path ≡ r.prefix) ⊎ ((rest : List ℕ) × (path ≡ r.prefix ++ b'/' ∷ rest))

matches-IsUnder : (path : List ℕ) (r : Route) → matches path r ≡ true → IsUnder path r
matches-IsUnder path r h = elim (Bool-cases (same_text r.prefix path)) [
  | inl e ↦ inl (same_text_lem r.prefix path e)
  | inr e ↦
      let (rest, same) = starts_with_lem (r.prefix ++ b'/' ∷ []) path (ground arith) in
      let assoc = append_assoc r.prefix b'/' rest in inr (rest, cc)
]

IsUnder-matches : (path : List ℕ) (r : Route) → IsUnder path r → matches path r ≡ true
IsUnder-matches path r (inl e) = rw e (ground (arith, same_text_refl r.prefix))
IsUnder-matches path r (inr (rest, e)) =
    let assoc = append_assoc r.prefix b'/' rest in
    let begins = starts_with-append (r.prefix ++ b'/' ∷ []) rest in
    let found : starts_with (r.prefix ++ b'/' ∷ []) path ≡ true = cc in ground arith

abbrev pub IsIn : Route → List Route → Type 0
IsIn r [] = ⊥
IsIn r (s ∷ rs) = (r ≡ s) ⊎ IsIn r rs

-- The match found is at least as long as a route.
abbrev pub Covers : Option Route → Route → Type 0
Covers found r = (t : Route) × (found ≡ some t) × (length r.prefix ≤ length t.prefix)

-- A turn keeps a match at least as long.
better_grows : (path : List ℕ) (r b : Route) → Covers (better path r (some b)) b
unfolding better
better_grows path r b = elim (Bool-cases (matches path r && is_longer r (some b))) [
  | inl e ↦ (r, ap (λ (t : Bool). if t then some r else some b) e, ground arith)
  | inr e ↦ (b, ap (λ (t : Bool). if t then some r else some b) e, omega arith)
]

better-Covers :
    (path : List ℕ) (r : Route) (best : Option Route)
    → IsUnder path r
    → Covers (better path r best) r
unfolding better
better-Covers path r none h = (r, rw (IsUnder-matches path r h) refl, omega arith)
better-Covers path r (some b) h = elim (Bool-cases (is_longer r (some b))) [
  | inl e ↦ (r, ground (arith, IsUnder-matches path r h), omega arith)
  | inr e ↦ (b, ground (arith, IsUnder-matches path r h), ground arith)
]

Covers-trans :
    (rs : List Route) (path : List ℕ) (best : Option Route) (r : Route)
    → ((b : Route) → Covers (resolve_in rs path (some b)) b)
    → Covers best r
    → Covers (resolve_in rs path best) r
Covers-trans rs path best r grows (b, e, long) =
    let (t, f, longer) = grows b in
    (
      t,
      subst (λ (o : Option Route). resolve_in rs path o ≡ some t) (sym e) f,
      omega (arith, long, longer),
    )

best_grows : (rs : List Route) (path : List ℕ) (b : Route) → Covers (resolve_in rs path (some b)) b
unfolding resolve_in
best_grows [] path b = (b, refl, omega arith)
best_grows (r ∷ rs) path b =
    Covers-trans rs path (better path r (some b)) b (best_grows rs path) (better_grows path r b)

resolve_in-Covers :
    (rs : List Route) (path : List ℕ) (best : Option Route)
    → All (λ r. IsUnder path r → Covers (resolve_in rs path best) r) rs
unfolding resolve_in
resolve_in-Covers [] path best = tt
resolve_in-Covers (r ∷ rs) path best = (
  λ h.
      Covers-trans rs path (better path r best) r (best_grows rs path)
        (better-Covers path r best h),
  resolve_in-Covers rs path (better path r best),
)

better-IsUnder :
    (path : List ℕ) (r : Route) (best : Option Route) (t : Route)
    → better path r best ≡ some t
    → (best ≡ some t) ⊎ (IsUnder path r × (t ≡ r))
unfolding better
better-IsUnder path r best t h = elim (Bool-cases (matches path r && is_longer r best)) [
  | inl e ↦ inr (matches-IsUnder path r (ground arith), ground arith)
  | inr e ↦ inl (ground arith)
]

resolve_in-IsUnder :
    (rs : List Route) (path : List ℕ) (best : Option Route) (t : Route)
    → resolve_in rs path best ≡ some t
    → (best ≡ some t) ⊎ (IsUnder path t × IsIn t rs)
unfolding resolve_in
resolve_in-IsUnder [] path best t h = inl h
resolve_in-IsUnder (r ∷ rs) path best t h =
    elim (resolve_in-IsUnder rs path (better path r best) t h) [
      | inl e ↦ elim (better-IsUnder path r best t e) [
        | inl e' ↦ inl e'
        | inr (u, same) ↦ inr (subst (IsUnder path) (sym same) u, inl same)
      ]
      | inr (u, there) ↦ inr (u, inr there)
    ]

-- The route of a path is one of the allowlist, the path is the route's own or below it, and no
-- longer route has the path; where the path is that of a route or below it, a route is found.
pub resolve_lem :
    (path : List ℕ)
    → ((t : Route) → resolve path ≡ some t → IsUnder path t × IsIn t allowlist)
      × All (λ r. IsUnder path r → Covers (resolve path) r) allowlist
unfolding resolve
resolve_lem path = (
  λ t h. elim (resolve_in-IsUnder allowlist path none t h) [ inl e ↦ ground arith | inr u ↦ u ],
  resolve_in-Covers allowlist path none,
)

-- No path that begins with that of the internal routes, or with that of the service tokens, is
-- proxied, whatever follows.
pub resolve_internal :
    (rest : List ℕ)
    → (resolve (codes "/api/v1/internal" ++ rest) ≡ none)
      × (resolve (codes "/api/v1/auth/service-token" ++ rest) ≡ none)
unfolding resolve starts_with same_text
resolve_internal rest = (refl, refl)

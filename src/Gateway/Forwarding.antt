-- ===== src/Gateway/Forwarding.antt =====
-- The calls of services that routes/proxy.py of the gateway makes, through forward of proxy_service.py.
use market_place_app.Prelude.{
  ℕ, ◌≡◌, ◌⊎◌, refl, sym, ap, ◌∙◌, subst, Bool, true, false, Option, none, some, List, ◌++◌, inl,
  inr, Bool-cases,
}
use market_place_app.Prelude.Session.{Result, err}
use market_place_app.Gateway.Breaker.{CircuitBreaker, is_open}
use market_place_app.Gateway.Routing.{Upstream, Route, codes, resolve}
use market_place_app.Gateway.Resolve.{resolve_internal}
use market_place_app.Gateway.Headers.{get_header}
use market_place_app.Gateway.Proxy.{
  not_found, ServiceError, Request, Outgoing, Response, Reply, outgoing, answered, bearer, is_valid,
  forward, proxied, proxy, service_key,
}

module _ {ℓ} {W : Type ℓ} (clean : List ℕ → List ℕ) (exchange : Outgoing → W → Reply × ℕ × W)
    (verify : List ℕ → Bool) (now : ℕ) (r : Request) (b : CircuitBreaker) (w : W) where
  -- Refused at the gateway: nothing is sent, and the breaker learns nothing.
  abbrev pub Refused : Result ServiceError Response × CircuitBreaker × W → Type ℓ
  Refused out = ((e : ServiceError) × (out.0 ≡ err e)) × (out.1 ≡ b) × (out.2 ≡ w)

  -- Sent once to a service, whose answer is the caller's and the breaker's.
  abbrev pub Sent : Upstream → Result ServiceError Response × CircuitBreaker × W → Type ℓ
  Sent upstream out =
      let key = service_key upstream in
      let (reply, at, w') = exchange (outgoing clean r upstream) w in
      (out.2 ≡ w') × ((out.0, out.1) ≡ answered at key reply b)

  abbrev pub MaySend : Route → Type 0
  MaySend route =
      (resolve r.path ≡ some route)
      × (is_valid verify (bearer (get_header (codes "authorization") r.headers)) ≡ true)
      × (is_open now (service_key route.upstream_setting) b ≡ false)

  forward_lem :
      (upstream : Upstream)
      → (let out = forward clean exchange now r upstream b w in
          Refused out ⊎ ((is_open now (service_key upstream) b ≡ false) × Sent upstream out))
  unfolding forward
  forward_lem upstream = elim (Bool-cases (is_open now (service_key upstream) b)) [
    | inl o ↦ rw o (inl ((_, refl), refl, refl))
    | inr o ↦ rw o (inr (refl, (refl, refl)))
  ]

  proxied_lem :
      (found : Option Route)
      → resolve r.path ≡ found
      → (let out = proxied clean exchange verify now r b w found in
          Refused out ⊎ ((route : Route) × MaySend route × Sent route.upstream_setting out))
  unfolding proxied
  proxied_lem none e = inl ((_, refl), refl, refl)
  proxied_lem (some route) e =
      let verified = is_valid verify (bearer (get_header (codes "authorization") r.headers)) in
      elim (Bool-cases verified) [
        | inl v ↦ rw v (elim (forward_lem route.upstream_setting) [
          | inl refused ↦ inl refused
          | inr (o, sent) ↦ inr (route, (e, refl, o), sent)
        ])
        | inr v ↦ rw v (inl ((_, refl), refl, refl))
      ]

-- Whatever the HTTP client does, a request of the gateway either is refused by the gateway itself,
-- with nothing sent and the breaker unchanged, or is sent exactly once to the service of the route
-- that its path resolves to: only if its bearer token, where it has one, is valid and the
-- service's circuit is closed, and then the caller's answer and the breaker's record are those of
-- what the client brought.
pub proxy_lem {ℓ} :
    {W : Type ℓ} (clean : List ℕ → List ℕ) (exchange : Outgoing → W → Reply × ℕ × W)
    (verify : List ℕ → Bool) (now : ℕ) (r : Request) (b : CircuitBreaker) (w : W)
    → (let out = proxy clean exchange verify now r b w in
        Refused clean exchange verify now r b w out
        ⊎ ((route : Route) × MaySend clean exchange verify now r b w route
            × Sent clean exchange verify now r b w route.upstream_setting out))
unfolding proxy
proxy_lem clean exchange verify now r b w =
    proxied_lem clean exchange verify now r b w (resolve r.path) refl

-- Where the HTTP client takes a request's path as it stands, with no dot segment to remove, no path
-- of the internal routes or of the service tokens is sent: the request is answered 404 and nothing
-- is sent, whatever follows in the path.
pub proxy_internal {ℓ} :
    {W : Type ℓ} (clean : List ℕ → List ℕ) (exchange : Outgoing → W → Reply × ℕ × W)
    (verify : List ℕ → Bool) (now : ℕ) (r : Request) (b : CircuitBreaker) (w : W) (rest : List ℕ)
    → clean r.path ≡ r.path
    → (clean r.path ≡ codes "/api/v1/internal" ++ rest)
      ⊎ (clean r.path ≡ codes "/api/v1/auth/service-token" ++ rest)
    → proxy clean exchange verify now r b w
      ≡ (err (record { status_code = 404; code = not_found }), b, w)
unfolding proxy proxied
proxy_internal clean exchange verify now r b w rest plain which =
    let hidden : resolve r.path ≡ none = elim which [
      | inl e ↦ subst (λ (p : List ℕ). resolve p ≡ none) (sym e ∙ plain) (resolve_internal rest).0
      | inr e ↦ subst (λ (p : List ℕ). resolve p ≡ none) (sym e ∙ plain) (resolve_internal rest).1
    ] in
    ap (proxied clean exchange verify now r b w) hidden

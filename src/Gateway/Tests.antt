-- ===== src/Gateway/Tests.antt =====
-- The gateway on concrete requests, with a client that answers every call and counts them.
use market_place_app.Prelude.{
  ℕ, ◌≡◌, refl, true, false, none, some, List, [], ◌∷◌, ◌⊎◌, inl, suc, All,
}
use market_place_app.Prelude.Session.{err}
use market_place_app.Gateway.Breaker.{
  new_breaker, is_open, Outcome, success, failure, told, told_all,
}
use market_place_app.Gateway.BreakerHistory.{must_open, recent, none_yet, is_open_lem}
use market_place_app.Gateway.Routing.{
  Route, order_service_url, allowlist, codes, route, starts_with, same_text, better, resolve_in,
  resolve,
}
use market_place_app.Gateway.Resolve.{IsUnder, IsIn, Covers, resolve_lem}
use market_place_app.Gateway.Headers.{
  end_to_end, get_header, set_header, copied_onto, is_hop_by_hop,
}
use market_place_app.Gateway.Proxy.{
  not_found, Request, Outgoing, Reply, replied, sent_headers, proxy,
}
use market_place_app.Gateway.Forwarding.{Refused, MaySend, Sent, proxy_lem, proxy_internal}
use market_place_app.Gateway.ReadHeaders.{forwarded_for_lem}

-- Three failures of the orders' service, one success of another.
abbrev history : List Outcome
history =
    failure 10 "order_service_url"
    ∷ failure 20 "order_service_url"
    ∷ success "cart_service_url"
    ∷ failure 30 "order_service_url"
    ∷ []

is_open_lem_example :
    is_open 59 "order_service_url" (told_all history (new_breaker 3 30))
    ≡ must_open 3 30 59 (recent "order_service_url" none_yet history)
is_open_lem_example = is_open_lem 3 30 59 "order_service_url" history

still_open : is_open 59 "order_service_url" (told_all history (new_breaker 3 30)) ≡ true
unfolding is_open told_all told
still_open = refl

trial_call : is_open 60 "order_service_url" (told_all history (new_breaker 3 30)) ≡ false
unfolding is_open told_all told
trial_call = refl

own_order : resolve (codes "/api/v1/orders/12") ≡ some (route "/api/v1/orders" order_service_url)
unfolding resolve resolve_in better starts_with same_text
own_order = refl

no_order : resolve (codes "/api/v1/orders-export") ≡ none
unfolding resolve resolve_in better starts_with same_text
no_order = refl

resolve_lem_example :
    ((t : Route)
      → resolve (codes "/api/v1/orders/12") ≡ some t
      → IsUnder (codes "/api/v1/orders/12") t × IsIn t allowlist)
    × All
        (λ r.
          IsUnder (codes "/api/v1/orders/12") r → Covers (resolve (codes "/api/v1/orders/12")) r)
        allowlist
resolve_lem_example = resolve_lem (codes "/api/v1/orders/12")

abbrev exchange : Outgoing → ℕ → Reply × ℕ × ℕ
exchange out n = (replied (record { status_code = 200; headers = []; content = [] }), 100, suc n)

-- A caller that gives an address of its own choice.
abbrev spoofing : Request
spoofing = record {
  method = "GET";
  path = codes "/api/v1/orders/12";
  query = "";
  headers = (codes "x-forwarded-for", "10.0.0.1") ∷ [];
  body = [];
  request_id = "r";
  client_host = some "203.0.113.9";
}

proxy_lem_example :
    (let out = proxy (λ p. p) exchange (λ token. true) 50 spoofing (new_breaker 5 30) 0 in
      Refused (λ p. p) exchange (λ token. true) 50 spoofing (new_breaker 5 30) 0 out
      ⊎ ((route : Route) × MaySend
            (λ p. p)
            exchange
            (λ token. true)
            50
            spoofing
            (new_breaker 5 30)
            0
            route
          × Sent
              (λ p. p)
              exchange
              (λ token. true)
              50
              spoofing
              (new_breaker 5 30)
              0
              route.upstream_setting
              out))
proxy_lem_example = proxy_lem (λ p. p) exchange (λ token. true) 50 spoofing (new_breaker 5 30) 0

proxy_internal_example :
    proxy
      (λ p. p)
      exchange
      (λ token. true)
      50
      (record spoofing { path = codes "/api/v1/internal/checkout/batch" })
      (new_breaker 5 30)
      0
    ≡ (err (record { status_code = 404; code = not_found }), new_breaker 5 30, 0)
proxy_internal_example =
    proxy_internal (λ p. p) exchange (λ token. true) 50
      (record spoofing { path = codes "/api/v1/internal/checkout/batch" }) (new_breaker 5 30) 0
      (codes "/checkout/batch") refl (inl refl)

forwarded_for_lem_example :
    get_header (codes "x-forwarded-for") (sent_headers spoofing)
    ≡ (elim (get_header (codes "x-forwarded-for") (end_to_end spoofing.headers)) [
      | none ↦ some "203.0.113.9"
      | some own ↦ some own
    ])
forwarded_for_lem_example = forwarded_for_lem spoofing "203.0.113.9" (refl, tt) refl

spoofed : get_header (codes "x-forwarded-for") (sent_headers spoofing) ≡ some "10.0.0.1"
unfolding sent_headers copied_onto is_hop_by_hop set_header get_header same_text
spoofed = refl

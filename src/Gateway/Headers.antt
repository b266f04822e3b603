-- ===== src/Gateway/Headers.antt =====
-- The headers that the gateway passes on (services/api-gateway/app/services/proxy_service.py), as
-- the ordered dict that it builds. A name is the list of its code points.
use market_place_app.Prelude.{
  ℕ, ◌+◌, String, Bool, Option, none, some, List, [], ◌∷◌, ◌&&◌, leb, if◌then◌else◌, map, any,
}
use market_place_app.Gateway.Routing.{codes, same_text}

abbrev pub Headers : Type 0
Headers = List (List ℕ × String)

-- `lower()`, of the letters A to Z
abbrev pub lower : List ℕ → List ℕ
lower name = map (λ c. if leb b'A' c && leb c b'Z' then c + 32 else c) name

abbrev pub hop_by_hop_headers : List (List ℕ)
hop_by_hop_headers =
    codes "connection"
    ∷ codes "keep-alive"
    ∷ codes "proxy-authenticate"
    ∷ codes "proxy-authorization"
    ∷ codes "te"
    ∷ codes "trailers"
    ∷ codes "transfer-encoding"
    ∷ codes "upgrade"
    ∷ codes "host"
    ∷ codes "content-length"
    ∷ []

unfoldable pub is_hop_by_hop : List ℕ → Bool
is_hop_by_hop name = any (same_text (lower name)) hop_by_hop_headers

-- `headers[name] = value`
unfoldable pub set_header : List ℕ → String → Headers → Headers
set_header name value [] = (name, value) ∷ []
set_header name value ((other, kept) ∷ hs) =
    let rest = set_header name value hs in
    if same_text name other then (other, value) ∷ hs else (other, kept) ∷ rest

-- The dict comprehension: the end-to-end headers of a list, after those already there.
unfoldable pub copied_onto : Headers → Headers → Headers
copied_onto done [] = done
copied_onto done ((name, value) ∷ hs) =
    copied_onto (if is_hop_by_hop name then done else set_header name value done) hs

abbrev pub end_to_end : Headers → Headers
end_to_end hs = copied_onto [] hs

-- What a service reads under a name in lower case: the first header with the name, in any case.
unfoldable pub get_header : List ℕ → Headers → Option String
get_header name [] = none
get_header name ((other, value) ∷ hs) =
    let rest = get_header name hs in if same_text name (lower other) then some value else rest

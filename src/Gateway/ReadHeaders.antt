-- ===== src/Gateway/ReadHeaders.antt =====
-- The headers of services/proxy_service.py of the gateway as the service behind it reads them.
use market_place_app.Prelude.{
  ℕ, ◌≡◌, refl, sym, subst, String, true, false, none, some, List, [], ◌∷◌, inl, inr, Bool-cases,
  arith, All, if◌then◌else◌,
}
use market_place_app.Gateway.Routing.{codes, same_text}
use market_place_app.Gateway.Resolve.{same_text_lem, same_text_refl}
use market_place_app.Gateway.Headers.{
  Headers, lower, is_hop_by_hop, set_header, copied_onto, end_to_end, get_header,
}
use market_place_app.Gateway.Proxy.{Request, sent_headers}

-- No header of the dict is spelled just so.
abbrev Lacks : List ℕ → Headers → Type 0
Lacks name hs = All (λ (h : List ℕ × String). same_text name h.0 ≡ false) hs

-- The server has put the headers' names in lower case.
abbrev pub IsLower : Headers → Type 0
IsLower hs = All (λ (h : List ℕ × String). lower h.0 ≡ h.0) hs

Lacks-set_header :
    (name other : List ℕ) (value : String) (hs : Headers)
    → same_text name other ≡ false
    → Lacks name hs
    → Lacks name (set_header other value hs)
unfolding set_header
Lacks-set_header name other value [] e h = (e, tt)
Lacks-set_header name other value ((n, v) ∷ hs) e h =
    ground (arith, Lacks-set_header name other value hs e h.1)

-- A write under another name is not seen.
get_header-set_header_ne :
    (read name : List ℕ) (value : String) (hs : Headers)
    → same_text read (lower name) ≡ false
    → get_header read (set_header name value hs) ≡ get_header read hs
unfolding get_header set_header
get_header-set_header_ne read name value [] e = ground arith
get_header-set_header_ne read name value ((n, v) ∷ hs) e =
    ground (arith, same_text_lem name n, get_header-set_header_ne read name value hs e)

-- A header that is added is read, unless one with the name in another spelling stands before it.
get_header-set_header_new :
    (read name : List ℕ) (value : String) (hs : Headers)
    → same_text read (lower name) ≡ true
    → Lacks name hs
    → get_header read (set_header name value hs)
      ≡ (elim (get_header read hs) [ none ↦ some value | some own ↦ some own ])
unfolding get_header set_header
get_header-set_header_new read name value [] e h = ground arith
get_header-set_header_new read name value ((n, v) ∷ hs) e h =
    ground (arith, get_header-set_header_new read name value hs e h.1)

Lacks-copied_onto :
    (name : List ℕ) (done hs : Headers)
    → Lacks name done
    → Lacks name hs
    → Lacks name (copied_onto done hs)
unfolding copied_onto
Lacks-copied_onto name done [] d h = d
Lacks-copied_onto name done ((n, v) ∷ hs) d h =
    let added = Lacks-set_header name n v done h.0 d in
    let next : Lacks name (if is_hop_by_hop n then done else set_header n v done) = ground arith in
    Lacks-copied_onto name (if is_hop_by_hop n then done else set_header n v done) hs next h.1

-- A name with a capital letter is not among those in lower case.
Lacks-IsLower :
    (name : List ℕ) (hs : Headers)
    → same_text (lower name) name ≡ false
    → IsLower hs
    → Lacks name hs
Lacks-IsLower name [] capital h = tt
Lacks-IsLower name ((n, v) ∷ hs) capital h =
    let rest = Lacks-IsLower name hs capital h.1 in
    elim (Bool-cases (same_text name n)) [
      | inl e ↦
          let same = same_text_lem name n e in
          let lower_same : lower name ≡ name = subst (λ (m : List ℕ). lower m ≡ m) same h.0 in
          let reflexive = same_text_refl name in
          let absurd : same_text (lower name) name ≡ true =
            subst (λ (m : List ℕ). same_text m name ≡ true) (sym lower_same) reflexive in
          ground (arith, absurd, capital)
      | inr e ↦ (e, rest)
    ]

-- The caller's address as a service reads it, `request.headers.get("X-Forwarded-For")`, is the one
-- that the request itself gives in that header, where it has one; only a request without one is
-- read as coming from the host that the gateway saw. The server has put the names of the request's
-- headers in lower case, and knows the host.
pub forwarded_for_lem :
    (r : Request) (host : String)
    → IsLower r.headers
    → r.client_host ≡ some host
    → get_header (codes "x-forwarded-for") (sent_headers r)
      ≡ (elim (get_header (codes "x-forwarded-for") (end_to_end r.headers)) [
        | none ↦ some host
        | some own ↦ some own
      ])
unfolding sent_headers same_text
forwarded_for_lem r host low known =
    let name = codes "X-Forwarded-For" in
    let id_name = codes "X-Request-ID" in
    let read = codes "x-forwarded-for" in
    let own = end_to_end r.headers in
    let copied = Lacks-copied_onto name [] r.headers tt (Lacks-IsLower name r.headers refl low) in
    let before = Lacks-set_header name id_name r.request_id own refl copied in
    let added =
      get_header-set_header_new read name host (set_header id_name r.request_id own) refl before in
    let kept = get_header-set_header_ne read id_name r.request_id own refl in
    rw (known, added, kept) refl

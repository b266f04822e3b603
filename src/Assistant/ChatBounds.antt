-- ===== src/Assistant/ChatBounds.antt =====
-- The calls of the chat that the assistant's rate limit lets through, counted in a window.
use market_place_app.Prelude.{
  ℕ, String, ◌+◌, ◌≤◌, ◌≡◌, refl, subst, Bool, true, false, List, [], ◌∷◌, ◌++◌, ◌&&◌, leb, length,
  length-append, str_eq, str_eq_iff, if◌then◌else◌, arith, Bool-cases, inl, inr, not,
}
use market_place_app.Assistant.RateLimit.{
  Request, Hits, ChatRateLimit, window, Answer, passed, refused, index_error, client_key, is_chat,
  drop_expired, refusal, admit, dispatch,
}

-- A call with the time it arrives at.
abbrev pub Arrival : Type 0
Arrival = ℕ × Request

abbrev pub no_hits : Hits
no_hits key = []

-- The clock never goes back.
abbrev pub IsMonotone : ℕ → List Arrival → Type 0
IsMonotone now [] = Unit
IsMonotone now (c ∷ cs) = (now ≤ c.0) × IsMonotone c.0 cs

unfoldable pub hits_after : ChatRateLimit → List Arrival → Hits → Hits
hits_after l [] hits = hits
hits_after l (c ∷ cs) hits = hits_after l cs (dispatch l c.0 c.1 hits).1

abbrev pub is_passed : Answer → Bool
is_passed passed = true
is_passed (refused n) = false
is_passed index_error = false

-- The times of a caller's calls of the chat that are let through.
unfoldable pub let_through : ChatRateLimit → String → List Arrival → Hits → List ℕ
let_through l key [] hits = []
let_through l key (c ∷ cs) hits =
    let rest = let_through l key cs (dispatch l c.0 c.1 hits).1 in
    if is_chat l c.1 && str_eq (client_key c.1) key && is_passed (dispatch l c.0 c.1 hits).0
    then c.0 ∷ rest
    else rest

-- How many of the times lie in the window that starts at a time.
unfoldable pub count_in : ℕ → ℕ → List ℕ → ℕ
count_in start window [] = 0
count_in start window (t ∷ ts) =
    let rest = count_in start window ts in
    if leb start t && not (leb (start + window) t) then rest + 1 else rest

count_in-append :
    (a w : ℕ) (xs ys : List ℕ) → count_in a w (xs ++ ys) ≡ count_in a w xs + count_in a w ys
unfolding count_in
count_in-append a w [] ys = omega arith
count_in-append a w (x ∷ xs) ys = ground (arith, count_in-append a w xs ys)

count_in_le : (a w : ℕ) (xs : List ℕ) → count_in a w xs ≤ length xs
unfolding count_in
count_in_le a w [] = omega arith
count_in_le a w (x ∷ xs) = ground (arith, count_in_le a w xs)

pub length-drop_expired : (w now : ℕ) (xs : List ℕ) → length (drop_expired w now xs) ≤ length xs
unfolding drop_expired
length-drop_expired w now [] = omega arith
length-drop_expired w now (x ∷ xs) = ground (arith, length-drop_expired w now xs)

-- The times let through from now on.
abbrev pub IsFrom : ℕ → List ℕ → Type 0
IsFrom now [] = Unit
IsFrom now (t ∷ ts) = (now ≤ t) × IsFrom now ts

count_in_past : (a w now : ℕ) (out : List ℕ) → IsFrom now out → a + w ≤ now → count_in a w out ≡ 0
unfolding count_in
count_in_past a w now [] h e = refl
count_in_past a w now (t ∷ ts) h e = ground (arith, count_in_past a w now ts h.1 e)

-- What was dropped is in no window with a later call.
dropped_lem :
    (a w now limit : ℕ) (xs out : List ℕ)
    → length xs ≤ limit
    → IsFrom now out
    → count_in a w (drop_expired w now xs) + count_in a w out ≤ limit
    → count_in a w xs + count_in a w out ≤ limit
unfolding drop_expired count_in
dropped_lem a w now limit [] out small later h = h
dropped_lem a w now limit (x ∷ xs) out small later h =
    ground
      (arith, count_in_le a w xs, count_in_past a w now out later, dropped_lem a w now limit xs out)

pub IsFrom-le : (s t : ℕ) (ts : List ℕ) → s ≤ t → IsFrom t ts → IsFrom s ts
IsFrom-le s t [] e h = tt
IsFrom-le s t (x ∷ ts) e h = (omega (arith, h.0), IsFrom-le s t ts e h.1)

let_through-IsFrom :
    (l : ChatRateLimit) (key : String) (now : ℕ) (cs : List Arrival) (hits : Hits)
    → IsMonotone now cs
    → IsFrom now (let_through l key cs hits)
unfolding let_through
let_through-IsFrom l key now [] hits h = tt
let_through-IsFrom l key now (c ∷ cs) hits h =
    let next = (dispatch l c.0 c.1 hits).1 in
    let rest =
      IsFrom-le now c.0 (let_through l key cs next) h.0
        (let_through-IsFrom l key c.0 cs next h.1) in
    elim (Bool-cases
      (is_chat l c.1 && str_eq (client_key c.1) key && is_passed (dispatch l c.0 c.1 hits).0)) [
        | inl e ↦ rw e (h.0, rest)
        | inr e ↦ rw e rest
      ]

-- A call leaves the deques of the other callers alone, and all of them if it is no chat.
pub dispatch_other :
    (l : ChatRateLimit) (now : ℕ) (r : Request) (hits : Hits) (key : String)
    → (is_chat l r && str_eq (client_key r) key) ≡ false
    → (dispatch l now r hits).1 key ≡ hits key
unfolding dispatch
dispatch_other l now r hits key h = ground arith

pub dispatch_own :
    (l : ChatRateLimit) (now : ℕ) (r : Request) (hits : Hits) (key : String)
    → (is_chat l r && str_eq (client_key r) key) ≡ true
    → ((dispatch l now r hits).0 ≡ (admit l now (drop_expired (window l) now (hits key))).0)
      × ((dispatch l now r hits).1 key ≡ (admit l now (drop_expired (window l) now (hits key))).1)
unfolding dispatch
dispatch_own l now r hits key h = ground (arith, str_eq_iff (client_key r) key)

-- A deque never holds more than the limit.
pub admit_small :
    (l : ChatRateLimit) (now : ℕ) (xs : List ℕ)
    → length xs ≤ l.limit
    → length (admit l now xs).1 ≤ l.limit
admit_small l now xs h = ground (arith, length-append xs (now ∷ []))

pub refusal_lem : (l : ChatRateLimit) (now : ℕ) (xs : List ℕ) → is_passed (refusal l now xs) ≡ false
refusal_lem l now [] = refl
refusal_lem l now (x ∷ xs) = refl

-- One call of the caller: its own time, if it is let through, is counted once.
admit_lem :
    (l : ChatRateLimit) (a now : ℕ) (xs out : List ℕ)
    → count_in a (window l) (admit l now xs).1 + count_in a (window l) out ≤ l.limit
    → count_in a (window l) xs
        + count_in a (window l) (if is_passed (admit l now xs).0 then now ∷ out else out)
      ≤ l.limit
unfolding count_in
admit_lem l a now xs out h =
    ground (arith, refusal_lem l now xs, count_in-append a (window l) xs (now ∷ []))

pub let_through_other :
    (l : ChatRateLimit) (key : String) (c : Arrival) (cs : List Arrival) (hits : Hits)
    → (is_chat l c.1 && str_eq (client_key c.1) key) ≡ false
    → let_through l key (c ∷ cs) hits ≡ let_through l key cs (dispatch l c.0 c.1 hits).1
unfolding let_through
let_through_other l key c cs hits h = ground arith

pub let_through_own :
    (l : ChatRateLimit) (key : String) (c : Arrival) (cs : List Arrival) (hits : Hits)
    → (is_chat l c.1 && str_eq (client_key c.1) key) ≡ true
    → let_through l key (c ∷ cs) hits ≡ (
        let done = admit l c.0 (drop_expired (window l) c.0 (hits key)) in
        let out = let_through l key cs (dispatch l c.0 c.1 hits).1 in
        if is_passed done.0 then c.0 ∷ out else out)
unfolding let_through
let_through_own l key c cs hits h = ground (arith, dispatch_own l c.0 c.1 hits key h)

window_lem :
    (l : ChatRateLimit) (key : String) (a now : ℕ) (cs : List Arrival) (hits : Hits)
    → IsMonotone now cs
    → length (hits key) ≤ l.limit
    → count_in a (window l) (hits key) + count_in a (window l) (let_through l key cs hits) ≤ l.limit
unfolding let_through count_in
window_lem l key a now [] hits m small = omega (arith, count_in_le a (window l) (hits key), small)
window_lem l key a now (c ∷ cs) hits m small =
    let w = window l in
    let next = (dispatch l c.0 c.1 hits).1 in
    let kept = drop_expired w c.0 (hits key) in
    let out = let_through l key cs next in
    let Goes : List ℕ → Type 0 =
      λ ts. length ts ≤ l.limit → count_in a w ts + count_in a w out ≤ l.limit in
    let go : Goes (next key) = window_lem l key a c.0 cs next m.1 in
    elim (Bool-cases (is_chat l c.1 && str_eq (client_key c.1) key)) [
      | inl e ↦
          let own = subst Goes (dispatch_own l c.0 c.1 hits key e).1 go in
          let kept_small : length kept ≤ l.limit =
            omega (arith, length-drop_expired w c.0 (hits key), small) in
          let counted = admit_lem l a c.0 kept out (own (admit_small l c.0 kept kept_small)) in
          dropped_lem a w c.0 l.limit (hits key) (let_through l key (c ∷ cs) hits) small
            (let_through-IsFrom l key c.0 (c ∷ cs) hits (omega arith, m.1))
            (rw (let_through_own l key c cs hits e) counted)
      | inr e ↦
          rw (let_through_other l key c cs hits e)
            (subst Goes (dispatch_other l c.0 c.1 hits key e) go small)
    ]

-- Whatever calls arrive, in any order of callers, a caller has at most `limit` calls of the chat let
-- through in any window: those whose times lie from `start` up to, but not including, `start` plus
-- the window's length. The limiter starts empty and its clock does not go back.
pub let_through_lem :
    (l : ChatRateLimit) (key : String) (start first : ℕ) (cs : List Arrival)
    → IsMonotone first cs
    → count_in start (window l) (let_through l key cs no_hits) ≤ l.limit
unfolding count_in
let_through_lem l key start first cs m =
    omega (arith, window_lem l key start first cs no_hits m (omega arith))

-- ===== src/Assistant/Admission.antt =====
-- The decision of the assistant's rate limit on one call, against the calls let through before.
use market_place_app.Prelude.{
  ℕ, String, ◌+◌, ◌≤◌, ◌<◌, ◌≡◌, refl, sym, subst, true, List, [], ◌∷◌, ◌++◌, ◌&&◌, leb, length,
  str_eq, if◌then◌else◌, arith, Bool-cases, inl, inr, not,
}
use market_place_app.Assistant.RateLimit.{
  Request, Hits, ChatRateLimit, window, client_key, is_chat, drop_expired, admit, dispatch,
}
use market_place_app.Assistant.ChatBounds.{
  Arrival, no_hits, IsMonotone, hits_after, let_through, is_passed, IsFrom, refusal_lem,
  dispatch_other, dispatch_own, let_through_other, let_through_own,
}

-- The calls that the window still counts.
unfoldable pub live : ℕ → ℕ → List ℕ → ℕ
live w now [] = 0
live w now (t ∷ ts) = let rest = live w now ts in if leb (t + w) now then rest else rest + 1

-- In order, and up to a time.
abbrev IsSortedTo : ℕ → List ℕ → Type 0
IsSortedTo last [] = Unit
IsSortedTo last (t ∷ ts) = (t ≤ last) × IsFrom t ts × IsSortedTo last ts

live-append : (w now : ℕ) (xs ys : List ℕ) → live w now (xs ++ ys) ≡ live w now xs + live w now ys
unfolding live
live-append w now [] ys = omega arith
live-append w now (x ∷ xs) ys = ground (arith, live-append w now xs ys)

-- What is dropped at a time is never live again.
live-drop_expired :
    (w at now : ℕ) (xs : List ℕ) → at ≤ now → live w now (drop_expired w at xs) ≡ live w now xs
unfolding live drop_expired
live-drop_expired w at now [] h = refl
live-drop_expired w at now (x ∷ xs) h = ground (arith, live-drop_expired w at now xs h)

live_all : (w now x : ℕ) (xs : List ℕ) → IsFrom x xs → now < x + w → live w now xs ≡ length xs
unfolding live
live_all w now x [] h e = refl
live_all w now x (y ∷ ys) h e = ground (arith, live_all w now x ys h.1 e)

length-drop_sorted :
    (w now last : ℕ) (xs : List ℕ)
    → IsSortedTo last xs
    → length (drop_expired w now xs) ≡ live w now xs
unfolding live drop_expired
length-drop_sorted w now last [] h = refl
length-drop_sorted w now last (x ∷ xs) h =
    ground (arith, length-drop_sorted w now last xs h.2, live_all w now x xs h.1)

drop_expired-IsFrom : (w now t : ℕ) (xs : List ℕ) → IsFrom t xs → IsFrom t (drop_expired w now xs)
unfolding drop_expired
drop_expired-IsFrom w now t [] h = tt
drop_expired-IsFrom w now t (x ∷ xs) h = ground (arith, drop_expired-IsFrom w now t xs h.1)

drop_expired-IsSortedTo :
    (w now last : ℕ) (xs : List ℕ) → IsSortedTo last xs → IsSortedTo last (drop_expired w now xs)
unfolding drop_expired
drop_expired-IsSortedTo w now last [] h = tt
drop_expired-IsSortedTo w now last (x ∷ xs) h =
    ground (arith, drop_expired-IsSortedTo w now last xs h.2)

IsSortedTo-le : (s t : ℕ) (xs : List ℕ) → s ≤ t → IsSortedTo s xs → IsSortedTo t xs
IsSortedTo-le s t [] e h = tt
IsSortedTo-le s t (x ∷ xs) e h = (omega (arith, h.0), h.1, IsSortedTo-le s t xs e h.2)

IsFrom-append : (t now : ℕ) (xs : List ℕ) → IsFrom t xs → t ≤ now → IsFrom t (xs ++ now ∷ [])
IsFrom-append t now [] h e = (e, tt)
IsFrom-append t now (x ∷ xs) h e = (h.0, IsFrom-append t now xs h.1 e)

IsSortedTo-append : (now : ℕ) (xs : List ℕ) → IsSortedTo now xs → IsSortedTo now (xs ++ now ∷ [])
IsSortedTo-append now [] h = (omega arith, tt, tt)
IsSortedTo-append now (x ∷ xs) h =
    (h.0, IsFrom-append x now xs h.1 h.0, IsSortedTo-append now xs h.2)

admit-IsSortedTo :
    (l : ChatRateLimit) (now : ℕ) (xs : List ℕ)
    → IsSortedTo now xs
    → IsSortedTo now (admit l now xs).1
admit-IsSortedTo l now xs h = ground (arith, IsSortedTo-append now xs h)

admit_live :
    (l : ChatRateLimit) (at w now : ℕ) (xs out : List ℕ)
    → live w now (admit l at xs).1 + live w now out
      ≡ live w now xs + live w now (if is_passed (admit l at xs).0 then at ∷ out else out)
unfolding live
admit_live l at w now xs out = ground (arith, refusal_lem l at xs, live-append w now xs (at ∷ []))

-- The calls arrive until a time.
abbrev pub IsUntil : ℕ → List Arrival → Type 0
IsUntil now [] = Unit
IsUntil now (c ∷ cs) = (c.0 ≤ now) × IsUntil now cs

live_lem :
    (l : ChatRateLimit) (key : String) (first now : ℕ) (cs : List Arrival) (hits : Hits)
    → IsMonotone first cs
    → IsUntil now cs
    → IsSortedTo first (hits key)
    → length (drop_expired (window l) now (hits_after l cs hits key))
      ≡ live (window l) now (hits key) + live (window l) now (let_through l key cs hits)
unfolding hits_after let_through live
live_lem l key first now [] hits m u h =
    omega (arith, length-drop_sorted (window l) now first (hits key) h)
live_lem l key first now (c ∷ cs) hits m u h =
    let w = window l in
    let next = (dispatch l c.0 c.1 hits).1 in
    let kept = drop_expired w c.0 (hits key) in
    let out = let_through l key cs next in
    let Counted : ℕ → List ℕ → List ℕ → Type 0 = λ n ts us. n ≡ live w now ts + live w now us in
    let n = length (drop_expired w now (hits_after l cs next key)) in
    let Goes : List ℕ → Type 0 = λ ts. IsSortedTo c.0 ts → Counted n ts out in
    let go : Goes (next key) = live_lem l key c.0 now cs next m.1 u.1 in
    let sorted = IsSortedTo-le first c.0 (hits key) m.0 h in
    elim (Bool-cases (is_chat l c.1 && str_eq (client_key c.1) key)) [
      | inl e ↦
          let own : Counted n (admit l c.0 kept).1 out =
            subst Goes (dispatch_own l c.0 c.1 hits key e).1 go
              (admit-IsSortedTo l c.0 kept (drop_expired-IsSortedTo w c.0 c.0 (hits key) sorted)) in
          subst (Counted n (hits key)) (sym (let_through_own l key c cs hits e)) (
            omega (
              arith,
              own,
              admit_live l c.0 w now kept out,
              live-drop_expired w c.0 now (hits key) u.0,
            ))
      | inr e ↦
          subst (Counted n (hits key)) (sym (let_through_other l key c cs hits e))
            (subst Goes (dispatch_other l c.0 c.1 hits key e) go sorted)
    ]

-- A call of the chat that arrives after any others is let through exactly if fewer than `limit` of
-- its caller's calls have been let through within the window before it; any other call is let
-- through always. The limiter starts empty and its clock does not go back.
pub dispatch_lem :
    (l : ChatRateLimit) (first now : ℕ) (cs : List Arrival) (r : Request)
    → IsMonotone first cs
    → IsUntil now cs
    → is_passed (dispatch l now r (hits_after l cs no_hits)).0 ≡ (
        if is_chat l r
        then not (leb l.limit (live (window l) now (let_through l (client_key r) cs no_hits)))
        else true)
unfolding dispatch live
dispatch_lem l first now cs r m u =
    let key = client_key r in
    let kept = drop_expired (window l) now (hits_after l cs no_hits key) in
    ground (arith, live_lem l key first now cs no_hits m u tt, refusal_lem l now kept)

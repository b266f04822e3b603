-- ===== src/Assistant/Retry.antt =====
-- What `Retry-After` promises a caller whose call of the chat is refused.
use Prim.Native.Nat.{◌/◌}
use native.Mathlib.Nat.{mod-lt, div-add-mod'}
use market_place_app.Prelude.{
  ℕ, String, ◌+◌, ◌*◌, ◌-◌, ◌≤◌, ◌<◌, ◌≡◌, sym, subst, List, [], ◌∷◌, ◌&&◌, length, str_eq,
  str_eq_iff, arith, Bool-cases, inl, inr,
}
use market_place_app.Assistant.RateLimit.{
  Request, Hits, ChatRateLimit, window, passed, refused, client_key, is_chat, drop_expired, refusal,
  dispatch,
}
use market_place_app.Assistant.ChatBounds.{
  Arrival, no_hits, hits_after, length-drop_expired, admit_small, dispatch_other, dispatch_own,
}

-- The deques stay within the limit.
hits_after_small :
    (l : ChatRateLimit) (key : String) (cs : List Arrival) (hits : Hits)
    → length (hits key) ≤ l.limit
    → length (hits_after l cs hits key) ≤ l.limit
unfolding hits_after
hits_after_small l key [] hits h = h
hits_after_small l key (c ∷ cs) hits h =
    let kept = drop_expired (window l) c.0 (hits key) in
    let go = hits_after_small l key cs (dispatch l c.0 c.1 hits).1 in
    let IsSmall : List ℕ → Type 0 = λ ts. length ts ≤ l.limit in
    elim (Bool-cases (is_chat l c.1 && str_eq (client_key c.1) key)) [
      | inl e ↦
          let kept_small : length kept ≤ l.limit =
            omega (arith, length-drop_expired (window l) c.0 (hits key), h) in
          go (
            subst IsSmall (sym (dispatch_own l c.0 c.1 hits key e).1)
              (admit_small l c.0 kept kept_small))
      | inr e ↦ go (subst IsSmall (sym (dispatch_other l c.0 c.1 hits key e)) h)
    ]

-- A number is less than the next multiple of another after its quotient.
quotient_lem : (n k : ℕ) → 0 < k → n < (n / k + 1) * k
quotient_lem n k h = grind (arith, div-add-mod' n k, mod-lt n h)

-- The deque of a refused call has room once the seconds, and one more, are over.
refusal_room :
    (l : ChatRateLimit) (now seconds : ℕ) (xs : List ℕ)
    → 0 < l.ticks_per_second
    → length xs ≤ l.limit
    → refusal l now xs ≡ refused seconds
    → length (drop_expired (window l) (now + (seconds + 1) * l.ticks_per_second) xs) < l.limit
unfolding drop_expired
refusal_room l now seconds [] pos h e = ground arith
refusal_room l now seconds (x ∷ xs) pos h e =
    let left = x + window l - now in
    grind (
      arith,
      length-drop_expired (window l) (now + (seconds + 1) * l.ticks_per_second) xs,
      quotient_lem left l.ticks_per_second pos,
    )

-- Whatever calls came before, a caller whose call of the chat is refused and told to retry after
-- some seconds is let through when its next call arrives one second later than that.
pub retry_lem :
    (l : ChatRateLimit) (cs : List Arrival) (now seconds : ℕ) (r : Request)
    → 0 < l.ticks_per_second
    → (dispatch l now r (hits_after l cs no_hits)).0 ≡ refused seconds
    → (dispatch l
        (now + (seconds + 1) * l.ticks_per_second)
        r
        (dispatch l now r (hits_after l cs no_hits)).1).0
      ≡ passed
unfolding dispatch
retry_lem l cs now seconds r pos h =
    let key = client_key r in
    let kept = drop_expired (window l) now (hits_after l cs no_hits key) in
    let small = hits_after_small l key cs no_hits (omega arith) in
    let dropped = length-drop_expired (window l) now (hits_after l cs no_hits key) in
    ground (arith, small, dropped, refusal_room l now seconds kept pos, str_eq_iff key key)

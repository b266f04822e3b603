-- ===== src/Gateway/BreakerHistory.antt =====
-- The circuit breaker of the gateway against the history of the calls.
use market_place_app.Prelude.{
  ℕ, String, ◌+◌, ◌≡◌, refl, Bool, none, some, List, [], ◌∷◌, arith, ◌&&◌, leb, str_eq, str_eq_iff,
  if◌then◌else◌, not,
}
use market_place_app.Gateway.Breaker.{
  CircuitBreaker, new_breaker, is_open, Outcome, success, failure, told, told_all,
}

-- A key's failures since its last success, with the time of the last of them.
pub record Recent : Type 0 where
  pub count : ℕ
  pub last_at : ℕ

abbrev after : String → Recent → Outcome → Recent
after key r (success other) = if str_eq other key then record { count = 0; last_at = 0 } else r
after key r (failure now other) =
    if str_eq other key then record { count = r.count + 1; last_at = now } else r

unfoldable pub recent : String → Recent → List Outcome → Recent
recent key r [] = r
recent key r (o ∷ os) = recent key (after key r o) os

abbrev pub none_yet : Recent
none_yet = record { count = 0; last_at = 0 }

-- Open exactly while the failures since the last success have reached the threshold and the
-- cooldown since the last of them is not over.
abbrev pub must_open : ℕ → ℕ → ℕ → Recent → Bool
must_open threshold cooldown now r =
    leb 1 r.count && leb threshold r.count && not (leb (r.last_at + cooldown) now)

-- The state of a key as its recent failures give it.
abbrev Reflects : String → CircuitBreaker → Recent → Type 0
Reflects key b r =
    ((b.states key).consecutive_failures ≡ r.count)
    × ((b.states key).opened_at
        ≡ (if leb 1 r.count && leb b.failure_threshold r.count then some r.last_at else none))

told-Reflects :
    (key : String) (b : CircuitBreaker) (r : Recent) (o : Outcome)
    → Reflects key b r
    → Reflects key (told o b) (after key r o)
unfolding told
told-Reflects key b r (success other) h = ground (arith, str_eq_iff other key)
told-Reflects key b r (failure now other) h = ground (arith, str_eq_iff other key)

same_settings :
    (os : List Outcome) (b : CircuitBreaker)
    → ((told_all os b).failure_threshold ≡ b.failure_threshold)
      × ((told_all os b).cooldown_seconds ≡ b.cooldown_seconds)
unfolding told_all told
same_settings [] b = (refl, refl)
same_settings (success key ∷ os) b = ground (arith, same_settings os (told (success key) b))
same_settings (failure now key ∷ os) b = ground (arith, same_settings os (told (failure now key) b))

told_all-Reflects :
    (key : String) (os : List Outcome) (b : CircuitBreaker) (r : Recent)
    → Reflects key b r
    → Reflects key (told_all os b) (recent key r os)
unfolding told_all recent
told_all-Reflects key [] b r h = h
told_all-Reflects key (o ∷ os) b r h =
    told_all-Reflects key os (told o b) (after key r o) (told-Reflects key b r o h)

-- After any calls of any services, a service's circuit is open exactly while its failures since its
-- last success have reached the threshold and the cooldown since the last of them is not over; the
-- calls of other services do not count.
pub is_open_lem :
    (threshold cooldown now : ℕ) (key : String) (os : List Outcome)
    → is_open now key (told_all os (new_breaker threshold cooldown))
      ≡ must_open threshold cooldown now (recent key none_yet os)
unfolding is_open
is_open_lem threshold cooldown now key os =
    let b = new_breaker threshold cooldown in
    let s = told_all os b in
    let h = told_all-Reflects key os b none_yet (refl, refl) in
    ground (arith, same_settings os b, h)

-- ===== src/Assistant/RateLimit.antt =====
-- services/assistant-service/app/middleware/rate_limit.py: the sliding-window limit on the chat, as
-- one worker keeps it. Times are readings of the monotonic clock, a float in the
-- source: here they count ticks, of which a second has a given number.
use Prim.Native.Nat.{◌/◌}
use market_place_app.Prelude.{
  ℕ, String, ◌+◌, ◌-◌, ◌*◌, ◌+++◌, Bool, Option, none, some, List, [], ◌∷◌, ◌++◌, ◌&&◌, leb, length,
  str_eq, if◌then◌else◌,
}

pub record Request : Type 0 where
  pub method : String
  pub path : String
  -- `Authorization`
  pub authorization : Option String
  -- `X-Forwarded-For`
  pub forwarded_for : Option String
  -- `request.client.host`
  pub client_host : Option String

-- The times of the calls let through, by the caller's key, the oldest first.
abbrev pub Hits : Type 0
Hits = String → List ℕ

pub record ChatRateLimit : Type 0 where
  pub limit : ℕ
  pub window_seconds : ℕ
  pub ticks_per_second : ℕ
  pub chat_path : String

abbrev pub window : ChatRateLimit → ℕ
window l = l.window_seconds * l.ticks_per_second

pub data Answer : Type 0 where
  -- `call_next(request)`
  passed : Answer
  -- 429 with `Retry-After`
  refused : ℕ → Answer
  -- `hits[0]` of an empty deque
  index_error : Answer

-- An absent header and an empty one are both false.
abbrev given_text : Option String → Option String
given_text none = none
given_text (some s) = if str_eq s "" then none else some s

abbrev host_key : Option String → String
host_key none = "ip:unknown"
host_key (some host) = "ip:" +++ host

unfoldable pub client_key : Request → String
client_key r = elim (given_text r.authorization) [
  | some auth ↦ "token:" +++ auth
  | none ↦ elim (given_text r.forwarded_for) [
    | some forwarded ↦ "ip:" +++ forwarded
    | none ↦ host_key r.client_host
  ]
]

abbrev pub is_chat : ChatRateLimit → Request → Bool
is_chat l r = str_eq r.method "POST" && str_eq r.path l.chat_path

-- `while hits and hits[0] <= now - window: hits.popleft()`
unfoldable pub drop_expired : ℕ → ℕ → List ℕ → List ℕ
drop_expired w now [] = []
drop_expired w now (t ∷ ts) =
    let rest = drop_expired w now ts in if leb (t + w) now then rest else t ∷ ts

abbrev pub set_hits : String → List ℕ → Hits → Hits
set_hits key ts hits = λ other. if str_eq key other then ts else hits other

abbrev at_least_one : ℕ → ℕ
at_least_one n = if leb 1 n then n else 1

-- `max(1, int(window - (now - hits[0])))`: the conversion drops the part of a second.
abbrev pub refusal : ChatRateLimit → ℕ → List ℕ → Answer
refusal l now [] = index_error
refusal l now (t ∷ ts) = refused (at_least_one ((t + window l - now) / l.ticks_per_second))

-- What one call does to the deque of its key.
abbrev pub admit : ChatRateLimit → ℕ → List ℕ → Answer × List ℕ
admit l now ts =
    if leb l.limit (length ts) then (refusal l now ts, ts) else (passed, ts ++ now ∷ [])

unfoldable pub dispatch : ChatRateLimit → ℕ → Request → Hits → Answer × Hits
dispatch l now r hits =
    if is_chat l r
    then (let key = client_key r in
        let done = admit l now (drop_expired (window l) now (hits key)) in
        (done.0, set_hits key done.1 hits))
    else (passed, hits)

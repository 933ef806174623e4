-- ===== src/Middleware/RateLimiter.antt =====
-- The sliding-window limiter of internal/middleware/middleware.go. An instant is a number of
-- nanoseconds since Go's zero time, so `now - window` does not reach 0. A method returns its result
-- with the new limiter; the mutex makes each call one step.
pub mod Window
pub mod Capacity
pub mod Trace
use sub_share_go.Common.{
  ℕ, ◌-◌, List, [], ◌∷◌, ◌++◌, Option, none, some, Bool, true, false, not, ◌&&◌, ◌||◌, ltb, leb,
  if◌then◌else◌, length, last?, text, nat_eq,
}
use sub_share_go.Strings.{Text, is_empty}
use sub_share_go.Table.{Table, lookup, put, delete}

pub record RateLimiter : Type 0 where
  pub attempts : Table Text (List ℕ)
  pub limit : ℕ
  pub window : ℕ
  pub max_peers : ℕ

unfoldable pub new_rate_limiter : ℕ → ℕ → RateLimiter
new_rate_limiter limit window = record {
  attempts = [];
  limit = limit;
  window = window;
  max_peers = 10000;
}

abbrev pub or_none : Option (List ℕ) → List ℕ
or_none none = []
or_none (some ts) = ts

-- `rl.attempts[ip]`: a missing key reads as the empty slice
unfoldable pub attempts_of : Text → RateLimiter → List ℕ
attempts_of ip rl = or_none (lookup ip rl.attempts)

-- the attempts after the cutoff
unfoldable pub recent : ℕ → List ℕ → List ℕ
recent cutoff [] = []
recent cutoff (t ∷ ts) = let rest = recent cutoff ts in if ltb cutoff t then t ∷ rest else rest

-- The loop of `evictLocked`: what it keeps, and the least recently active peer that it kept, with
-- "" for none.
pub record Sweep : Type 0 where
  pub kept : Table Text (List ℕ)
  pub oldest_ip : Text
  pub oldest : ℕ

unfoldable pub sweep : ℕ → Table Text (List ℕ) → Text → ℕ → Sweep
sweep cutoff [] ip oldest = record { kept = []; oldest_ip = ip; oldest = oldest }
sweep cutoff ((peer, ts) ∷ m) ip oldest = elim (last? ts) [
  | none ↦ sweep cutoff m ip oldest
  | some newest ↦ elim (ltb cutoff newest) [
    | false ↦ sweep cutoff m ip oldest
    | true ↦
        let older = is_empty ip || ltb newest oldest in
        let rest = sweep cutoff m (if older then peer else ip) (if older then newest else oldest) in
        record rest { kept = (peer, ts) ∷ rest.kept }
  ]
]

unfoldable pub evict : ℕ → RateLimiter → RateLimiter
evict cutoff rl =
    let s = sweep cutoff rl.attempts [] 0 in
    let full =
      ltb 0 rl.max_peers && leb rl.max_peers (length s.kept) && not (is_empty s.oldest_ip) in
    record rl { attempts = if full then delete s.oldest_ip s.kept else s.kept }

unfoldable pub make_room : ℕ → List ℕ → RateLimiter → RateLimiter
make_room cutoff attempts rl =
    if ltb 0 rl.max_peers && nat_eq (length attempts) 0 && leb rl.max_peers (length rl.attempts)
    then evict cutoff rl
    else rl

unfoldable pub allow : ℕ → Text → RateLimiter → Bool × RateLimiter
allow now ip rl =
    let cutoff = now - rl.window in
    let attempts = attempts_of ip rl in
    let valid = recent cutoff attempts in
    let roomy = make_room cutoff attempts rl in
    if leb rl.limit (length valid)
    then (false, record roomy { attempts = put ip valid roomy.attempts })
    else (true, record roomy { attempts = put ip (valid ++ now ∷ []) roomy.attempts })

unfoldable pub sweep_all : ℕ → Table Text (List ℕ) → Table Text (List ℕ)
sweep_all cutoff [] = []
sweep_all cutoff ((peer, ts) ∷ m) =
    let rest = sweep_all cutoff m in
    let valid = recent cutoff ts in if nat_eq (length valid) 0 then rest else (peer, valid) ∷ rest

-- one tick of `cleanup`
unfoldable pub cleanup : ℕ → RateLimiter → RateLimiter
cleanup now rl = record rl { attempts = sweep_all (now - rl.window) rl.attempts }

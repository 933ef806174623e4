-- ===== src/Middleware/RateLimiter/Window.antt =====
-- Who is let through: what a call answers and records, and how many calls a peer gets in a window.
use sub_share_go.Common.{
  ℕ, suc, ◌+◌, ltb, ◌-◌, ◌≤◌, ◌<◌, ◌≡◌, ◌≢◌, refl, List, [], ◌∷◌, ◌++◌, Bool, true, arith, leb,
  length, ◌↔◌, text, inl, inr, Bool-cases, if◌then◌else◌, append-nil, eq_self, ne_test,
}
use sub_share_go.Strings.{Text}
use sub_share_go.Table.{lookup, lookup-put, length-put_new, put}
use sub_share_go.Middleware.RateLimiter.{
  RateLimiter, or_none, attempts_of, recent, make_room, allow,
}

-- With a later cutoff an earlier filter changes nothing.
pub recent-recent :
    (early late : ℕ) (ts : List ℕ) → early ≤ late → recent late (recent early ts) ≡ recent late ts
unfolding recent
recent-recent early late [] h = refl
recent-recent early late (t ∷ ts) h = ground (arith, recent-recent early late ts h)

pub recent-append :
    (cutoff : ℕ) (xs ys : List ℕ) → recent cutoff (xs ++ ys) ≡ recent cutoff xs ++ recent cutoff ys
unfolding recent
recent-append cutoff [] ys = refl
recent-append cutoff (x ∷ xs) ys = ground (arith, recent-append cutoff xs ys)

pub length-recent : (cutoff : ℕ) (ts : List ℕ) → length (recent cutoff ts) ≤ length ts
unfolding recent
length-recent cutoff [] = omega arith
length-recent cutoff (t ∷ ts) = ground (arith, length-recent cutoff ts)

pub length-recent_mono :
    (early late : ℕ) (ts : List ℕ)
    → early ≤ late
    → length (recent late ts) ≤ length (recent early ts)
length-recent_mono early late ts h =
    rw (← recent-recent early late ts h) (length-recent late (recent early ts))

-- the answer is given by the attempts that the call keeps
pub allow-recent :
    (now : ℕ) (ip : Text) (rl : RateLimiter)
    → ((allow now ip rl).0 ≡ true)
      ↔ (length (recent (now - rl.window) (attempts_of ip rl)) < rl.limit)
unfolding allow
allow-recent now ip rl = ground arith

-- how many of the instants lie less than `window` before `now`
abbrev pub within : ℕ → ℕ → List ℕ → ℕ
within now window [] = 0
within now window (t ∷ ts) =
    if ltb now (t + window) then suc (within now window ts) else within now window ts

within-recent :
    (now window : ℕ) (ts : List ℕ)
    → window ≤ now
    → length (recent (now - window) ts) ≡ within now window ts
unfolding recent
within-recent now window [] h = refl
within-recent now window (t ∷ ts) h = ground (arith, within-recent now window ts h)

-- With a window that does not reach back behind Go's zero time, a peer is let through exactly when
-- fewer than `limit` of its recorded attempts are younger than the window; one that is just as old as
-- the window does not count.
pub allow_iff :
    (now : ℕ) (ip : Text) (rl : RateLimiter)
    → rl.window ≤ now
    → ((allow now ip rl).0 ≡ true)
      ↔ (within now rl.window (or_none (lookup ip rl.attempts)) < rl.limit)
unfolding attempts_of
allow_iff now ip rl h =
    let counted = within-recent now rl.window (or_none (lookup ip rl.attempts)) h in
    rw counted at (allow-recent now ip rl)

-- the instants that a call records
abbrev pub granted_at : Bool → ℕ → List ℕ
granted_at b now = if b then now ∷ [] else []

attempts_of-put :
    (ip : Text) (ts : List ℕ) (rl : RateLimiter)
    → attempts_of ip (record rl { attempts = put ip ts rl.attempts }) ≡ ts
unfolding attempts_of
attempts_of-put ip ts rl = rw (lookup-put, eq_self ip)

-- the limiter after room has been made, and the attempts that a call leaves for its peer
abbrev pub roomy : ℕ → Text → RateLimiter → RateLimiter
roomy now ip rl = make_room (now - rl.window) (attempts_of ip rl) rl

abbrev pub left_over : ℕ → Text → RateLimiter → List ℕ
left_over now ip rl =
    recent (now - rl.window) (attempts_of ip rl) ++ granted_at (allow now ip rl).0 now

-- Granted or not, a call writes one entry.
pub allow_write :
    (now : ℕ) (ip : Text) (rl : RateLimiter)
    → (allow now ip rl).1 ≡ record (roomy now ip rl) {
      attempts = put ip (left_over now ip rl) (roomy now ip rl).attempts;
    }
unfolding allow
allow_write now ip rl =
    let valid = recent (now - rl.window) (attempts_of ip rl) in
    elim (Bool-cases (leb rl.limit (length valid))) [
      | inl full ↦ rw (full, append-nil)
      | inr room ↦ rw room
    ]

-- What a call leaves for its peer: the attempts in the window and, if it was let through, this one.
pub attempts_of-allow :
    (now : ℕ) (ip : Text) (rl : RateLimiter)
    → attempts_of ip (allow now ip rl).1 ≡ left_over now ip rl
attempts_of-allow now ip rl = rw allow_write (attempts_of-put ip _ (roomy now ip rl))

make_room_early :
    (cutoff : ℕ) (ts : List ℕ) (rl : RateLimiter)
    → length rl.attempts < rl.max_peers
    → make_room cutoff ts rl ≡ rl
unfolding make_room
make_room_early cutoff ts rl h = ground arith

module _ (now : ℕ) (ip : Text) (rl : RateLimiter) (h : length rl.attempts < rl.max_peers) where
  allow_room :
      (allow now ip rl).1 ≡ record rl { attempts = put ip (left_over now ip rl) rl.attempts }
  allow_room = rw (allow_write, make_room_early _ _ rl h)

  -- While the table is not full a call touches no other peer, and adds one entry at most.
  pub allow-others :
      (other : Text) → ip ≢ other → attempts_of other (allow now ip rl).1 ≡ attempts_of other rl
  unfolding attempts_of
  allow-others other ne = rw (allow_room, lookup-put, ne_test ip other ne)

  pub length-allow : length (allow now ip rl).1.attempts ≤ suc (length rl.attempts)
  length-allow = rw allow_room (length-put_new ip _ rl.attempts)

  pub allow-window : (allow now ip rl).1.window ≡ rl.window
  allow-window = rw allow_room

  pub allow-limit : (allow now ip rl).1.limit ≡ rl.limit
  allow-limit = rw allow_room

  pub allow-max_peers : (allow now ip rl).1.max_peers ≡ rl.max_peers
  allow-max_peers = rw allow_room

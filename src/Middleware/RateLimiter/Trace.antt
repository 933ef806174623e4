-- ===== src/Middleware/RateLimiter/Trace.antt =====
-- A run of requests through the limiter: `Wrap` calls `Allow` once for each.
use sub_share_go.Common.{
  ℕ, suc, ◌-◌, ◌+◌, ◌≤◌, ◌<◌, ◌≡◌, refl, List, [], ◌∷◌, ◌++◌, true, false, arith, length,
  length-append, ◌==◌, if◌then◌else◌, append_assoc, append-nil, text, eq_of_test, ne_of_test, inl,
  inr, Bool-cases, Bool, ap, ◌≢◌,
}
use sub_share_go.Strings.{Text}
use sub_share_go.Table.{lookup}
use sub_share_go.Middleware.RateLimiter.{RateLimiter, attempts_of, recent, allow, new_rate_limiter}
use sub_share_go.Middleware.RateLimiter.Window.{
  granted_at, left_over, attempts_of-allow, allow-recent, length-recent, recent-recent,
  recent-append, length-recent_mono, allow-window, allow-limit, allow-max_peers, allow-others,
  length-allow,
}

-- the instants at which a run lets the peer through
pub grants : Text → RateLimiter → List (ℕ × Text) → List ℕ
grants ip rl [] = []
grants ip rl ((now, peer) ∷ requests) =
    (if peer == ip then granted_at (allow now peer rl).0 now else [])
    ++ grants ip (allow now peer rl).1 requests

-- Requests in the order of their instants, none before `from` or after `last`.
abbrev pub InOrder : ℕ → ℕ → List (ℕ × Text) → Type 0
InOrder from last [] = from ≤ last
InOrder from last ((now, peer) ∷ requests) = (from ≤ now) × InOrder now last requests

-- What holds between two requests: `past` are the grants so far, `at` the last instant.
record Tracks (ip : Text) (at : ℕ) (past : List ℕ) (rl : RateLimiter) : Type 0 where
  same :
      (cutoff : ℕ)
      → at - rl.window ≤ cutoff
      → recent cutoff (attempts_of ip rl) ≡ recent cutoff past
  bounded : length (recent (at - rl.window) past) ≤ rl.limit

length-granted_at : (b : Bool) (now : ℕ) → length (granted_at b now) ≤ 1
length-granted_at true now = omega arith
length-granted_at false now = omega arith

module _ (ip : Text) (at now : ℕ) (past : List ℕ) (rl : RateLimiter) (t : Tracks ip at past rl)
    (later : at ≤ now) where
  -- a request of the peer itself
  left_over-same :
      (cutoff : ℕ)
      → now - rl.window ≤ cutoff
      → recent cutoff (left_over now ip rl)
        ≡ recent cutoff (past ++ granted_at (allow now ip rl).0 now)
  left_over-same cutoff h = rw (
    recent-append,
    recent-append cutoff past _,
    recent-recent _ cutoff (attempts_of ip rl) h,
    t.same cutoff (omega arith),
  )

  grant_bounded :
      length (recent (now - rl.window) (past ++ granted_at (allow now ip rl).0 now)) ≤ rl.limit
  grant_bounded = elim (Bool-cases (allow now ip rl).0) [
    | inl go ↦
        let cutoff = now - rl.window in
        rw (go, recent-append)
          (omega (
            arith,
            length-append (recent cutoff past) (recent cutoff (now ∷ [])),
            length-recent cutoff (now ∷ []),
            ap length (t.same cutoff (omega arith)),
            (allow-recent now ip rl).0 go,
          ))
    | inr stay ↦
        rw (stay, append-nil)
          (omega (arith, length-recent_mono (at - rl.window) (now - rl.window) past, t.bounded))
  ]

module _ (ip : Text) (at now : ℕ) (past : List ℕ) (rl : RateLimiter) (t : Tracks ip at past rl)
    (later : at ≤ now) (room : length rl.attempts < rl.max_peers) where
  own-Tracks : Tracks ip now (past ++ granted_at (allow now ip rl).0 now) (allow now ip rl).1
  own-Tracks = record {
    same = λ cutoff h. rw attempts_of-allow (
        left_over-same ip at now past rl t later cutoff
          (omega (arith, allow-window now ip rl room)));
    bounded =
        rw (allow-window now ip rl room, allow-limit now ip rl room)
          (grant_bounded ip at now past rl t later);
  }

  other-Tracks : (peer : Text) → peer ≢ ip → Tracks ip now past (allow now peer rl).1
  other-Tracks peer ne = record {
    same = λ cutoff h.
        rw (allow-others now peer rl room ip ne)
          (t.same cutoff (omega (arith, allow-window now peer rl room)));
    bounded =
        rw (allow-window now peer rl room, allow-limit now peer rl room)
          (omega (arith, length-recent_mono (at - rl.window) (now - rl.window) past, t.bounded));
  }

module _ (now : ℕ) (peer : Text) (rl : RateLimiter) (room : length rl.attempts < rl.max_peers) where
  before_call :
      (last : ℕ) (ts : List ℕ)
      → length (recent (last - (allow now peer rl).1.window) ts) ≤ (allow now peer rl).1.limit
      → length (recent (last - rl.window) ts) ≤ rl.limit
  before_call last ts h = rw (allow-window now peer rl room, allow-limit now peer rl room) at h

  room_left :
      (n : ℕ)
      → length rl.attempts + suc n ≤ rl.max_peers
      → length (allow now peer rl).1.attempts + n ≤ (allow now peer rl).1.max_peers
  room_left n h = omega (arith, length-allow now peer rl room, allow-max_peers now peer rl room)

grants_bounded :
    (ip : Text) (at last : ℕ) (past : List ℕ) (rl : RateLimiter) (requests : List (ℕ × Text))
    → Tracks ip at past rl
    → InOrder at last requests
    → length rl.attempts + length requests ≤ rl.max_peers
    → length (recent (last - rl.window) (past ++ grants ip rl requests)) ≤ rl.limit
unfolding grants
grants_bounded ip at last past rl [] t order room =
    rw append-nil
      (omega (arith, length-recent_mono (at - rl.window) (last - rl.window) past, t.bounded))
grants_bounded ip at last past rl ((now, peer) ∷ requests) t order room =
    elim (Bool-cases (peer == ip)) [
      | inl same ↦
          let past' = past ++ granted_at (allow now ip rl).0 now in
          rw (same, eq_of_test peer ip same, ← append_assoc past)
            (before_call now ip rl (omega arith) last
              (past' ++ grants ip (allow now ip rl).1 requests)
              (grants_bounded ip now last past' (allow now ip rl).1 requests
                (own-Tracks ip at now past rl t order.0 (omega arith)) order.1
                (room_left now ip rl (omega arith) (length requests) room)))
      | inr other ↦ rw other (
          before_call now peer rl (omega arith) last
            (past ++ grants ip (allow now peer rl).1 requests)
            (grants_bounded ip now last past (allow now peer rl).1 requests
              (other-Tracks ip at now past rl t order.0 (omega arith) peer
                (ne_of_test peer ip other))
              order.1 (room_left now peer rl (omega arith) (length requests) room)))
    ]

fresh-Tracks : (ip : Text) (limit window : ℕ) → Tracks ip 0 [] (new_rate_limiter limit window)
unfolding new_rate_limiter attempts_of lookup recent
fresh-Tracks ip limit window = record { same = λ cutoff h. refl; bounded = omega arith }

-- From a new limiter, after any requests in the order of their instants, no more than 10000 so that
-- no peer is evicted, a peer has been let through at most `limit` times in the last `window`.
pub window_limit :
    (ip : Text) (limit window last : ℕ) (requests : List (ℕ × Text))
    → InOrder 0 last requests
    → length requests ≤ 10000
    → length (recent (last - window) (grants ip (new_rate_limiter limit window) requests)) ≤ limit
unfolding new_rate_limiter
window_limit ip limit window last requests order few =
    grants_bounded ip 0 last [] (new_rate_limiter limit window) requests
      (fresh-Tracks ip limit window) order (omega arith)

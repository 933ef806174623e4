-- ===== src/Middleware/RateLimiter/Capacity.antt =====
-- The table of peers: `evictLocked` frees a slot for a newcomer, and the table never outgrows
-- `maxPeers`.
use sub_share_go.Common.{
  ℕ, lt→ltb, ◌-◌, ◌≤◌, ◌<◌, ◌≡◌, ◌≢◌, refl, List, [], ◌∷◌, none, true, false, not, arith, ltb, leb,
  length, All, text, inl, inr, Bool-cases, ◌||◌, Option-cases, ◌⊎◌, Bool, nat_eq, ap, ◌&&◌,
  if◌then◌else◌, last?, text_eq_iff,
}
use sub_share_go.Strings.{Text, is_empty}
use sub_share_go.Strings.Trim.{is_empty_test, ne-nil_of_test}
use sub_share_go.Table.{
  Table, lookup, length-put_new, length-put_old, length-delete_old, All-put, All-delete,
}
use sub_share_go.Middleware.RateLimiter.{
  RateLimiter, Sweep, attempts_of, sweep, evict, make_room, allow,
}
use sub_share_go.Middleware.RateLimiter.Window.{roomy, left_over, allow_write}

-- a table entry of a peer with an address
abbrev pub IsNamed : Text × List ℕ → Type 0
IsNamed entry = entry.0 ≢ []

abbrev Has : Text → Table Text (List ℕ) → Type 0
Has ip m = lookup ip m ≢ none

Has-cons :
    (peer : Text) (ts : List ℕ) (ip : Text) (m : Table Text (List ℕ))
    → (ip ≡ peer) ⊎ Has ip m
    → Has ip ((peer, ts) ∷ m)
unfolding lookup
Has-cons peer ts ip m (inl e) = ground (arith, text_eq_iff peer ip)
Has-cons peer ts ip m (inr old) = ground (arith, old)

Has-skip :
    (peer : Text) (ts : List ℕ) {P : Type 0} (ip : Text) (m : Table Text (List ℕ))
    → P ⊎ Has ip m
    → P ⊎ Has ip ((peer, ts) ∷ m)
Has-skip peer ts ip m (inl p) = inl p
Has-skip peer ts ip m (inr old) = inr (Has-cons peer ts ip m (inr old))

-- the sweep of a longer table, when it keeps the entry and when it does not
data Visits (cutoff : ℕ) (peer : Text) (ts : List ℕ) (m : Table Text (List ℕ)) (ip : Text)
    : Sweep → Type 0 where
  dropped : (s : Sweep) (oldest : ℕ) → s ≡ sweep cutoff m ip oldest → Visits cutoff peer ts m ip s
  kept_new :
      (s : Sweep) (oldest : ℕ)
      → s ≡ record (sweep cutoff m peer oldest) {
        kept = (peer, ts) ∷ (sweep cutoff m peer oldest).kept;
      }
      → Visits cutoff peer ts m ip s
  kept_old :
      (s : Sweep) (oldest : ℕ)
      → ip ≢ []
      → s
        ≡ record (sweep cutoff m ip oldest) { kept = (peer, ts) ∷ (sweep cutoff m ip oldest).kept }
      → Visits cutoff peer ts m ip s

visit :
    (cutoff : ℕ) (peer : Text) (ts : List ℕ) (m : Table Text (List ℕ)) (ip : Text) (oldest : ℕ)
    → Visits cutoff peer ts m ip (sweep cutoff ((peer, ts) ∷ m) ip oldest)
unfolding sweep
visit cutoff peer ts m ip oldest =
    let whole = sweep cutoff ((peer, ts) ∷ m) ip oldest in
    elim (Option-cases (last? ts)) [
      | inl e ↦ dropped whole oldest (rw (e, sweep))
      | inr (newest, e) ↦ elim (Bool-cases (ltb cutoff newest)) [
        | inr old ↦ dropped whole oldest (rw (e, old, sweep))
        | inl live ↦ elim (Bool-cases (is_empty ip || ltb newest oldest)) [
          | inl older ↦ kept_new whole newest (rw (e, live, older, sweep))
          | inr newer ↦
              kept_old whole oldest (ne-nil_of_test ip (ground arith)) (rw (e, live, newer, sweep))
        ]
      ]
    ]

module _ (cutoff : ℕ) where
  length-sweep :
      (m : Table Text (List ℕ)) (ip : Text) (oldest : ℕ)
      → length (sweep cutoff m ip oldest).kept ≤ length m
  length-sweep [] ip oldest = unfold sweep in omega arith
  length-sweep ((peer, ts) ∷ m) ip oldest = elim (visit cutoff peer ts m ip oldest) [
    | dropped s o e ↦ rw e (omega (arith, length-sweep m ip o))
    | kept_new s o e ↦ rw e (omega (arith, length-sweep m peer o))
    | kept_old s o ne e ↦ rw e (omega (arith, length-sweep m ip o))
  ]

  sweep-IsNamed :
      (m : Table Text (List ℕ)) (ip : Text) (oldest : ℕ)
      → All IsNamed m
      → All IsNamed (sweep cutoff m ip oldest).kept
  sweep-IsNamed [] ip oldest h = unfold sweep in tt
  sweep-IsNamed ((peer, ts) ∷ m) ip oldest h = elim (visit cutoff peer ts m ip oldest) [
    | dropped s o e ↦ rw e (sweep-IsNamed m ip o h.1)
    | kept_new s o e ↦ rw e (h.0, sweep-IsNamed m peer o h.1)
    | kept_old s o ne e ↦ rw e (h.0, sweep-IsNamed m ip o h.1)
  ]

  oldest_ip-named :
      (m : Table Text (List ℕ)) (ip : Text) (oldest : ℕ)
      → ip ≢ []
      → All IsNamed m
      → (sweep cutoff m ip oldest).oldest_ip ≢ []
  oldest_ip-named [] ip oldest ne h = unfold sweep in ne
  oldest_ip-named ((peer, ts) ∷ m) ip oldest ne h = elim (visit cutoff peer ts m ip oldest) [
    | dropped s o e ↦ rw e (oldest_ip-named m ip o ne h.1)
    | kept_new s o e ↦ rw e (oldest_ip-named m peer o h.0 h.1)
    | kept_old s o _ e ↦ rw e (oldest_ip-named m ip o ne h.1)
  ]

  -- the peer that a sweep names is one that it kept, unless it was named before
  oldest_ip-kept :
      (m : Table Text (List ℕ)) (ip : Text) (oldest : ℕ)
      → ((sweep cutoff m ip oldest).oldest_ip ≡ ip)
        ⊎ Has (sweep cutoff m ip oldest).oldest_ip (sweep cutoff m ip oldest).kept
  oldest_ip-kept [] ip oldest = unfold sweep in inl refl
  oldest_ip-kept ((peer, ts) ∷ m) ip oldest = elim (visit cutoff peer ts m ip oldest) [
    | dropped s o e ↦ rw e (oldest_ip-kept m ip o)
    | kept_new s o e ↦ rw e (inr (Has-cons peer ts _ _ (oldest_ip-kept m peer o)))
    | kept_old s o _ e ↦ rw e (Has-skip peer ts _ _ (oldest_ip-kept m ip o))
  ]

  -- A sweep that keeps some peer names one that it kept.
  oldest_ip-found :
      (m : Table Text (List ℕ)) (oldest : ℕ)
      → All IsNamed m
      → ((sweep cutoff m [] oldest).kept ≡ [])
        ⊎ (((sweep cutoff m [] oldest).oldest_ip ≢ [])
            × Has (sweep cutoff m [] oldest).oldest_ip (sweep cutoff m [] oldest).kept)
  oldest_ip-found [] oldest h = unfold sweep in inl refl
  oldest_ip-found ((peer, ts) ∷ m) oldest h = elim (visit cutoff peer ts m [] oldest) [
    | dropped s o e ↦ rw e (oldest_ip-found m o h.1)
    | kept_new s o e ↦
        rw e
          (inr (oldest_ip-named m peer o h.0 h.1, Has-cons peer ts _ _ (oldest_ip-kept m peer o)))
    | kept_old s o ne e ↦ absurd (ne refl)
  ]

-- The invariant of the limiter's table.
pub record IsBounded (rl : RateLimiter) : Type 0 where
  pub room : 0 < rl.max_peers
  pub fits : length rl.attempts ≤ rl.max_peers
  pub named : All IsNamed rl.attempts

module _ (cutoff : ℕ) (rl : RateLimiter) (b : IsBounded rl) where
  evict-frees : length (evict cutoff rl).attempts < rl.max_peers
  unfolding evict
  evict-frees =
      let s = sweep cutoff rl.attempts [] 0 in
      elim (oldest_ip-found cutoff rl.attempts 0 b.named) [
        | inl none_kept ↦ rw none_kept (ground (arith, b.room))
        | inr (named, has) ↦ elim (Bool-cases (leb rl.max_peers (length s.kept))) [
          | inl full ↦
              rw (full, lt→ltb 0 rl.max_peers b.room, is_empty_test s.oldest_ip named)
                (omega (
                  arith,
                  length-delete_old s.oldest_ip s.kept has,
                  length-sweep cutoff rl.attempts [] 0,
                  b.fits,
                ))
          | inr slack ↦ rw (slack, lt→ltb 0 rl.max_peers b.room) (ground arith)
        ]
      ]

  evict-IsNamed : All IsNamed (evict cutoff rl).attempts
  unfolding evict
  evict-IsNamed =
      let s = sweep cutoff rl.attempts [] 0 in
      let kept = sweep-IsNamed cutoff rl.attempts [] 0 b.named in
      elim (Bool-cases
        (ltb 0 rl.max_peers && leb rl.max_peers (length s.kept) && not (is_empty s.oldest_ip))) [
          | inl full ↦ rw full (All-delete IsNamed s.oldest_ip s.kept kept)
          | inr slack ↦ rw slack kept
        ]

evict-settings : (cutoff : ℕ) (rl : RateLimiter) → (evict cutoff rl).max_peers ≡ rl.max_peers
unfolding evict
evict-settings cutoff rl = refl

-- whether a call finds the table full and its peer unseen
abbrev crowded : Text → RateLimiter → Bool
crowded ip rl =
    ltb 0 rl.max_peers
    && nat_eq (length (attempts_of ip rl)) 0
    && leb rl.max_peers (length rl.attempts)

make_room_lem :
    (now : ℕ) (ip : Text) (rl : RateLimiter)
    → roomy now ip rl ≡ (if crowded ip rl then evict (now - rl.window) rl else rl)
unfolding make_room
make_room_lem now ip rl = refl

missing_empty :
    (ip : Text) (rl : RateLimiter) → lookup ip rl.attempts ≡ none → attempts_of ip rl ≡ []
unfolding attempts_of
missing_empty ip rl h = rw h

module _ (now : ℕ) (ip : Text) (rl : RateLimiter) (b : IsBounded rl) where
  packed_seen :
      leb rl.max_peers (length rl.attempts) ≡ true → crowded ip rl ≡ false → attempts_of ip rl ≢ []
  packed_seen packed slack e = ground (arith, b.room, ap length e)

  max_peers-roomy : (roomy now ip rl).max_peers ≡ rl.max_peers
  max_peers-roomy = rw make_room_lem (ground (arith, evict-settings (now - rl.window) rl))

  IsNamed-roomy : All IsNamed (roomy now ip rl).attempts
  IsNamed-roomy = elim (Bool-cases (crowded ip rl)) [
    | inl full ↦ rw (make_room_lem, full) (evict-IsNamed (now - rl.window) rl b)
    | inr slack ↦ rw (make_room_lem, slack) b.named
  ]

  -- there is a slot for a peer, or it has one
  slot :
      (length (roomy now ip rl).attempts < rl.max_peers)
      ⊎ ((roomy now ip rl ≡ rl) × Has ip rl.attempts)
  slot = elim (Bool-cases (crowded ip rl)) [
    | inl full ↦ inl (rw (make_room_lem, full) (evict-frees (now - rl.window) rl b))
    | inr slack ↦ elim (Bool-cases (leb rl.max_peers (length rl.attempts))) [
      | inr free ↦ inl (rw (make_room_lem, slack) (ground arith))
      | inl packed ↦ inr (
        rw (make_room_lem, slack) refl,
        λ missing. packed_seen packed slack (missing_empty ip rl missing),
      )
    ]
  ]

-- Every call by a peer with an address keeps the table within `maxPeers`, whatever the order in
-- which Go visits the map.
pub allow-IsBounded :
    (now : ℕ) (ip : Text) (rl : RateLimiter)
    → ip ≢ []
    → IsBounded rl
    → IsBounded (allow now ip rl).1
allow-IsBounded now ip rl ne b = record {
  room = rw (allow_write, max_peers-roomy now ip rl b) b.room;
  fits =
      rw (allow_write, max_peers-roomy now ip rl b)
        (elim (slot now ip rl b) [
          | inl free ↦
              omega (arith, length-put_new ip (left_over now ip rl) (roomy now ip rl).attempts)
          | inr (same, has) ↦
              rw (same, length-put_old ip (left_over now ip rl) rl.attempts has) b.fits
        ]);
  named = rw allow_write (
      All-put IsNamed ip (left_over now ip rl) (roomy now ip rl).attempts ne
        (IsNamed-roomy now ip rl b));
}

-- ===== src/Sources/Reconcile/Placed.antt =====
-- Where the upserts place the keys of a feed: the position of a synchronisation is counted up by one
-- for each key that is written or inserted, from the first on.
use sub_share_go.Common.{◌≡◌, int_succ, ◌⊎◌, text}
use sub_share_go.Sources.State.{SyncState}

-- one upsert moves the position on by one at most
abbrev pub MovesOn : SyncState → SyncState → Type 0
MovesOn s t = (t.sort_order ≡ s.sort_order) ⊎ (t.sort_order ≡ int_succ s.sort_order)

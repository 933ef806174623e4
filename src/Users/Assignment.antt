-- ===== src/Users/Assignment.antt =====
-- The keys that are assigned to a user: the positive ids of the request, each once.
use sub_share_go.Common.{
  times, times-snoc, times-contains, contains-snoc, ◌≤◌, List, [], ◌∷◌, ◌++◌, true, false, ◌||◌, ℤ,
  above, int, ◌≡◌, ◌⊎◌, contains, arith, refl, Bool-cases, inl, inr, int_eq_iff,
}
use sub_share_go.Common.Result.{ok}
use sub_share_go.Users.{normalize_ids_from, normalize_assignment_ids}

-- What the loop keeps of the ids it has seen and of those to come.
loop-times :
    (seen ids out : List ℤ) (a : ℤ)
    → normalize_ids_from seen ids ≡ ok out
    → times a seen ≤ 1
    → (times a out ≤ 1)
      × (contains out a ≡ (contains seen a || contains ids a))
      × (contains ids a ≡ true → above a 0 ≡ true)
unfolding normalize_ids_from
loop-times seen [] out a h few = (ground arith, ground arith, ground arith)
loop-times seen (id ∷ ids) out a h few =
    let skip = loop-times seen ids out a in
    let add = loop-times (seen ++ id ∷ []) ids out a in
    let same = int_eq_iff id a in
    let snoc = contains-snoc seen id a in
    let more = times-snoc seen id a in
    let held = times-contains seen a in
    let held_id = times-contains seen id in (ground arith, ground arith, ground arith)

later_positive :
    (id : ℤ) (ids : List ℤ)
    → ((a : ℤ) → contains (id ∷ ids) a ≡ true → above a 0 ≡ true)
    → (a : ℤ) → contains ids a ≡ true
    → above a 0 ≡ true
later_positive id ids positive a has = positive a (ground (arith, has))

loop_total :
    (seen ids : List ℤ)
    → ((a : ℤ) → contains ids a ≡ true → above a 0 ≡ true)
    → (out : List ℤ) × (normalize_ids_from seen ids ≡ ok out)
unfolding normalize_ids_from
loop_total seen [] positive = (seen, refl)
loop_total seen (id ∷ ids) positive =
    let id_positive = positive id (ground (arith, int_eq_iff id id)) in
    elim (Bool-cases (contains seen id)) [
      | inl known ↦
          let (out, e) = loop_total seen ids (later_positive id ids positive) in (out, ground arith)
      | inr fresh ↦
          let (out, e) = loop_total (seen ++ id ∷ []) ids (later_positive id ids positive) in
          (out, ground arith)
    ]

-- When the ids of an assignment are accepted, those kept are those of the request, each of them once,
-- and all are positive.
pub normalize_assignment_ids-distinct :
    (ids out : List ℤ) (a : ℤ)
    → normalize_assignment_ids ids ≡ ok out
    → (times a out ≤ 1)
      × (contains out a ≡ contains ids a)
      × ((contains ids a ≡ false) ⊎ (above a 0 ≡ true))
normalize_assignment_ids-distinct ids out a h =
    let (once, same, positive) = loop-times [] ids out a h (omega arith) in
    (once, same, ground (arith, positive))

-- Ids that are all positive are accepted.
pub normalize_assignment_ids_total :
    (ids : List ℤ)
    → ((a : ℤ) → contains ids a ≡ true → above a 0 ≡ true)
    → (out : List ℤ) × (normalize_assignment_ids ids ≡ ok out)
normalize_assignment_ids_total ids = loop_total [] ids

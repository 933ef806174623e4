-- ===== src/Sources/Statements/Preserved.antt =====
-- What every sequence of key steps preserves: the keys of other owners, and the distinctness of ids.
use sub_share_go.Common.{
  ℕ, suc, ◌<◌, List, [], ◌∷◌, ◌++◌, Bool, true, ◌≡◌, refl, ◌∙◌, arith, ℕ_eq, Bool-cases, inl, inr,
  All, All-append,
}
use sub_share_go.Sources.Rows.{SourceKeyRow, Database, owned, is_row, update_where, delete_where}
use sub_share_go.Sources.Statements.KeyStep.{
  KeySteps, KeyWrite, wrote, untouched, changed, removed, inserted_row, done, also,
}

-- the keys of every other source and those of none
abbrev pub others : ℕ → List SourceKeyRow → List SourceKeyRow
others source rows = delete_where (owned source) rows

others-update_where :
    (source id : ℕ) (change : SourceKeyRow → SourceKeyRow) (rows : List SourceKeyRow)
    → ((row : SourceKeyRow) → owned source row ≡ true → owned source (change row) ≡ true)
    → others source (update_where (is_row source id) change rows) ≡ others source rows
unfolding update_where delete_where
others-update_where source id change [] owns = refl
others-update_where source id change (row ∷ rows) owns =
    ground (arith, owns row, others-update_where source id change rows owns)

others-delete_where :
    (source id : ℕ) (rows : List SourceKeyRow)
    → others source (delete_where (is_row source id) rows) ≡ others source rows
unfolding delete_where
others-delete_where source id [] = refl
others-delete_where source id (row ∷ rows) = ground (arith, others-delete_where source id rows)

others-append :
    (source : ℕ) (rows : List SourceKeyRow) (row : SourceKeyRow)
    → owned source row ≡ true
    → others source (rows ++ row ∷ []) ≡ others source rows
unfolding delete_where
others-append source [] row mine = rw mine refl
others-append source (first ∷ rows) row mine = ground (arith, others-append source rows row mine)

KeyWrite-others :
    (source : ℕ) (d e : Database)
    → KeyWrite source d e
    → others source e.keys ≡ others source d.keys
KeyWrite-others source d e (untouched same _) = rw same refl
KeyWrite-others source d e (changed id change owns _ same _) =
    rw same (others-update_where source id change d.keys owns)
KeyWrite-others source d e (inserted_row row mine _ same _) =
    rw same (others-append source d.keys row mine)

pub KeySteps-others :
    {source : ℕ} {d e : Database}
    → KeySteps source d e
    → others source e.keys ≡ others source d.keys
KeySteps-others done = refl
KeySteps-others {source} (also {d} {e} (wrote w) rest) =
    KeySteps-others rest ∙ KeyWrite-others source d e w
KeySteps-others {source} (also {d} {e} (removed id same _) rest) =
    KeySteps-others rest ∙ rw same (others-delete_where source id d.keys)

-- ids in the order of the primary key, each below the next id to be given
abbrev pub Increasing : List SourceKeyRow → ℕ → Type 0
Increasing [] next = Unit
Increasing (row ∷ rows) next =
    (row.id < next) × All (λ other. row.id < other.id) rows × Increasing rows next

All-update_where :
    (P : ℕ → Type 0) (test : SourceKeyRow → Bool) (change : SourceKeyRow → SourceKeyRow)
    (rows : List SourceKeyRow)
    → ((row : SourceKeyRow) → (change row).id ≡ row.id)
    → All (λ row. P row.id) rows
    → All (λ row. P row.id) (update_where test change rows)
unfolding update_where
All-update_where P test change [] keeps h = tt
All-update_where P test change (row ∷ rows) keeps h =
    let rest = All-update_where P test change rows keeps h.1 in
    elim (Bool-cases (test row)) [
      | inl yes' ↦ rw yes' (rw (keeps row) h.0, rest)
      | inr no' ↦ rw no' (h.0, rest)
    ]

All-delete_where :
    (P : SourceKeyRow → Type 0) (test : SourceKeyRow → Bool) (rows : List SourceKeyRow)
    → All P rows
    → All P (delete_where test rows)
unfolding delete_where
All-delete_where P test [] h = tt
All-delete_where P test (row ∷ rows) h =
    let rest = All-delete_where P test rows h.1 in
    elim (Bool-cases (test row)) [ inl yes' ↦ rw yes' rest | inr no' ↦ rw no' (h.0, rest) ]

Increasing-update_where :
    (test : SourceKeyRow → Bool) (change : SourceKeyRow → SourceKeyRow) (rows : List SourceKeyRow)
    (next : ℕ)
    → ((row : SourceKeyRow) → (change row).id ≡ row.id)
    → Increasing rows next
    → Increasing (update_where test change rows) next
unfolding update_where
Increasing-update_where test change [] next keeps h = tt
Increasing-update_where test change (row ∷ rows) next keeps (below, above, rest) =
    let above' = All-update_where (λ id. row.id < id) test change rows keeps above in
    let rest' = Increasing-update_where test change rows next keeps rest in
    elim (Bool-cases (test row)) [
      | inl yes' ↦ rw (yes', keeps row) (below, above', rest')
      | inr no' ↦ rw no' (below, above', rest')
    ]

Increasing-delete_where :
    (test : SourceKeyRow → Bool) (rows : List SourceKeyRow) (next : ℕ)
    → Increasing rows next
    → Increasing (delete_where test rows) next
unfolding delete_where
Increasing-delete_where test [] next h = tt
Increasing-delete_where test (row ∷ rows) next (below, above, rest) =
    let rest' = Increasing-delete_where test rows next rest in
    elim (Bool-cases (test row)) [
      | inl yes' ↦ rw yes' rest'
      | inr no' ↦ rw no' (below, All-delete_where _ test rows above, rest')
    ]

Increasing-append :
    (rows : List SourceKeyRow) (row : SourceKeyRow)
    → Increasing rows row.id
    → Increasing (rows ++ row ∷ []) (suc row.id)
Increasing-append [] row h = (omega arith, tt, tt)
Increasing-append (first ∷ rows) row (below, above, rest) = (
  omega (arith, below),
  All-append _ rows (row ∷ []) above (below, tt),
  Increasing-append rows row rest,
)

KeyWrite-Increasing :
    (source : ℕ) (d e : Database)
    → KeyWrite source d e
    → Increasing d.keys d.next_key_id
    → Increasing e.keys e.next_key_id
KeyWrite-Increasing source d e (untouched same next) h = rw (same, next) h
KeyWrite-Increasing source d e (changed id change owns keeps same next) h =
    rw (same, next) (Increasing-update_where (is_row source id) change d.keys d.next_key_id keeps h)
KeyWrite-Increasing source d e (inserted_row row mine fresh same next) h =
    rw (same, next, ← fresh) (Increasing-append d.keys row (rw fresh h))

pub KeySteps-Increasing :
    {source : ℕ} {d e : Database}
    → KeySteps source d e
    → Increasing d.keys d.next_key_id
    → Increasing e.keys e.next_key_id
KeySteps-Increasing done h = h
KeySteps-Increasing {source} (also {d} {e} (wrote w) rest) h =
    KeySteps-Increasing rest (KeyWrite-Increasing source d e w h)
KeySteps-Increasing {source} (also {d} {e} (removed id same next) rest) h =
    KeySteps-Increasing rest
      (rw (same, next) (Increasing-delete_where (is_row source id) d.keys d.next_key_id h))

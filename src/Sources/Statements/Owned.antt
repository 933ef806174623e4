-- ===== src/Sources/Statements/Owned.antt =====
-- The ids that a synchronisation has listed stay ids of rows that its source owns.
use sub_share_go.Common.{ℕ, List, [], ◌∷◌, true, ◌≡◌, All, All-append, Bool, Bool-cases, inl, inr}
use sub_share_go.Sources.Rows.{SourceKeyRow, Database, owned, is_row, update_where, delete_where}
use sub_share_go.Sources.Statements.KeyStep.{
  KeySteps, KeyWrite, wrote, untouched, changed, removed, inserted_row, done, also, Owns,
}

pub All-map {ℓ κ κ'} :
    {A : Type ℓ} (P : A → Type κ) (Q : A → Type κ')
    → ((a : A) → P a → Q a)
    → (xs : List A) → All P xs
    → All Q xs
All-map P Q f [] h = tt
All-map P Q f (x ∷ xs) h = (f x h.0, All-map P Q f xs h.1)

pub All-both {ℓ κ κ' κ''} :
    {A : Type ℓ} (P : A → Type κ) (Q : A → Type κ') (R : A → Type κ'')
    → ((a : A) → P a → Q a → R a)
    → (xs : List A) → All P xs
    → All Q xs
    → All R xs
All-both P Q R f [] h k = tt
All-both P Q R f (x ∷ xs) h k = (f x h.0 k.0, All-both P Q R f xs h.1 k.1)

Owns-update_where :
    (source id : ℕ) (test : SourceKeyRow → Bool) (change : SourceKeyRow → SourceKeyRow)
    (rows : List SourceKeyRow)
    → ((row : SourceKeyRow) → owned source row ≡ true → owned source (change row) ≡ true)
    → ((row : SourceKeyRow) → (change row).id ≡ row.id)
    → Owns source id rows
    → Owns source id (update_where test change rows)
unfolding update_where
Owns-update_where source id test change [] owns keeps h = tt
Owns-update_where source id test change (row ∷ rows) owns keeps h =
    let rest = Owns-update_where source id test change rows owns keeps h.1 in
    elim (Bool-cases (test row)) [
      | inl yes' ↦ rw yes' ((λ e. owns row (h.0 (rw (keeps row) at e))), rest)
      | inr no' ↦ rw no' (h.0, rest)
    ]

Owns-delete_where :
    (source id : ℕ) (test : SourceKeyRow → Bool) (rows : List SourceKeyRow)
    → Owns source id rows
    → Owns source id (delete_where test rows)
unfolding delete_where
Owns-delete_where source id test [] h = tt
Owns-delete_where source id test (row ∷ rows) h =
    let rest = Owns-delete_where source id test rows h.1 in
    elim (Bool-cases (test row)) [ inl yes' ↦ rw yes' rest | inr no' ↦ rw no' (h.0, rest) ]

pub KeyWrite-Owns :
    (source id : ℕ) (d e : Database)
    → KeyWrite source d e
    → Owns source id d.keys
    → Owns source id e.keys
KeyWrite-Owns source id d e (untouched same _) h = rw same h
KeyWrite-Owns source id d e (changed other change owns keeps same _) h =
    rw same (Owns-update_where source id (is_row source other) change d.keys owns keeps h)
KeyWrite-Owns source id d e (inserted_row row mine _ same _) h =
    rw same (All-append _ d.keys (row ∷ []) h ((λ e. mine), tt))

pub KeySteps-Owns :
    {source : ℕ} {d e : Database} (id : ℕ)
    → KeySteps source d e
    → Owns source id d.keys
    → Owns source id e.keys
KeySteps-Owns id done h = h
KeySteps-Owns {source} id (also {d} {e} (wrote w) rest) h =
    KeySteps-Owns id rest (KeyWrite-Owns source id d e w h)
KeySteps-Owns {source} id (also {d} {e} (removed other same _) rest) h =
    KeySteps-Owns id rest (rw same (Owns-delete_where source id (is_row source other) d.keys h))

-- ===== src/Sources/Reconcile/Kept.antt =====
-- The rows that a reconciliation keeps: those that a key of the feed has been written to, and every
-- row when an item of the feed could not be read.
use sub_share_go.Common.{
  ℕ, suc, List, [], ◌∷◌, ◌++◌, Bool, true, false, ◌≡◌, refl, ◌∙◌, arith, contains, ℕ_eq, nat_eq,
  Bool-cases, inl, inr, ◌⊎◌,
}
use sub_share_go.Common.Result.{ok, >>=-eq-ok}
use sub_share_go.Sources.Items.{ParsedKey}
use sub_share_go.Sources.Rows.{
  SourceKeyRow, SourceKeyWrite, Database, owned, is_row, update_where, delete_where, exists_where,
}
use sub_share_go.Sources.Statements.{update_source_key, has_id, with_url, rewritten}
use sub_share_go.Sources.Statements.KeyStep.{
  KeyWrite, untouched, changed, inserted_row, update_source_key-eq-ok, owned-rewritten,
  insert_source_key-KeyWrite,
}
use sub_share_go.Sources.State.{ProfileIdentity, SyncState}
use sub_share_go.Sources.Reconcile.{upsert_parsed_key, upsert_keys, remove_id}
use sub_share_go.Sources.Reconcile.Upserts.{
  Upserted, skipped_key, written_key, inserted_key, upsert_parsed_key-Upsert,
}

-- whether the source has a row with the id
abbrev pub present : ℕ → ℕ → Database → Bool
present source id db = exists_where (is_row source id) db.keys

exists_where-update_where :
    (source id : ℕ) (test : SourceKeyRow → Bool) (change : SourceKeyRow → SourceKeyRow)
    (rows : List SourceKeyRow)
    → ((row : SourceKeyRow) → owned source row ≡ true → owned source (change row) ≡ true)
    → ((row : SourceKeyRow) → (change row).id ≡ row.id)
    → exists_where (is_row source id) rows ≡ true
    → exists_where (is_row source id) (update_where test change rows) ≡ true
unfolding exists_where update_where
exists_where-update_where source id test change [] owns keeps h = h
exists_where-update_where source id test change (row ∷ rows) owns keeps h =
    ground
      (arith, owns row, keeps row, exists_where-update_where source id test change rows owns keeps)

exists_where-append :
    (test : SourceKeyRow → Bool) (rows more : List SourceKeyRow)
    → exists_where test rows ≡ true
    → exists_where test (rows ++ more) ≡ true
unfolding exists_where
exists_where-append test [] more h = cc
exists_where-append test (row ∷ rows) more h = ground (arith, exists_where-append test rows more)

pub exists_where-delete_where :
    (source id other : ℕ) (rows : List SourceKeyRow)
    → nat_eq other id ≡ false
    → exists_where (is_row source id) rows ≡ true
    → exists_where (is_row source id) (delete_where (is_row source other) rows) ≡ true
unfolding exists_where delete_where
exists_where-delete_where source id other [] ne h = h
exists_where-delete_where source id other (row ∷ rows) ne h =
    ground (arith, exists_where-delete_where source id other rows ne)

-- a write deletes no row
pub KeyWrite-present :
    (source id : ℕ) (d e : Database)
    → KeyWrite source d e
    → present source id d ≡ true
    → present source id e ≡ true
KeyWrite-present source id d e (untouched same _) h = rw same h
KeyWrite-present source id d e (changed other change owns keeps same _) h =
    rw same (exists_where-update_where source id (is_row source other) change d.keys owns keeps h)
KeyWrite-present source id d e (inserted_row row _ _ same _) h =
    rw same (exists_where-append (is_row source id) d.keys (row ∷ []) h)

-- an update keeps the row that it writes to, whosever it is
update_source_key-present :
    (other id : ℕ) (w : SourceKeyWrite) (d : Database) {e : Database}
    → update_source_key other w d ≡ ok e
    → present w.source_id id d ≡ true
    → present w.source_id id e ≡ true
update_source_key-present other id w d h here =
    let (keys, next) = update_source_key-eq-ok other w d h in
    let own = is_row w.source_id other in
    rw keys (
      exists_where-update_where w.source_id id (has_id other) (with_url w.url)
        (update_where own (rewritten w) d.keys) (λ row o. o) (λ row. refl)
        (exists_where-update_where w.source_id id own (rewritten w) d.keys
          (λ row o. owned-rewritten w row) (λ row. refl) here))

-- an upsert deletes no row
pub Upserted-present :
    (s t : SyncState) (id : ℕ)
    → Upserted s t
    → present s.source.id id s.db ≡ true
    → present s.source.id id t.db ≡ true
Upserted-present s t id (skipped_key d _ _ _) here = rw d here
Upserted-present s t id (written_key key w _ _ _ _ owner stored _ _ _) here =
    rw owner at (update_source_key-present key.id id w s.db stored (rw owner here))
Upserted-present s t id (inserted_key w owner stored _ _ _) here =
    KeyWrite-present s.source.id id s.db t.db
      (rw (← owner) (insert_source_key-KeyWrite w s.db stored)) here

contains-remove_id :
    (id other : ℕ) (ids : List ℕ)
    → contains ids id ≡ false
    → contains (remove_id other ids) id ≡ false
unfolding remove_id
contains-remove_id id other [] h = h
contains-remove_id id other (first ∷ ids) h = ground (arith, contains-remove_id id other ids)

-- an id that is not up for deletion is not put up for it
Upserted-ids :
    (s t : SyncState) (id : ℕ)
    → Upserted s t
    → contains s.existing.ids id ≡ false
    → contains t.existing.ids id ≡ false
Upserted-ids s t id (skipped_key _ e _ _) h = rw e h
Upserted-ids s t id (written_key key _ _ _ _ _ _ _ e _ _) h =
    rw e (contains-remove_id id key.id s.existing.ids h)
Upserted-ids s t id (inserted_key _ _ _ e _ _) h = rw e h

-- A stored row survives the upserts, and stays out of the deletions once it is out of them.
pub upsert_keys-present :
    ⦃p : ProfileIdentity⦄ (index : ℕ) (items : List ParsedKey) (s : SyncState) (id : ℕ)
    {t : SyncState}
    → upsert_keys index items s ≡ ok t
    → present s.source.id id s.db ≡ true
    → (present s.source.id id t.db ≡ true)
      × (t.source ≡ s.source)
      × (t.parsed ≡ s.parsed)
      × (t.result.removed ≡ s.result.removed)
      × ((contains s.existing.ids id ≡ true) ⊎ (contains t.existing.ids id ≡ false))
unfolding upsert_keys
upsert_keys-present index [] s id {t} h here =
    let e : s ≡ t = ground arith in
    rw (← e) (here, refl, refl, refl, Bool-cases (contains s.existing.ids id))
upsert_keys-present index (item ∷ items) s id {t} h here =
    let (u, first, rest) =
      >>=-eq-ok (upsert_parsed_key index item s) (upsert_keys (suc index) items) h in
    let (outcome, (source, parsed, same, refs)) = upsert_parsed_key-Upsert index item s first in
    let still : present s.source.id id u.db ≡ true = Upserted-present s u id outcome here in
    let (a, b, c, d, e) = upsert_keys-present (suc index) items u id rest (rw source still) in
    (
      rw source at a,
      b ∙ source,
      c ∙ parsed,
      d ∙ same,
      elim (Bool-cases (contains s.existing.ids id)) [
        | inl listed ↦ inl listed
        | inr out ↦ elim e [
          | inl back ↦ absurd (cc (back, Upserted-ids s u id outcome out))
          | inr kept ↦ inr kept
        ]
      ],
    )

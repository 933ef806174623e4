-- ===== src/Sources/Leases/Marked.antt =====
-- cmd/server/source_fetch_ownership.go: what publishing the status of a fetch may do to the rows of
-- the sources.
use sub_share_go.Common.{text, List, [], ◌∷◌, none, some, true, ◌≡◌, if◌then◌else◌, ◌⊎◌}
use sub_share_go.Strings.{Text, Unicode, codes, is_empty}
use sub_share_go.Sources.Rows.{SourceRow}
use sub_share_go.Sources.Leases.{
  SourceFetchLease, source_fetch_input_matches, normalize_import_status, stale_message,
}

module _ ⦃u : Unicode⦄ where
  -- What publishing a status may do to a row: nothing; write the status to the source of the lease,
  -- whose inputs are still those of the fetch; or end a synchronisation of the source as stale.
  abbrev pub IsMarked : SourceFetchLease → Text → Text → SourceRow → SourceRow → Type 0
  IsMarked lease status message before after =
      (after ≡ before)
      ⊎ ((before.id ≡ lease.source_id)
          × (source_fetch_input_matches lease before.inputs ≡ true)
          × (after ≡ record before {
            import_status = normalize_import_status status;
            last_error = if is_empty message then none else some message;
          }))
      ⊎ ((before.id ≡ lease.source_id)
          × (before.import_status ≡ codes "syncing")
          × (after
              ≡ record before { import_status = codes "error"; last_error = some stale_message }))

  abbrev pub AreMarked : SourceFetchLease → Text → Text → List SourceRow → List SourceRow → Type 0
  AreMarked lease status message [] [] = Unit
  AreMarked lease status message (before ∷ rows) (after ∷ marked) =
      IsMarked lease status message before after × AreMarked lease status message rows marked
  AreMarked lease status message _ _ = ⊥

-- ===== src/Sources/Statements/KeyStep.antt =====
-- What a synchronisation of one source may do to the stored keys, as a step relation on the database,
-- and the statements as such steps.
use sub_share_go.Common.{
  ℕ, suc, List, [], ◌∷◌, ◌++◌, true, ◌≡◌, refl, arith, All, nat_eq, Bool-cases, inl, inr,
}
use sub_share_go.Common.Result.{ok, ◌>>=◌, >>=-eq-ok}
use sub_share_go.Strings.{Text}
use sub_share_go.Sources.Rows.{
  SourceKeyRow, SourceSyncMetadata, SourceKeyWrite, Database, owned, is_row, update_where,
  delete_where,
}
use sub_share_go.Sources.Statements.{
  statement, set_client_display_name, merge_user_assignments, delete_source_key, set_fingerprint,
  update_source_key, insert_source_key, mark_source_synced, with_display_name, with_fingerprint,
  with_keys, rewritten, with_url, has_id, put_secret, new_row, inserted,
}

-- One write of the synchronisation of `source`: it touches no row but one that `source` owns, keeps
-- the id and the owner of a row that it changes, and takes a new id for a new row.
pub data KeyWrite (source : ℕ) (d e : Database) : Type 0 where
  untouched : e.keys ≡ d.keys → e.next_key_id ≡ d.next_key_id → KeyWrite source d e
  changed :
      (id : ℕ) (change : SourceKeyRow → SourceKeyRow)
      → ((row : SourceKeyRow) → owned source row ≡ true → owned source (change row) ≡ true)
      → ((row : SourceKeyRow) → (change row).id ≡ row.id)
      → e.keys ≡ update_where (is_row source id) change d.keys
      → e.next_key_id ≡ d.next_key_id
      → KeyWrite source d e
  inserted_row :
      (row : SourceKeyRow)
      → owned source row ≡ true
      → row.id ≡ d.next_key_id
      → e.keys ≡ d.keys ++ row ∷ []
      → e.next_key_id ≡ suc d.next_key_id
      → KeyWrite source d e

-- A write, or the deletion of one row that `source` owns.
pub data KeyStep (source : ℕ) (d e : Database) : Type 0 where
  wrote : KeyWrite source d e → KeyStep source d e
  removed :
      (id : ℕ)
      → e.keys ≡ delete_where (is_row source id) d.keys
      → e.next_key_id ≡ d.next_key_id
      → KeyStep source d e

pub data KeySteps (source : ℕ) : Database → Database → Type 0 where
  done : {d : Database} → KeySteps source d d
  also : {d e f : Database} → KeyStep source d e → KeySteps source e f → KeySteps source d f

pub steps_append :
    {source : ℕ} {d e f : Database}
    → KeySteps source d e
    → KeySteps source e f
    → KeySteps source d f
steps_append done more = more
steps_append (also first rest) more = also first (steps_append rest more)

pub one_step : {source : ℕ} {d e : Database} → KeyStep source d e → KeySteps source d e
one_step first = also first done

pub statement-eq-ok :
    (change : Database → Database) (d : Database) {e : Database}
    → statement change d ≡ ok e
    → e ≡ change (record d { clock = suc d.clock })
unfolding statement
statement-eq-ok change d h = ground arith

-- a statement that does not write keys
quiet :
    (d : Database) {e : Database}
    → statement (λ x. x) d ≡ ok e
    → (e.keys ≡ d.keys) × (e.next_key_id ≡ d.next_key_id)
quiet d h = let e = statement-eq-ok (λ x. x) d h in rw e (refl, refl)

pub set_client_display_name-KeyWrite :
    (source id : ℕ) (name : Text) (d : Database) {e : Database}
    → set_client_display_name source id name d ≡ ok e
    → KeyWrite source d e
unfolding set_client_display_name
set_client_display_name-KeyWrite source id name d h =
    rw (statement-eq-ok _ d h)
      (changed id (with_display_name name) (λ row o. o) (λ row. refl) refl refl)

pub merge_user_assignments-KeyWrite :
    (source survivor duplicate : ℕ) (d : Database) {e : Database}
    → merge_user_assignments survivor duplicate d ≡ ok e
    → KeyWrite source d e
unfolding merge_user_assignments
merge_user_assignments-KeyWrite source survivor duplicate d h =
    rw (statement-eq-ok _ d h) (untouched refl refl)

pub delete_source_key-KeyStep :
    (source id : ℕ) (d : Database) {e : Database}
    → delete_source_key source id d ≡ ok e
    → KeyStep source d e
unfolding delete_source_key
delete_source_key-KeyStep source id d h = rw (statement-eq-ok _ d h) (removed id refl refl)

pub mark_source_synced-KeyWrite :
    (source target imported : ℕ) (meta : SourceSyncMetadata) (d : Database) {e : Database}
    → mark_source_synced target imported meta d ≡ ok e
    → KeyWrite source d e
unfolding mark_source_synced
mark_source_synced-KeyWrite source target imported meta d h =
    rw (statement-eq-ok _ d h) (untouched refl refl)

pub set_fingerprint-KeyWrite :
    (source id : ℕ) (fingerprint : Text) (d : Database) {e : Database}
    → set_fingerprint source id fingerprint d ≡ ok e
    → KeyWrite source d e
unfolding set_fingerprint
set_fingerprint-KeyWrite source id fingerprint d {e} h =
    let written : statement
          (with_keys (update_where (is_row source id) (with_fingerprint fingerprint))) d
        ≡ ok e =
      ground arith in
    rw (statement-eq-ok _ d written)
      (changed id (with_fingerprint fingerprint) (λ row o. o) (λ row. refl) refl refl)

-- The rows with the id are the source's.
abbrev pub Owns : ℕ → ℕ → List SourceKeyRow → Type 0
Owns source id rows = All (λ row. nat_eq row.id id ≡ true → owned source row ≡ true) rows

abbrev pub stored_with : SourceKeyWrite → SourceKeyRow → SourceKeyRow
stored_with w row = with_url w.url (rewritten w row)

put_secret-eq-ok :
    (id : ℕ) (url : Text) (d : Database) {e : Database}
    → put_secret id url d ≡ ok e
    → e ≡ with_keys (update_where (has_id id) (with_url url)) (record d { clock = suc d.clock })
unfolding put_secret
put_secret-eq-ok id url d {e} h =
    let change = with_keys (update_where (has_id id) (with_url url)) in
    let written : statement change d ≡ ok e = ground arith in statement-eq-ok change d written

-- the two writes of the keys that `UpdateSourceKey` makes
pub update_source_key-eq-ok :
    (id : ℕ) (w : SourceKeyWrite) (d : Database) {e : Database}
    → update_source_key id w d ≡ ok e
    → (e.keys
        ≡ update_where
            (has_id id)
            (with_url w.url)
            (update_where (is_row w.source_id id) (rewritten w) d.keys))
      × (e.next_key_id ≡ d.next_key_id)
unfolding update_source_key
update_source_key-eq-ok id w d {e} h =
    let change = with_keys (update_where (is_row w.source_id id) (rewritten w)) in
    let chain : (statement change d >>= statement (λ x. x) >>= put_secret id w.url) ≡ ok e =
      ground arith in
    let (d2, h2, last) = >>=-eq-ok (statement change d >>= statement (λ x. x)) _ chain in
    let (d1, first, second) = >>=-eq-ok (statement change d) _ h2 in
    let (k2, n2) = quiet d1 second in
    rw (put_secret-eq-ok id w.url d2 last, k2, n2, statement-eq-ok change d first) (refl, refl)

-- on a row of the source the secret that is written by the id is the row's own
update_twice :
    (id : ℕ) (w : SourceKeyWrite) (rows : List SourceKeyRow)
    → Owns w.source_id id rows
    → update_where
        (has_id id)
        (with_url w.url)
        (update_where (is_row w.source_id id) (rewritten w) rows)
      ≡ update_where (is_row w.source_id id) (stored_with w) rows
unfolding update_where
update_twice id w [] owns = refl
update_twice id w (row ∷ rows) owns =
    let rest = update_twice id w rows owns.1 in
    elim (Bool-cases (nat_eq row.id id)) [
      | inl same ↦ rw (rest, same, owns.0 same, same) refl
      | inr other ↦ rw (rest, other, other) refl
    ]

pub owned-rewritten :
    (w : SourceKeyWrite) (row : SourceKeyRow) → owned w.source_id (rewritten w row) ≡ true
owned-rewritten w row = ground arith

pub update_source_key-KeyWrite :
    (id : ℕ) (w : SourceKeyWrite) (d : Database) {e : Database}
    → Owns w.source_id id d.keys
    → update_source_key id w d ≡ ok e
    → KeyWrite w.source_id d e
update_source_key-KeyWrite id w d {e} owns h =
    let (keys, next) = update_source_key-eq-ok id w d h in
    changed id (stored_with w) (λ row o. owned-rewritten w row) (λ row. refl)
      (rw (keys) (update_twice id w d.keys owns)) next

-- a new row of the source
pub insert_source_key-KeyWrite :
    (w : SourceKeyWrite) (d : Database) {e : Database}
    → insert_source_key w d ≡ ok e
    → KeyWrite w.source_id d e
unfolding insert_source_key
insert_source_key-KeyWrite w d {e} h =
    let chain : (statement (λ x. x) d
          >>= statement (λ x. x)
          >>= statement (λ x. x)
          >>= statement (inserted w))
        ≡ ok e =
      ground arith in
    let (d3, h3, last) =
      >>=-eq-ok (statement (λ x. x) d >>= statement (λ x. x) >>= statement (λ x. x)) _ chain in
    let (d2, h2, third) = >>=-eq-ok (statement (λ x. x) d >>= statement (λ x. x)) _ h3 in
    let (d1, first, second) = >>=-eq-ok (statement (λ x. x) d) _ h2 in
    let (k1, n1) = quiet d first in
    let (k2, n2) = quiet d1 second in
    let (k3, n3) = quiet d2 third in
    rw (statement-eq-ok (inserted w) d3 last) (
      inserted_row (new_row d3.next_key_id w) (ground arith) (rw (n3, n2, n1) refl)
        (rw (k3, k2, k1) refl) (rw (n3, n2, n1) refl))

-- A deletion takes the row and nothing else.
pub delete_source_key-eq-ok :
    (source id : ℕ) (d : Database) {e : Database}
    → delete_source_key source id d ≡ ok e
    → e.keys ≡ delete_where (is_row source id) d.keys
unfolding delete_source_key
delete_source_key-eq-ok source id d h = rw (statement-eq-ok _ d h) refl
